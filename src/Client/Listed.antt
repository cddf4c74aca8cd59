-- ===== src/Client/Listed.antt =====
-- What a remote client gets when it lists the streams of a provider.
use aggregator.Base.{
  ℕ, zero, suc, ◌^◌, ◌≤◌, ◌<◌, ◌≡◌, refl, ap, true, List, [], ◌∷◌, some, length, take, length-take,
  min, arith, done,
}
use aggregator.Common.{success}
use aggregator.Wire.{Bytes, HgProc, put_list_streams_in, put_members}
use aggregator.Wire.Roundtrip.{decode-put_members, get-put_list_streams_in}
use aggregator.Uthash.{Uthash}
use aggregator.Provider.{World}
use aggregator.Provider.Validity.{IsValid}
use aggregator.Provider.Listing.{keys, length-keys, list_streams_lem}
use aggregator.Client.{
  copy_ids, overwrite_ids, list_answered, receive_list, list_requested, remote_list_streams,
}
use aggregator.Client.Newest.{working}

take-take : (n : ℕ) (xs : List ℕ) → take n (take n xs) ≡ take n xs
take-take zero xs = refl
take-take (suc n) [] = refl
take-take (suc n) (x ∷ xs) = ap (◌∷◌ x) (take-take n xs)

module _ ⦃H : Uthash⦄ ⦃P : HgProc⦄ where
  list_answered_lem :
      (w : World) (n count : ℕ) (src ids : List ℕ)
      → n ≤ length src
      → n ≤ length ids
      → list_answered
          (record { ret = success; count = some n; ids = some (take n src) })
          count
          ids
          w
        ≡ done (record { ret = success; count = n; ids = overwrite_ids (take n src) ids }) w
  unfolding list_answered copy_ids
  list_answered_lem w n count src ids le le' = ground (arith, length-take n src, take-take n src)

  receive_list_lem :
      (w : World) (n count : ℕ) (src ids : List ℕ) (bs : Bytes)
      → n ≤ length src
      → n ≤ length ids
      → put_members success n (some src) ≡ some bs
      → receive_list true count ids (some bs) w
        ≡ done (record { ret = success; count = n; ids = overwrite_ids (take n src) ids }) w
  unfolding receive_list
  receive_list_lem w n count src ids bs le le' sent =
      rw (receive_list, decode-put_members success n src bs le sent)
        (list_answered_lem w n count src ids le le')

  -- Listing the streams of a valid provider of fewer than 2^32 streams, over a link that works and where
  -- the request and the answer can be encoded, succeeds: the caller gets the number of streams, or what it asked for
  -- where that is less, and in its array, which must be as long, the identifiers of that many
  -- streams, the oldest first; the provider is not changed.
  pub list_streams-oldest :
      (w : World) (count bulk : ℕ) (ids : List ℕ) (request bs : Bytes)
      → IsValid w
      → length (H.items w.provider.streams) < 2 ^ 32
      → min (length (H.items w.provider.streams)) count ≤ length ids
      → put_list_streams_in count ≡ some request
      → put_members success
          (min (length (H.items w.provider.streams)) count)
          (some (keys (H.items w.provider.streams)))
        ≡ some bs
      → remote_list_streams (working bulk) count ids w
        ≡ done
            (record {
              ret = success;
              count = min (length (H.items w.provider.streams)) count;
              ids =
                  overwrite_ids
                    (take
                      (min (length (H.items w.provider.streams)) count)
                      (keys (H.items w.provider.streams)))
                    ids;
            })
            w
  unfolding remote_list_streams list_requested
  list_streams-oldest w count bulk ids request bs v small room asked sent =
      rw (asked, get-put_list_streams_in count request asked, list_streams_lem w count v small)
        (rw sent (
          receive_list_lem w _ count (keys (H.items w.provider.streams)) ids bs
            (omega (arith, length-keys (H.items w.provider.streams))) room sent))
