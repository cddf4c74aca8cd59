-- ===== src/Provider/Listing/Exact.antt =====
-- The identifiers that the handler of a listing writes, against the lookup of streams.
use aggregator.Base.{
  ℕ, ◌≡◌, sym, ap, ◌∙◌, ◌^◌, ◌<◌, ◌↔◌, inl, inr, ℕ_discrete, List, [], ◌∷◌, some, Any, length, min,
  arith, done,
}
use aggregator.Common.{success}
use aggregator.Uthash.{Uthash, Item, lookup}
use aggregator.Wire.{HgProc, put_members}
use aggregator.Provider.{World, find_stream}
use aggregator.Provider.Validity.{IsValid}
use aggregator.Provider.Listing.{keys, length-keys, list_streams_ult, list_streams_lem}

-- The identifier is in the array.
abbrev pub IsListed : ℕ → List ℕ → Type 0
IsListed j ids = Any (λ (id : ℕ). id ≡ j) ids

lookup-IsListed :
    (j : ℕ) (items : List Item) → IsListed j (keys items) → (p : ℕ) × (lookup j items ≡ some p)
lookup-IsListed j [] a = absurd a
lookup-IsListed j ((k, p) ∷ items) (inl e) = (p, ground arith)
lookup-IsListed j ((k, p) ∷ items) (inr a) =
    let later = lookup-IsListed j items a in
    elim (ℕ_discrete k j) [ yes e ↦ (p, ground arith) | no n ↦ (later.0, ground (arith, later.1)) ]

IsListed-lookup : (j p : ℕ) (items : List Item) → lookup j items ≡ some p → IsListed j (keys items)
IsListed-lookup j p [] e = cc
IsListed-lookup j p ((k, q) ∷ items) e = elim (ℕ_discrete k j) [
  | yes same ↦ inl same
  | no n ↦ inr (IsListed-lookup j p items (ground arith))
]

module _ ⦃H : Uthash⦄ ⦃P : HgProc⦄ where
  -- In a valid world of fewer than 2^32 streams the handler of a listing writes its identifiers inside its
  -- array, and an identifier is among them exactly if a stream is found under it; it answers with
  -- as many of them as the caller has asked for, or all if these are fewer, changing nothing.
  pub list-exact :
      (w : World) (max_ids : ℕ)
      → IsValid w
      → length (H.items w.provider.streams) < 2 ^ 32
      → (ids : List ℕ) × (list_streams_ult (some max_ids) w
          ≡ done (put_members success (min (length ids) max_ids) (some ids)) w)
        × ((j : ℕ) → IsListed j ids ↔ ((p : ℕ) × (find_stream j w ≡ done (some p) w)))
  unfolding find_stream
  list-exact w max_ids v small =
      let items = H.items w.provider.streams in
      let answer = list_streams_lem w max_ids v small in
      (
        keys items,
        answer
            ∙ ap (λ n. done (put_members success (min n max_ids) (some (keys items))) w)
                (sym (length-keys items)),
        λ j. (
          λ a.
              let found = lookup-IsListed j items a in
              (found.0, ap (λ o. done o w) (H.find-lookup w.provider.streams j ∙ found.1)),
          λ found.
              let there : H.find w.provider.streams j ≡ some found.0 = cc (found.1) in
              IsListed-lookup j found.0 items (sym (H.find-lookup w.provider.streams j) ∙ there),
        ),
      )
