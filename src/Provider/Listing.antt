-- ===== src/Provider/Listing.antt =====
-- `aggregator_list_streams_ult`: the handler of the RPC that lists the streams.
pub mod Exact
use aggregator.Base.{
  ℕ, suc, ◌+◌, ◌^◌, ◌<◌, ◌≡◌, refl, ap, ◌∙◌, List, [], ◌∷◌, ◌++◌, Option, none, some, arith, u32,
  length, length-append, replicate, set, ltb, min, if◌then◌else◌, M, done, pure, fault, and_then,
  ◌>>=◌,
}
use mathlib.Core.List.{append_assoc}
use aggregator.Common.{success, err_from_mercury}
use aggregator.Memory.{Stream, load}
use aggregator.Wire.{Bytes, HgProc, encode_list_streams_out, put_members}
use aggregator.Uthash.{Uthash, Item}
use aggregator.Provider.{World, on_heap}
use aggregator.Provider.Validity.{IsValid, Backed}

-- A write to the array of identifiers, which must lie inside it.
unfoldable pub store_id : {S : Type 0} → List ℕ → ℕ → ℕ → M S (List ℕ)
store_id ids i id = if ltb i (length ids) then pure (set ids i id) else fault

module _ ⦃H : Uthash⦄ where
  -- The loop of the handler over the items that are left; `i` is an `unsigned`.
  unfoldable pub fill_ids : List Item → ℕ → List ℕ → M World (List ℕ)
  fill_ids [] i ids = pure ids
  fill_ids ((k, p) ∷ items) i ids = do
    r ← on_heap (load p)
    ids' ← store_id ids i r.id
    fill_ids items (u32 (i + 1)) ids'

  module _ ⦃P : HgProc⦄ where
    -- What the handler gives to `margo_respond`, encoded; the argument is `max_ids`, or `none` when the
    -- input could not be deserialized.
    unfoldable pub list_streams_ult : Option ℕ → M World (Option Bytes)
    list_streams_ult none w =
        encode_list_streams_out (record { ret = err_from_mercury; count = none; ids = none }) w
    list_streams_ult (some max_ids) w =
        let num_streams = w.provider.num_streams in
        and_then
          (λ ids. encode_list_streams_out (record {
            ret = success;
            count = some (if ltb num_streams max_ids then num_streams else max_ids);
            ids = some ids;
          }))
          (fill_ids (H.items w.provider.streams) 0 (replicate num_streams 0) w)

-- The identifiers in the table, oldest first.
abbrev pub keys : List Item → List ℕ
keys [] = []
keys ((k, p) ∷ items) = k ∷ keys items

pub length-keys : (items : List Item) → length (keys items) ≡ length items
length-keys [] = refl
length-keys ((k, p) ∷ items) = ap suc (length-keys items)

-- An array whose first part is filled in.
set-append : (xs : List ℕ) (a b : ℕ) (ys : List ℕ) → set (xs ++ a ∷ ys) (length xs) b ≡ xs ++ b ∷ ys
set-append [] a b ys = refl
set-append (x ∷ xs) a b ys = ap (◌∷◌ x) (set-append xs a b ys)

module _ ⦃H : Uthash⦄ where
  fill_step :
      (w : World) (k p : ℕ) (items : List Item) (i : ℕ) (ids : List ℕ) (s : Stream)
      → w.heap.streams p ≡ some s
      → s.id ≡ k
      → i < length ids
      → fill_ids ((k, p) ∷ items) i ids w ≡ fill_ids items (u32 (i + 1)) (set ids i k) w
  unfolding fill_ids store_id load
  fill_step w k p items i ids s loaded same room = ground arith

  fill_ids_lem :
      (w : World) (items : List Item) (xs : List ℕ)
      → Backed w.heap.streams items
      → length xs + length items < 2 ^ 32
      → fill_ids items (length xs) (xs ++ replicate (length items) 0) w ≡ done (xs ++ keys items) w
  unfolding fill_ids
  fill_ids_lem w [] xs b small = refl
  fill_ids_lem w ((k, p) ∷ items) xs b small =
      fill_step w k p items (length xs) (xs ++ replicate (suc (length items)) 0) b.0.0 b.0.1 b.0.2
        (omega (arith, length-append xs (0 ∷ replicate (length items) 0)))
      ∙ rw (set-append xs 0 k (replicate (length items) 0)) (
          rw (← append_assoc xs (k ∷ []) (replicate (length items) 0)) (
            rw one_more (
              fill_ids_lem w items (xs ++ k ∷ []) b.1 (omega (arith, length-append xs (k ∷ [])))
              ∙ ap (λ ys. done ys w) (append_assoc xs (k ∷ []) (keys items)))))
    where
      one_more : u32 (length xs + 1) ≡ length (xs ++ k ∷ [])
      one_more = omega (arith, length-append xs (k ∷ []))

  module _ ⦃P : HgProc⦄ where
    -- In a valid world the handler writes all identifiers of the table, oldest first, inside its
    -- array, and answers with as many of them as the caller has asked for, changing nothing.
    pub list_streams_lem :
        (w : World) (max_ids : ℕ)
        → IsValid w
        → length (H.items w.provider.streams) < 2 ^ 32
        → list_streams_ult (some max_ids) w
          ≡ done
              (put_members success
                (min (length (H.items w.provider.streams)) max_ids)
                (some (keys (H.items w.provider.streams))))
              w
    unfolding list_streams_ult encode_list_streams_out
    list_streams_lem w max_ids v small =
        let n = length (H.items w.provider.streams) in
        let counted : w.provider.num_streams ≡ n = omega (arith, v.counted) in
        let filled : fill_ids (H.items w.provider.streams) 0 (replicate n 0) w
            ≡ done (keys (H.items w.provider.streams)) w =
          fill_ids_lem w (H.items w.provider.streams) [] v.backed (omega arith) in
        ground (arith, counted, filled, length-keys (H.items w.provider.streams))
