-- ===== src/Stream/Histogram.antt =====
-- `aggregator_stream_dump_histogram` and `aggregator_stream_dump_raw_data` of src/client.c. What is
-- written to the file is the result; `opened` says whether `fopen` succeeded, which the code does
-- not check. Both functions have no `return` statement, so there is no return code.
pub mod Buckets
pub mod Overflow
use aggregator.Base.{
  ℕ, zero, suc, ◌+◌, Bool, List, [], ◌∷◌, Option, none, some, ℤ, pos, negsuc, length, get_elem?,
  set, ltb, replicate, if◌then◌else◌, M, pure, fault, ◌>>=◌, ◌>>◌,
}
use aggregator.Common.{Sample}
use aggregator.Double.{Double}
use aggregator.Memory.{Stream, Heap, load, read_sample}

-- The local variables `max` and `min`.
pub record Range : Type 0 where
  pub max : ℕ
  pub min : ℕ

-- The lines of the file.
pub record Report : Type 0 where
  pub num_buckets : ℕ
  pub range : Range
  pub rows : List ℕ

-- A C pointer to an open file, or NULL.
abbrev pub written : {A : Type 0} → Bool → A → M Heap A
written opened a = if opened then pure a else fault

module _ ⦃F : Double⦄ where
  abbrev pub initial : Range
  initial = record { max = F.of_ℕ 0; min = F.of_ℕ 9999999999999 }

  -- The body of the first loop.
  unfoldable pub widen : Range → ℕ → Range
  widen r val = record {
    max = if F.lt r.max val then val else r.max;
    min = if F.lt val r.min then val else r.min;
  }

  -- The first loop, at index i with `left` samples to go.
  unfoldable pub range_loop : ℕ → ℕ → ℕ → Range → M Heap Range
  range_loop b i zero r = pure r
  range_loop b i (suc left) r = do x ← read_sample b i; range_loop b (suc i) left (widen r x.val)

  -- `(int)(((val - min)/(max - min))*num_buckets)`
  unfoldable pub bucket_index : Range → ℕ → ℕ → Option ℤ
  bucket_index r num_buckets val =
      F.to_int (F.mul (F.div (F.sub val r.min) (F.sub r.max r.min)) (F.of_ℕ num_buckets))

-- `buckets[bucket_index]++`; `none` is an index outside the array, or no index.
unfoldable pub increment : Option ℤ → List ℕ → Option (List ℕ)
increment none buckets = none
increment (some (negsuc k)) buckets = none
increment (some (pos k)) buckets = elim (get_elem? buckets k) [
  | none ↦ none
  | some n ↦ some (set buckets k (suc n))
]

abbrev pub or_fault : {A : Type 0} → Option A → M Heap A
or_fault none = fault
or_fault (some a) = pure a

module _ ⦃F : Double⦄ where
  -- The second loop.
  unfoldable pub bucket_loop : ℕ → ℕ → ℕ → Range → ℕ → List ℕ → M Heap (List ℕ)
  bucket_loop b i zero r n buckets = pure buckets
  bucket_loop b i (suc left) r n buckets = do
    x ← read_sample b i
    buckets' ← or_fault (increment (bucket_index r n x.val) buckets)
    bucket_loop b (suc i) left r n buckets'

  unfoldable pub dump_histogram : ℕ → Bool → ℕ → M Heap Report
  dump_histogram m opened num_buckets = do
    s ← load m
    r ← range_loop s.buffer 0 s.buffer_index initial
    rows ← bucket_loop s.buffer 0 s.buffer_index r num_buckets (replicate num_buckets 0)
    written opened (record { num_buckets = num_buckets; range = r; rows = rows })

-- The loop of `aggregator_stream_dump_raw_data`.
unfoldable pub raw_loop : ℕ → ℕ → ℕ → M Heap (List Sample)
raw_loop b i zero = pure []
raw_loop b i (suc left) = do x ← read_sample b i; rest ← raw_loop b (suc i) left; pure (x ∷ rest)

unfoldable pub dump_raw_data : ℕ → Bool → M Heap (List Sample)
dump_raw_data m opened = do
  s ← load m
  written opened tt
  rows ← raw_loop s.buffer 0 s.buffer_index
  pure rows
