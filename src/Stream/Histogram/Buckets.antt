-- ===== src/Stream/Histogram/Buckets.antt =====
-- What the two dumps write, where every bucket index stays inside the array.
use aggregator.Base.{
  ℕ, zero, suc, ◌+◌, ◌≤◌, ◌<◌, ◌≡◌, refl, Bool, true, false, List, [], ◌∷◌, reverse, Option, none,
  some, ℤ, pos, negsuc, length, get_or, arith, done, ◌==◌, if◌then◌else◌,
}
use aggregator.Common.{StreamType, Sample, stream_buffer_size}
use aggregator.Double.{Double}
use aggregator.Memory.{Heap, load}
use aggregator.Stream.History.{slice, Holds}
use aggregator.Stream.Slices.{slice-reverse, read_sample_lem}
use aggregator.Stream.Histogram.{
  Range, initial, widen, range_loop, bucket_index, raw_loop, dump_raw_data,
}

raw_loop_lem :
    (b i left : ℕ) (h : Heap) (buf : ℕ → Sample)
    → h.buffers b ≡ some buf
    → i + left ≤ stream_buffer_size
    → raw_loop b i left h ≡ done (slice buf i left) h
unfolding raw_loop
raw_loop_lem b i zero h buf e room = refl
raw_loop_lem b i (suc left) h buf e room = ground (
  arith,
  read_sample_lem b i h buf e (omega arith),
  raw_loop_lem b (suc i) left h buf e (omega arith),
)

-- When the file can be opened, the raw dump writes every sample of the stream, oldest first, and reads
-- nothing out of bounds.
pub dump_raw_data_lem :
    (h : Heap) (m : ℕ) (t : StreamType) (xs : List Sample)
    → Holds h m t xs
    → dump_raw_data m true h ≡ done (reverse xs) h
unfolding dump_raw_data load
dump_raw_data_lem h m t xs v = ground (
  arith,
  raw_loop_lem v.stream.buffer 0 v.stream.buffer_index h v.buf v.allocated (omega arith),
  slice-reverse v.buf v.stream.buffer_index,
)

module _ ⦃F : Double⦄ where
  -- The extremes of samples, by the first loop's body.
  abbrev pub range_from : Range → List Sample → Range
  range_from r [] = r
  range_from r (x ∷ xs) = range_from (widen r x.val) xs

  pub range_loop_lem :
      (b i left : ℕ) (r : Range) (h : Heap) (buf : ℕ → Sample)
      → h.buffers b ≡ some buf
      → i + left ≤ stream_buffer_size
      → range_loop b i left r h ≡ done (range_from r (slice buf i left)) h
  unfolding range_loop
  range_loop_lem b i zero r h buf e room = refl
  range_loop_lem b i (suc left) r h buf e room = ground (
    arith,
    read_sample_lem b i h buf e (omega arith),
    range_loop_lem b (suc i) left (widen r (Sample.val (buf i))) h buf e (omega arith),
  )

  -- The sample falls into one of n buckets.
  abbrev pub InBucket : Range → ℕ → Sample → Type 0
  InBucket r n x = (k : ℕ) × (k < n) × (bucket_index r n x.val ≡ some (pos k))

  abbrev is_index : Option ℤ → ℕ → Bool
  is_index none k = false
  is_index (some (negsuc j)) k = false
  is_index (some (pos j)) k = j == k

  -- How many of the samples fall into bucket k.
  abbrev pub tally : Range → ℕ → ℕ → List Sample → ℕ
  tally r n k [] = 0
  tally r n k (x ∷ xs) = (if is_index (bucket_index r n x.val) k then 1 else 0) + tally r n k xs

  -- Each row counts the samples of its bucket on top of what it had.
  pub record IsFilled (r : Range) (n : ℕ) (xs : List Sample) (buckets rows : List ℕ) : Type 0 where
    pub same_length : length rows ≡ length buckets
    pub counts : (k : ℕ) → get_or rows k 0 ≡ get_or buckets k 0 + tally r n k xs

  -- The extremes that the first loop finds.
  abbrev pub range_of : List Sample → Range
  range_of xs = range_from initial (reverse xs)
