-- ===== src/Stream/Histogram/Overflow.antt =====
-- The bucket index of the largest sample of a histogram.
use aggregator.Base.{
  ℕ, zero, suc, ◌+◌, ◌≤◌, ◌≡◌, refl, ap, ◌∙◌, ◌⊎◌, inl, inr, Bool, true, List, [], ◌∷◌, reverse,
  Option, none, some, ℤ, pos, negsuc, length, get_elem?, set, replicate, arith, ub, Any, Any-map,
  length-set, length-replicate, Option-cases,
}
use aggregator.Common.{StreamType, Sample, stream_buffer_size}
use aggregator.Double.{Double}
use aggregator.Memory.{Heap, load}
use aggregator.Stream.History.{slice, Holds}
use aggregator.Stream.Slices.{slice-reverse, read_sample_lem}
use aggregator.Stream.Histogram.{
  Range, initial, widen, bucket_index, increment, bucket_loop, dump_histogram,
}
use aggregator.Stream.Histogram.Buckets.{range_from, range_of, range_loop_lem}

get_elem?_past : (xs : List ℕ) (k : ℕ) → length xs ≤ k → get_elem? xs k ≡ none
get_elem?_past [] k h = refl
get_elem?_past (x ∷ xs) zero h = absurd (omega arith)
get_elem?_past (x ∷ xs) (suc k) h = get_elem?_past xs k (omega arith)

increment_past :
    (buckets : List ℕ) (n : ℕ) → length buckets ≡ n → increment (some (pos n)) buckets ≡ none
unfolding increment
increment_past buckets n h = rw (get_elem?_past buckets n (omega arith), increment)

length-increment :
    (j : Option ℤ) (buckets rows : List ℕ)
    → increment j buckets ≡ some rows
    → length rows ≡ length buckets
unfolding increment
length-increment none buckets rows e = cc
length-increment (some (negsuc k)) buckets rows e = cc
length-increment (some (pos k)) buckets rows e = elim (Option-cases (get_elem? buckets k)) [
  | inl out ↦ cc (rw (out, increment) at e)
  | inr (n, found) ↦
      let now : some (set buckets k (suc n)) ≡ some rows = rw (found, increment) at e in
      let row : set buckets k (suc n) ≡ rows = cc in rw (← row) (length-set buckets k (suc n))
]

module _ ⦃F : Double⦄ where
  bucket_loop_past :
      (b i left : ℕ) (r : Range) (n : ℕ) (buckets : List ℕ) (h : Heap) (buf : ℕ → Sample)
      → h.buffers b ≡ some buf
      → i + left ≤ stream_buffer_size
      → length buckets ≡ n
      → Any (λ (x : Sample). bucket_index r n x.val ≡ some (pos n)) (slice buf i left)
      → bucket_loop b i left r n buckets h ≡ ub h
  unfolding bucket_loop
  bucket_loop_past b i zero r n buckets h buf e room len past = absurd past
  bucket_loop_past b i (suc left) r n buckets h buf e room len past =
      elim (Option-cases (increment (bucket_index r n (Sample.val (buf i))) buckets)) [
        | inl out ↦ ground (arith, read_sample_lem b i h buf e (omega arith))
        | inr (rows, in') ↦ elim past [
          | inl p ↦ cc (increment_past buckets n len)
          | inr q ↦ ground (
            arith,
            read_sample_lem b i h buf e (omega arith),
            bucket_loop_past b (suc i) left r n rows h buf e (omega arith)
                (length-increment _ buckets rows in' ∙ len) q,
          )
        ]
      ]

  max_source :
      (xs : List Sample) (r : Range)
      → ((range_from r xs).max ≡ r.max) ⊎ Any (λ (x : Sample). x.val ≡ (range_from r xs).max) xs
  unfolding widen
  max_source [] r = inl refl
  max_source (x ∷ xs) r = ground (arith, max_source xs (widen r x.val))

  -- A sample above the starting value is the maximum, or another one is.
  max_attained :
      (xs : List Sample) (r : Range)
      → Any (λ (x : Sample). F.lt r.max x.val ≡ true) xs
      → Any (λ (x : Sample). x.val ≡ (range_from r xs).max) xs
  unfolding widen
  max_attained [] r above = above
  max_attained (x ∷ xs) r above =
      ground (arith, max_source xs (widen r x.val), max_attained xs (widen r x.val))

  -- Whenever a stream holds a value above zero, its histogram writes past the end of the array of
  -- buckets: the largest value has the index `num_buckets`. The hypotheses are those of the arithmetic: the span
  -- of the values divided by itself is 1, 1 times the number of buckets is that number, and it converts
  -- to `int` exactly.
  pub histogram_overflow :
      (h : Heap) (m : ℕ) (t : StreamType) (xs : List Sample) (n : ℕ) (opened : Bool)
      → Holds h m t xs
      → Any (λ (x : Sample). F.lt (F.of_ℕ 0) x.val ≡ true) (reverse xs)
      → (span : let spread = F.sub (range_of xs).max (range_of xs).min in
          F.div spread spread ≡ F.of_ℕ 1)
      → (scale : F.mul (F.of_ℕ 1) (F.of_ℕ n) ≡ F.of_ℕ n)
      → (exact : F.to_int (F.of_ℕ n) ≡ some (pos n)) → dump_histogram m opened n h ≡ ub h
  unfolding dump_histogram load bucket_index
  histogram_overflow h m t xs n opened v above span scale exact =
      let samples : slice v.buf 0 v.stream.buffer_index ≡ reverse xs =
        slice-reverse v.buf v.stream.buffer_index ∙ ap reverse v.recorded in
      let r = range_of xs in
      let past =
        bucket_loop_past v.stream.buffer 0 v.stream.buffer_index r n (replicate n 0) h v.buf
          v.allocated (omega arith) (length-replicate n 0)
          (rw samples (Any-map largest (reverse xs) (max_attained (reverse xs) initial above))) in
      ground (
        arith,
        range_loop_lem v.stream.buffer 0 v.stream.buffer_index initial h v.buf v.allocated
            (omega arith),
        samples,
        past,
      )
    where
      -- The largest value has the index n.
      largest :
          (x : Sample)
          → x.val ≡ (range_of xs).max
          → bucket_index (range_of xs) n x.val ≡ some (pos n)
      largest x e = cc (e, span, scale, exact)
