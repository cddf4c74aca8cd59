-- ===== src/Provider/Fetch/Newest.antt =====
-- What the handler of a fetch answers.
use aggregator.Base.{
  ℕ, zero, suc, ◌+◌, ◌-◌, ◌*◌, ◌^◌, ◌≤◌, ◌<◌, ◌≡◌, refl, ap, ◌∙◌, true, List, [], ◌∷◌, ◌++◌,
  reverse, some, arith, dec_lt, length, replicate, take, length-replicate, take-over, min,
  if◌then◌else◌, ℤ, pos, Outcome, done, ◌>>=◌,
}
use aggregator.Common.{
  success, err_from_mercury, StreamType, Sample, zero_sample, stream_buffer_size,
}
use aggregator.Memory.{Stream, Heap, load}
use aggregator.Stream.History.{history, slice, length-history, Holds, Holds-length}
use aggregator.Stream.Slices.{slice-take, slice-reverse}
use aggregator.Wire.{HgProc, encode_stream_fetch_out, put_stream_fetch_out}
use aggregator.Uthash.{Uthash}
use aggregator.Provider.{World, find_stream, strcpy}
use aggregator.Provider.Validity.{IsHeap}
use aggregator.Provider.Fetch.{
  Runtime, calloc_samples, read_slice, overwrite, copy_in, copy_out, finish, fetch_from,
  stream_fetch_ult,
}

length-slice : (buf : ℕ → Sample) (n i : ℕ) → length (slice buf i n) ≡ n
length-slice buf zero i = refl
length-slice buf (suc n) i = ap suc (length-slice buf n (suc i))

overwrite-replicate :
    (src : List Sample) (n : ℕ)
    → length src ≤ n
    → overwrite src (replicate n zero_sample) ≡ src ++ replicate (n - length src) zero_sample
overwrite-replicate [] n h = ground arith
overwrite-replicate (x ∷ src) zero h = absurd (omega arith)
overwrite-replicate (x ∷ src) (suc n) h = ground (arith, overwrite-replicate src n (omega arith))

-- What a request for n samples copies: the newest ones that there are, the oldest of them first, and
-- zeros behind them.
abbrev pub newest : List Sample → ℕ → List Sample
newest xs n = reverse (take n xs) ++ replicate (n - length xs) zero_sample

copy_slice :
    (h : Heap) (s : Stream) (buf : ℕ → Sample) (start n c : ℕ)
    → h.buffers s.buffer ≡ some buf
    → start + n ≤ stream_buffer_size
    → n ≤ c
    → (read_slice s.buffer start n >>= λ src. copy_in src (some (replicate c zero_sample))) h
      ≡ done (slice buf start n ++ replicate (c - n) zero_sample) h
unfolding read_slice copy_in
copy_slice h s buf start n c allocated bounds le = ground (
  arith,
  overwrite-replicate (slice buf start n) c,
  length-slice buf n start,
  length-replicate c zero_sample,
)

module _ (h : Heap) (s : Stream) (buf : ℕ → Sample) (c : ℕ)
    (allocated : h.buffers s.buffer ≡ some buf) (bounds : s.buffer_index ≤ stream_buffer_size)
    (small : c * 24 < 2 ^ 64) where
  copy_all :
      s.buffer_index < c
      → copy_out s (pos c) (calloc_samples (pos c)) h
        ≡ done
            (
              pos s.buffer_index,
              slice buf 0 s.buffer_index ++ replicate (c - s.buffer_index) zero_sample,
            )
            h
  unfolding copy_out
  copy_all lt = ground (arith, copy_slice h s buf 0 s.buffer_index c allocated)

  copy_part :
      c ≤ s.buffer_index
      → copy_out s (pos c) (calloc_samples (pos c)) h
        ≡ done (pos c, slice buf (s.buffer_index - c) c ++ replicate (c - c) zero_sample) h
  unfolding copy_out
  copy_part le = ground (arith, copy_slice h s buf (s.buffer_index - c) c c allocated)

  done_newest :
      {n : ℕ} {xs : List Sample}
      → n ≡ min c s.buffer_index
      → xs ≡ newest (history buf s.buffer_index) c
      → ◌≡◌ {A = Outcome Heap (ℤ × List Sample)}
          (done (pos n, xs) h)
          (done (pos (min c s.buffer_index), newest (history buf s.buffer_index) c) h)
  done_newest e f = λ i. done (pos (e i), f i) h

  copy_newest :
      copy_out s (pos c) (calloc_samples (pos c)) h
      ≡ done (pos (min c s.buffer_index), newest (history buf s.buffer_index) c) h
  copy_newest = elim (dec_lt s.buffer_index c) [
    | yes lt ↦
        copy_all lt
        ∙ done_newest (omega arith) (
            ground (
              arith,
              slice-reverse buf s.buffer_index,
              take-over c (history buf s.buffer_index),
              length-history buf s.buffer_index,
            ))
    | no ge ↦
        copy_part (omega arith)
        ∙ done_newest (omega arith)
            (ground (arith, slice-take buf s.buffer_index c, length-history buf s.buffer_index))
  ]

module _ ⦃H : Uthash⦄ ⦃P : HgProc⦄ where
  stream_fetch_lem :
      (runtime : Runtime) (w : World) (bulk id p n : ℕ) (s : Stream) (buf : ℕ → Sample)
      → IsHeap w.heap
      → w.heap.streams p ≡ some s
      → w.heap.buffers s.buffer ≡ some buf
      → s.buffer_index ≤ stream_buffer_size
      → H.find w.provider.streams id ≡ some p
      → n * 24 < 2 ^ 64
      → runtime.bulk_created ≡ true
      → stream_fetch_ult runtime (some (record { stream_id = id; count = pos n; bulk = bulk })) w
        ≡ done
            (record {
              answer =
                  put_stream_fetch_out
                    (pos (min n s.buffer_index))
                    s.name
                    s.ns
                    (if runtime.transferred then success else err_from_mercury);
              pushed = if runtime.transferred then newest (history buf s.buffer_index) n else [];
            })
            w
  unfolding stream_fetch_ult fetch_from finish encode_stream_fetch_out find_stream strcpy load
  stream_fetch_lem runtime w bulk id p n s buf v loaded allocated bounds found small created =
      let copied = copy_newest w.heap s buf n allocated bounds small in
      let names = v.named p s loaded in ground (arith, copied, names)

  -- A request for n samples, of a size below 2^64, of a stream of the table is answered, where the bulk
  -- region can be made, with the stream's name and namespace and the number of samples that there are
  -- of these n, and pushes the newest of them, the oldest first, and zeros behind them; nothing
  -- changes. When the transfer fails the answer's return code says so.
  pub stream_fetch-Holds :
      (runtime : Runtime) (w : World) (bulk id p n : ℕ) (t : StreamType) (xs : List Sample)
      → IsHeap w.heap
      → (s : Holds w.heap p t xs) → H.find w.provider.streams id ≡ some p
      → n * 24 < 2 ^ 64
      → runtime.bulk_created ≡ true
      → stream_fetch_ult runtime (some (record { stream_id = id; count = pos n; bulk = bulk })) w
        ≡ done
            (record {
              answer =
                  put_stream_fetch_out
                    (pos (min n (length xs)))
                    s.stream.name
                    s.stream.ns
                    (if runtime.transferred then success else err_from_mercury);
              pushed = if runtime.transferred then newest xs n else [];
            })
            w
  stream_fetch-Holds runtime w bulk id p n t xs v s found small created =
      stream_fetch_lem runtime w bulk id p n s.stream s.buf v s.loaded s.allocated s.in_bounds found
        small created
      ∙ (λ i.
          done
            (record {
              answer =
                  put_stream_fetch_out (pos (min n (Holds-length s i))) s.stream.name s.stream.ns
                    (if runtime.transferred then success else err_from_mercury);
              pushed = if runtime.transferred then newest (s.recorded i) n else [];
            })
            w)
