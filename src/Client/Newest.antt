-- ===== src/Client/Newest.antt =====
-- What a remote client gets when it fetches a stream.
use aggregator.Base.{
  ℕ, ◌-◌, ◌*◌, ◌^◌, ◌≤◌, ◌<◌, ◌≡◌, refl, ap, Bool, true, false, List, [], ◌∷◌, reverse, some,
  length, replicate, take, length-append, length-reverse, length-take, length-replicate, min, arith,
  if◌then◌else◌, ℤ, pos, negsuc, done,
}
use aggregator.Common.{
  ReturnCode, success, err_from_mercury, StreamType, Sample, CString, zero_sample,
  stream_buffer_size,
}
use aggregator.Stream.History.{Holds}
use aggregator.Wire.{Bytes, HgProc, put_stream_fetch_in, put_stream_fetch_out}
use aggregator.Wire.Roundtrip.{decode-put_stream_fetch_out, get-put_stream_fetch_in}
use aggregator.Uthash.{Uthash}
use aggregator.Provider.{World, strcpy}
use aggregator.Provider.Validity.{IsValid}
use aggregator.Provider.Fetch.{Runtime, overwrite, calloc_samples}
use aggregator.Provider.Fetch.Newest.{newest, stream_fetch-Holds}
use aggregator.Client.{Link, clamp, fetch_answered, receive, fetch_requested, remote_stream_fetch}

-- The number of samples that a call asks for: all that a buffer can hold, when the number is negative
-- or larger.
abbrev pub wanted : ℤ → ℕ
wanted (pos n) = min n stream_buffer_size
wanted (negsuc n) = stream_buffer_size

clamp_lem : (n : ℤ) → clamp n ≡ pos (wanted n)
unfolding clamp
clamp_lem (pos n) = ground arith
clamp_lem (negsuc n) = ground arith

wanted_bound : (n : ℤ) → wanted n ≤ stream_buffer_size
wanted_bound (pos n) = omega arith
wanted_bound (negsuc n) = omega arith

allocates : (n : ℕ) → n * 24 < 2 ^ 64 → calloc_samples (pos n) ≡ some (replicate n zero_sample)
allocates n h = ground arith

-- What the provider pushes fills the client's memory.
overwrite_all : (src dest : List Sample) → length src ≡ length dest → overwrite src dest ≡ src
overwrite_all [] [] e = refl
overwrite_all [] (y ∷ dest) e = absurd (omega arith)
overwrite_all (x ∷ src) [] e = absurd (omega arith)
overwrite_all (x ∷ src) (y ∷ dest) e = ap (◌∷◌ x) (overwrite_all src dest (omega arith))

pub length-newest : (xs : List Sample) (n : ℕ) → length (newest xs n) ≡ n
length-newest xs n = omega (
  arith,
  length-append (reverse (take n xs)) (replicate (n - length xs) zero_sample),
  length-reverse (take n xs),
  length-take n xs,
  length-replicate (n - length xs) zero_sample,
)

-- The memory of the call after a transfer.
filled :
    (xs : List Sample) (n : ℕ) (ok : Bool)
    → overwrite (if ok then newest xs n else []) (replicate n zero_sample)
      ≡ (if ok then newest xs n else replicate n zero_sample)
filled xs n false = refl
filled xs n true =
    overwrite_all (newest xs n) (replicate n zero_sample)
      (omega (arith, length-newest xs n, length-replicate n zero_sample))

-- A call over a link that works.
abbrev pub working : ℕ → Link
working bulk = record {
  bulk = bulk;
  created = true;
  forwarded = true;
  input_read = true;
  output_read = true;
}

module _ ⦃H : Uthash⦄ ⦃P : HgProc⦄ where
  fetch_answered_lem :
      (w : World) (k : ℤ) (name ns : CString) (ret : ReturnCode) (b : List Sample)
      → length name < 36
      → length ns < 36
      → fetch_answered
          (record { actual_count = some k; name = some name; ns = some ns; ret = ret })
          b
          w
        ≡ done
            (record { ret = ret; num_samples = k; buf = some b; name = some name; ns = some ns })
            w
  unfolding fetch_answered strcpy
  fetch_answered_lem w k name ns ret b short short' = ground arith

  receive_lem :
      (w : World) (k c : ℕ) (name ns : CString) (ret : ReturnCode) (pushed memory : List Sample)
      (bs : Bytes)
      → length name < 36
      → length ns < 36
      → k * 24 < 2 ^ 64
      → overwrite pushed (replicate k zero_sample) ≡ memory
      → put_stream_fetch_out (pos c) name ns ret ≡ some bs
      → receive true (pos k) (record { answer = some bs; pushed = pushed }) w
        ≡ done
            (record {
              ret = ret;
              num_samples = pos c;
              buf = some memory;
              name = some name;
              ns = some ns;
            })
            w
  unfolding receive
  receive_lem w k c name ns ret pushed memory bs short short' room written sent =
      rw (receive, decode-put_stream_fetch_out (pos c) name ns ret bs sent)
        (rw (allocates k room)
          (rw written (fetch_answered_lem w (pos c) name ns ret memory short short')))

  pub fetch-newest :
      (runtime : Runtime) (w : World) (id p : ℕ) (n : ℤ) (t : StreamType) (xs : List Sample)
      (bulk : ℕ) (request bs : Bytes)
      → IsValid w
      → (s : Holds w.heap p t xs) → H.find w.provider.streams id ≡ some p
      → runtime.bulk_created ≡ true
      → put_stream_fetch_in (record { stream_id = id; count = pos (wanted n); bulk = bulk })
        ≡ some request
      → put_stream_fetch_out
          (pos (min (wanted n) (length xs)))
          s.stream.name
          s.stream.ns
          (if runtime.transferred then success else err_from_mercury)
        ≡ some bs
      → remote_stream_fetch (working bulk) runtime id n w
        ≡ done
            (record {
              ret = if runtime.transferred then success else err_from_mercury;
              num_samples = pos (min (wanted n) (length xs));
              buf = some (
                  if runtime.transferred
                  then newest xs (wanted n)
                  else replicate (wanted n) zero_sample);
              name = some s.stream.name;
              ns = some s.stream.ns;
            })
            w
  unfolding remote_stream_fetch fetch_requested
  fetch-newest runtime w id p n t xs bulk request bs v s found created asked sent =
      let k = wanted n in
      let code = if runtime.transferred then success else err_from_mercury in
      let room : k * 24 < 2 ^ 64 = omega (arith, wanted_bound n) in
      let served = stream_fetch-Holds runtime w bulk id p k t xs v.heap_ok s found room created in
      let short = v.heap_ok.named p s.stream s.loaded in
      let arrived = get-put_stream_fetch_in _ request asked in
      rw (clamp_lem n) (
        rw (asked, arrived, served)
          (rw sent (
            receive_lem w k (min k (length xs)) s.stream.name s.stream.ns code
              (if runtime.transferred then newest xs k else []) _ bs short.0 short.1 room
              (filled xs k runtime.transferred) sent)))
