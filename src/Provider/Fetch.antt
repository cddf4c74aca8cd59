-- ===== src/Provider/Fetch.antt =====
-- `aggregator_stream_fetch_ult`: the handler of the RPC that fetches the newest samples of a stream.
pub mod Newest
pub mod Unanswered
use aggregator.Base.{
  ℕ, ◌+◌, ◌-◌, ◌*◌, ◌^◌, Bool, true, false, List, [], ◌∷◌, Option, none, some, length, replicate,
  ltb, leb, if◌then◌else◌, ℤ, pos, negsuc, ltb_ℤ, M, Outcome, done, ub, pure, fault, and_then,
  ◌>>=◌, ◌>>◌,
}
use mathlib.Core.Option
use aggregator.Common.{
  ReturnCode, success, err_from_mercury, err_invalid_stream, Sample, CString, zero_sample,
  stream_buffer_size,
}
use aggregator.Memory.{Stream, Heap, load, or_ub}
use aggregator.Stream.History.{slice}
use aggregator.Wire.{Bytes, HgProc, StreamFetchIn, StreamFetchOut, encode_stream_fetch_out}
use aggregator.Uthash.{Uthash}
use aggregator.Provider.{World, on_heap, find_stream, strcpy}

-- What the runtime answers in one run of the handler.
pub record Runtime : Type 0 where
  pub bulk_created : Bool
  pub transferred : Bool

-- What the caller gets: the encoded answer, and the samples pushed into its memory.
pub record Fetched : Type 0 where
  pub answer : Option Bytes
  pub pushed : List Sample

-- `calloc(count, sizeof(aggregator_stream_sample))`, of 24 bytes each. A count that is too large,
-- as a negative one is when it becomes a `size_t`, has the result NULL.
abbrev pub calloc_samples : ℤ → Option (List Sample)
calloc_samples (pos n) = if ltb (n * 24) (2 ^ 64) then some (replicate n zero_sample) else none
calloc_samples (negsuc n) = none

-- `memcpy` from a part of a sample buffer; the number of bytes is a `size_t`.
unfoldable pub read_slice : ℕ → ℕ → ℕ → M Heap (List Sample)
read_slice b start n h =
    if leb (start + n) stream_buffer_size
    then or_ub (Option.map (λ buf. slice buf start n) (h.buffers b)) h
    else ub h

abbrev pub overwrite : List Sample → List Sample → List Sample
overwrite [] dest = dest
overwrite (x ∷ src) [] = []
overwrite (x ∷ src) (y ∷ dest) = x ∷ overwrite src dest

-- `memcpy` to the samples that were allocated.
unfoldable pub copy_in : {S : Type 0} → List Sample → Option (List Sample) → M S (List Sample)
copy_in src none = fault
copy_in src (some dest) =
    if ltb (length dest) (length src) then fault else pure (overwrite src dest)

-- The samples copied out of a stream for a request of `count`, and their number.
unfoldable pub copy_out : Stream → ℤ → Option (List Sample) → M Heap (ℤ × List Sample)
copy_out s count b =
    if ltb_ℤ (pos s.buffer_index) count
    then (do
      src ← read_slice s.buffer 0 s.buffer_index
      dest ← copy_in src b
      pure (pos s.buffer_index, dest))
    else elim count [
      | negsuc n ↦ fault
      | pos n ↦ (do
        src ← read_slice s.buffer (s.buffer_index - n) n
        dest ← copy_in src b
        pure (pos n, dest))
    ]

module _ ⦃P : HgProc⦄ where
  -- The code at the label `finish`: `b` is freed, the answer is sent, and the bulk handle is freed.
  -- What was not set by then is read all the same.
  unfoldable pub finish : {S : Type 0} → Bool → Bool → StreamFetchOut → List Sample → M S Fetched
  finish false bulk_set out samples = fault
  finish true bulk_set out samples = do
    answer ← encode_stream_fetch_out out
    if bulk_set then pure (record { answer = answer; pushed = samples }) else fault

  -- The answer when nothing but the return code has been set.
  abbrev pub failed : ReturnCode → StreamFetchOut
  failed ret = record { actual_count = none; name = none; ns = none; ret = ret }

  abbrev pub answered : ℤ → CString → CString → ReturnCode → StreamFetchOut
  answered n name ns ret = record {
    actual_count = some n;
    name = some name;
    ns = some ns;
    ret = ret;
  }

  module _ ⦃H : Uthash⦄ where
    -- The part of the handler that has a stream.
    unfoldable pub fetch_from : Runtime → ℕ → ℤ → Option (List Sample) → M World Fetched
    fetch_from runtime p count b = do
      s ← on_heap (load p)
      name ← on_heap (strcpy 36 (some s.name))
      ns ← on_heap (strcpy 36 (some s.ns))
      copied ← on_heap (copy_out s count b)
      (if runtime.transferred
          then finish true true (answered copied.0 name ns success) copied.1
          else finish true true (answered copied.0 name ns err_from_mercury) [])

    -- The input is `none` when it could not be deserialized.
    unfoldable pub stream_fetch_ult : Runtime → Option StreamFetchIn → M World Fetched
    stream_fetch_ult runtime none = finish false false (failed err_from_mercury) []
    stream_fetch_ult runtime (some request) =
        let b = calloc_samples request.count in
        if runtime.bulk_created
        then (do
          stream ← find_stream request.stream_id
          elim stream [
            | none ↦ finish true true (failed err_invalid_stream) []
            | some p ↦ fetch_from runtime p request.count b
          ])
        else finish true false (failed err_from_mercury) []
