-- ===== src/Stream/Update.antt =====
-- Recording a sample against an abstract log of the samples accepted so far.
use aggregator.Base.{
  ℕ, ◌<◌, ◌≡◌, refl, ◌∙◌, inl, inr, List, [], ◌∷◌, Bool, true, not, arith, length, if◌then◌else◌,
  done, ub, Bool-cases,
}
use aggregator.Common.{
  ReturnCode, success, err_invalid_value, StreamType, counter, timer, gauge, Sample,
  stream_buffer_size,
}
use aggregator.Double.{Double}
use aggregator.Memory.{Heap, load}
use aggregator.Stream.{is_refused, stream_update}
use aggregator.Stream.History.{
  Holds, pushed, pushed-Holds, push_sample_lem, push_sample_full, Holds-length, history-empty,
  history-newest,
}

module _ ⦃F : Double⦄ where
  -- A counter takes no value below its last one, a timer none below zero, and a gauge takes all.
  unfoldable pub accepts : StreamType → List Sample → ℕ → Bool
  accepts counter [] val = true
  accepts counter (last ∷ xs) val = not (F.lt val last.val)
  accepts timer xs val = not (F.lt val (F.of_ℕ 0))
  accepts gauge xs val = true

  is_refused_lem :
      {h : Heap} {m : ℕ} (t : StreamType) (xs : List Sample) (val : ℕ) (v : Holds h m t xs)
      → is_refused t v.stream val h ≡ done (not (accepts t xs val)) h
  unfolding is_refused accepts
  is_refused_lem counter [] val v = ground (arith, history-empty v.buf v.stream.buffer_index)
  is_refused_lem counter (x ∷ xs) val v =
      ground (arith, history-newest v.buf v.stream.buffer_index x xs)
  is_refused_lem timer xs val v = ground arith
  is_refused_lem gauge xs val v = refl

  -- What an update should do to the log: its return code, and the log after it.
  abbrev pub logged : StreamType → List Sample → Sample → ReturnCode × List Sample
  logged t xs x = if accepts t xs x.val then (success, x ∷ xs) else (err_invalid_value, xs)

  -- The heap after an update of a stream whose buffer has room.
  pub update_effect :
      (h : Heap) (m : ℕ) (t : StreamType) (xs : List Sample) (x : Sample) (v : Holds h m t xs)
      → length xs < stream_buffer_size
      → stream_update m x.val x.time x.sample_id h ≡ (
          if accepts t xs x.val
          then done success (pushed h m v.stream v.buf x)
          else done err_invalid_value h)
  unfolding stream_update load
  update_effect h m t xs x v room = elim (Bool-cases (accepts t xs x.val)) [
    | inl yes' ↦ rw yes' (
        ground (
          arith,
          is_refused_lem t xs x.val v,
          Holds-length v,
          push_sample_lem h m v.stream v.buf x v.loaded v.allocated,
        ))
    | inr no' ↦ rw no' (ground (arith, is_refused_lem t xs x.val v))
  ]

  -- An update of a stream whose buffer has room never faults: it returns the code that the log calls
  -- for and leaves the log that it calls for, on every branch.
  pub update-refines :
      (h : Heap) (m : ℕ) (t : StreamType) (xs : List Sample) (x : Sample)
      → Holds h m t xs
      → length xs < stream_buffer_size
      → (h' : Heap) × (stream_update m x.val x.time x.sample_id h ≡ done (logged t xs x).0 h')
        × Holds h' m t (logged t xs x).1
  update-refines h m t xs x v room = elim (Bool-cases (accepts t xs x.val)) [
    | inl yes' ↦ (
      pushed h m v.stream v.buf x,
      update_effect h m t xs x v room ∙ rw yes',
      rw yes' (pushed-Holds h m t xs x v (omega (arith, Holds-length v))),
    )
    | inr no' ↦ (h, update_effect h m t xs x v room ∙ rw no', rw no' v)
  ]

  -- There is no check of the index: once the buffer is full, an update that is not refused writes
  -- past its end. A refused one still returns its code.
  pub update_full :
      (h : Heap) (m : ℕ) (t : StreamType) (xs : List Sample) (x : Sample)
      → Holds h m t xs
      → length xs ≡ stream_buffer_size
      → stream_update m x.val x.time x.sample_id h
        ≡ (if accepts t xs x.val then ub h else done err_invalid_value h)
  unfolding stream_update load
  update_full h m t xs x v full = elim (Bool-cases (accepts t xs x.val)) [
    | inl yes' ↦ rw yes' (
        ground (
          arith,
          is_refused_lem t xs x.val v,
          Holds-length v,
          push_sample_full h m v.stream v.buf x v.loaded v.allocated,
        ))
    | inr no' ↦ rw no' (ground (arith, is_refused_lem t xs x.val v))
  ]
