-- ===== src/Stream/Gauge.antt =====
-- `aggregator_stream_update_gauge_by_fixed_amount` against the same log.
use aggregator.Base.{ℕ, ◌<◌, ◌≡◌, ◌≢◌, refl, List, [], ◌∷◌, arith, length, done, ub}
use aggregator.Common.{
  ReturnCode, success, err_invalid_value, StreamType, counter, timer, gauge, Sample,
  stream_buffer_size,
}
use aggregator.Double.{Double}
use aggregator.Memory.{Heap, load}
use aggregator.Stream.{gauge_value, update_gauge_by_fixed_amount}
use aggregator.Stream.History.{
  Holds, Holds-length, pushed, pushed-Holds, push_sample_lem, push_sample_full, history-empty,
  history-newest,
}

module _ ⦃F : Double⦄ where
  -- The first sample is 1, whatever the amount; each later one adds the amount to the last.
  abbrev pub adjusted : List Sample → ℕ → ℕ
  adjusted [] diff = F.of_ℕ 1
  adjusted (last ∷ xs) diff = F.add last.val diff

  abbrev pub adjustment : List Sample → Sample → Sample
  adjustment xs x = record { time = x.time; val = adjusted xs x.val; sample_id = x.sample_id }

  abbrev pub gauge_logged : StreamType → List Sample → Sample → ReturnCode × List Sample
  gauge_logged counter xs x = (err_invalid_value, xs)
  gauge_logged timer xs x = (err_invalid_value, xs)
  gauge_logged gauge xs x = (success, adjustment xs x ∷ xs)

  gauge_value_lem :
      {h : Heap} {m : ℕ} {t : StreamType} (xs : List Sample) (diff : ℕ) (v : Holds h m t xs)
      → gauge_value v.stream diff h ≡ done (adjusted xs diff) h
  unfolding gauge_value
  gauge_value_lem [] diff v = ground (arith, history-empty v.buf v.stream.buffer_index)
  gauge_value_lem (x ∷ xs) diff v = ground (arith, history-newest v.buf v.stream.buffer_index x xs)

  -- The heap after an adjustment of a gauge whose buffer has room.
  pub gauge_effect :
      (h : Heap) (m : ℕ) (xs : List Sample) (x : Sample) (v : Holds h m gauge xs)
      → length xs < stream_buffer_size
      → update_gauge_by_fixed_amount m x.val x.time x.sample_id h
        ≡ done success (pushed h m v.stream v.buf (adjustment xs x))
  unfolding update_gauge_by_fixed_amount load
  gauge_effect h m xs x v room = ground (
    arith,
    gauge_value_lem xs x.val v,
    Holds-length v,
    push_sample_lem h m v.stream v.buf (adjustment xs x) v.loaded v.allocated,
  )

  -- Nor is the index checked here.
  pub gauge_full :
      (h : Heap) (m : ℕ) (xs : List Sample) (x : Sample)
      → Holds h m gauge xs
      → length xs ≡ stream_buffer_size
      → update_gauge_by_fixed_amount m x.val x.time x.sample_id h ≡ ub h
  unfolding update_gauge_by_fixed_amount load
  gauge_full h m xs x v full = ground (
    arith,
    gauge_value_lem xs x.val v,
    Holds-length v,
    push_sample_full h m v.stream v.buf (adjustment xs x) v.loaded v.allocated,
  )

  -- Counters and timers are left alone.
  pub gauge_refuses :
      (h : Heap) (m : ℕ) (t : StreamType) (xs : List Sample) (x : Sample)
      → Holds h m t xs
      → t ≢ gauge
      → update_gauge_by_fixed_amount m x.val x.time x.sample_id h ≡ done err_invalid_value h
  unfolding update_gauge_by_fixed_amount load
  gauge_refuses h m counter xs x v n = ground arith
  gauge_refuses h m timer xs x v n = ground arith
  gauge_refuses h m gauge xs x v n = absurd (n refl)

  -- On a stream whose buffer has room, a gauge gets a sample that adds the amount to its last one (1
  -- if it has none, whatever the amount), and a counter or a timer refuses and keeps its samples.
  pub gauge-refines :
      (h : Heap) (m : ℕ) (t : StreamType) (xs : List Sample) (x : Sample)
      → Holds h m t xs
      → length xs < stream_buffer_size
      → (h' : Heap) × (update_gauge_by_fixed_amount m x.val x.time x.sample_id h
          ≡ done (gauge_logged t xs x).0 h')
        × Holds h' m t (gauge_logged t xs x).1
  gauge-refines h m counter xs x v room = (h, gauge_refuses h m counter xs x v (λ e. cc), v)
  gauge-refines h m timer xs x v room = (h, gauge_refuses h m timer xs x v (λ e. cc), v)
  gauge-refines h m gauge xs x v room = (
    pushed h m v.stream v.buf (adjustment xs x),
    gauge_effect h m xs x v room,
    pushed-Holds h m gauge xs _ v (omega (arith, Holds-length v)),
  )
