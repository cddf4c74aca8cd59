-- ===== src/Provider/Validity/Effect.antt =====
-- What a recording call does to a valid heap, on every branch.
use aggregator.Base.{
  ℕ, ◌<◌, ◌≡◌, refl, ◌∙◌, List, none, some, Bool-cases, Option-cases, inl, inr, arith, Outcome,
  done, ub, length, dec_lt,
}
use aggregator.Common.{
  ReturnCode, success, err_invalid_value, StreamType, counter, timer, gauge, Sample,
  stream_buffer_size,
}
use aggregator.Double.{Double}
use aggregator.Memory.{Stream, Heap, load}
use aggregator.Stream.{stream_update, update_gauge_by_fixed_amount}
use aggregator.Stream.History.{history, Holds, Holds-length, pushed}
use aggregator.Stream.Update.{accepts, update_effect, update_full}
use aggregator.Stream.Gauge.{gauge_effect, gauge_refuses, gauge_full, adjustment}
use aggregator.Provider.Validity.{IsHeap}

-- A live stream holds the log of its buffer.
live-Holds :
    (h : Heap) (m : ℕ) (s : Stream) (v : IsHeap h) (e : h.streams m ≡ some s)
    → Holds h m s.type (history (v.live m s e).0 s.buffer_index)
live-Holds h m s v e = record {
  stream = s;
  buf = (v.live m s e).0;
  loaded = e;
  typed = refl;
  allocated = (v.live m s e).1;
  recorded = refl;
  in_bounds = (v.live m s e).2;
}

-- What a recording call can do to the heap.
pub data Effect (h : Heap) (m : ℕ) (o : Outcome Heap ReturnCode) : Type 0 where
  faults : (g : Heap) → o ≡ ub g → Effect h m o
  refuses : (code : ReturnCode) → o ≡ done code h → Effect h m o
  records :
      (s : Stream) (buf : ℕ → Sample) (x : Sample)
      → h.streams m ≡ some s
      → h.buffers s.buffer ≡ some buf
      → s.buffer_index < stream_buffer_size
      → o ≡ done success (pushed h m s buf x)
      → Effect h m o

module _ ⦃F : Double⦄ where
  pub update_dangling :
      (h : Heap) (m : ℕ) (x : Sample)
      → h.streams m ≡ none
      → stream_update m x.val x.time x.sample_id h ≡ ub h
  unfolding stream_update load
  update_dangling h m x e = ground arith

  pub gauge_dangling :
      (h : Heap) (m : ℕ) (x : Sample)
      → h.streams m ≡ none
      → update_gauge_by_fixed_amount m x.val x.time x.sample_id h ≡ ub h
  unfolding update_gauge_by_fixed_amount load
  gauge_dangling h m x e = ground arith

  module _ (h : Heap) (m : ℕ) (x : Sample) where
    update_live :
        (t : StreamType) (xs : List Sample) (v : Holds h m t xs)
        → Effect h m (stream_update m x.val x.time x.sample_id h)
    update_live t xs v = elim (dec_lt (length xs) stream_buffer_size) [
      | yes room ↦ elim (Bool-cases (accepts t xs x.val)) [
        | inl yes' ↦
            records v.stream v.buf x v.loaded v.allocated (omega (arith, Holds-length v))
              (update_effect h m t xs x v room ∙ rw yes')
        | inr no' ↦ refuses err_invalid_value (update_effect h m t xs x v room ∙ rw no')
      ]
      | no full ↦
          let at_end = update_full h m t xs x v (omega (arith, Holds-length v, v.in_bounds)) in
          elim (Bool-cases (accepts t xs x.val)) [
            | inl yes' ↦ faults h (at_end ∙ rw yes')
            | inr no' ↦ refuses err_invalid_value (at_end ∙ rw no')
          ]
    ]

    gauge_live :
        (t : StreamType) (xs : List Sample) (v : Holds h m t xs)
        → Effect h m (update_gauge_by_fixed_amount m x.val x.time x.sample_id h)
    gauge_live counter xs v = refuses err_invalid_value (gauge_refuses h m counter xs x v (λ e. cc))
    gauge_live timer xs v = refuses err_invalid_value (gauge_refuses h m timer xs x v (λ e. cc))
    gauge_live gauge xs v = elim (dec_lt (length xs) stream_buffer_size) [
      | yes room ↦
          records v.stream v.buf (adjustment xs x) v.loaded v.allocated
            (omega (arith, Holds-length v)) (gauge_effect h m xs x v room)
      | no full ↦ faults h (gauge_full h m xs x v (omega (arith, Holds-length v, v.in_bounds)))
    ]

    pub update-Effect : IsHeap h → Effect h m (stream_update m x.val x.time x.sample_id h)
    update-Effect v = elim (Option-cases (h.streams m)) [
      | inl gone ↦ faults h (update_dangling h m x gone)
      | inr (s, found) ↦ update_live s.type _ (live-Holds h m s v found)
    ]

    pub gauge-Effect :
        IsHeap h → Effect h m (update_gauge_by_fixed_amount m x.val x.time x.sample_id h)
    gauge-Effect v = elim (Option-cases (h.streams m)) [
      | inl gone ↦ faults h (gauge_dangling h m x gone)
      | inr (s, found) ↦ gauge_live s.type _ (live-Holds h m s v found)
    ]
