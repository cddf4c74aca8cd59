-- ===== src/Stream/Calls.antt =====
-- Any sequence of recording calls on one stream, and what it keeps.
use aggregator.Base.{
  ℕ, ◌+◌, ◌≤◌, ◌<◌, ◌≡◌, refl, List, [], ◌∷◌, false, arith, length, done, pure, M, ◌>>=◌, All,
}
use aggregator.Common.{ReturnCode, StreamType, counter, timer, gauge, Sample, stream_buffer_size}
use aggregator.Double.{Double}
use aggregator.Memory.{Heap}
use aggregator.Stream.{stream_update, update_gauge_by_fixed_amount}
use aggregator.Stream.History.{Holds}
use aggregator.Stream.Update.{accepts, logged, update-refines}
use aggregator.Stream.Gauge.{gauge_logged, gauge-refines}

-- A call with its value or amount, its time and the thread that makes it.
pub data Call : Type 0 where
  updates : Sample → Call
  adjusts : Sample → Call

module _ ⦃F : Double⦄ where
  pub call : ℕ → Call → M Heap ReturnCode
  call m (updates x) = stream_update m x.val x.time x.sample_id
  call m (adjusts x) = update_gauge_by_fixed_amount m x.val x.time x.sample_id

  -- One after the other; the return codes are not looked at.
  pub calls : ℕ → List Call → M Heap (Unit {0})
  calls m [] = pure tt
  calls m (c ∷ cs) = do _ ← call m c; calls m cs

  -- No sample is below the one before it.
  abbrev pub IsMonotone : List Sample → Type 0
  IsMonotone [] = Unit {0}
  IsMonotone (y ∷ []) = Unit {0}
  IsMonotone (y ∷ x ∷ xs) = (F.lt y.val x.val ≡ false) × IsMonotone (x ∷ xs)

  -- What the type of a stream promises about its samples.
  abbrev pub Fits : StreamType → List Sample → Type 0
  Fits counter xs = IsMonotone xs
  Fits timer xs = All (λ (x : Sample). F.lt x.val (F.of_ℕ 0) ≡ false) xs
  Fits gauge xs = Unit {0}

  logged-Fits :
      (t : StreamType) (xs : List Sample) (x : Sample) → Fits t xs → Fits t (logged t xs x).1
  unfolding accepts
  logged-Fits counter [] x f = tt
  logged-Fits counter (y ∷ xs) x f = ground arith
  logged-Fits timer xs x f = ground arith
  logged-Fits gauge xs x f = tt

  gauge_logged-Fits :
      (t : StreamType) (xs : List Sample) (x : Sample) → Fits t xs → Fits t (gauge_logged t xs x).1
  gauge_logged-Fits counter xs x f = f
  gauge_logged-Fits timer xs x f = f
  gauge_logged-Fits gauge xs x f = tt

  -- The log after a call.
  abbrev pub after : StreamType → List Sample → Call → List Sample
  after t xs (updates x) = (logged t xs x).1
  after t xs (adjusts x) = (gauge_logged t xs x).1

  abbrev pub after_all : StreamType → List Sample → List Call → List Sample
  after_all t xs [] = xs
  after_all t xs (c ∷ cs) = after_all t (after t xs c) cs

  length-after :
      (t : StreamType) (xs : List Sample) (c : Call) → length (after t xs c) ≤ length xs + 1
  length-after t xs (updates x) = ground arith
  length-after counter xs (adjusts x) = omega arith
  length-after timer xs (adjusts x) = omega arith
  length-after gauge xs (adjusts x) = omega arith

  call-Holds :
      (h : Heap) (m : ℕ) (t : StreamType) (xs : List Sample) (c : Call)
      → Holds h m t xs
      → length xs < stream_buffer_size
      → (code : ReturnCode) × (h' : Heap) × (call m c h ≡ done code h')
        × Holds h' m t (after t xs c)
  unfolding call
  call-Holds h m t xs (updates x) v room =
      let r = update-refines h m t xs x v room in ((logged t xs x).0, r.0, r.1, r.2)
  call-Holds h m t xs (adjusts x) v room =
      let r = gauge-refines h m t xs x v room in ((gauge_logged t xs x).0, r.0, r.1, r.2)

  after-Fits : (t : StreamType) (xs : List Sample) (c : Call) → Fits t xs → Fits t (after t xs c)
  after-Fits t xs (updates x) f = logged-Fits t xs x f
  after-Fits t xs (adjusts x) f = gauge_logged-Fits t xs x f

  after_all-Fits :
      (t : StreamType) (cs : List Call) (xs : List Sample) → Fits t xs → Fits t (after_all t xs cs)
  after_all-Fits t [] xs f = f
  after_all-Fits t (c ∷ cs) xs f = after_all-Fits t cs (after t xs c) (after-Fits t xs c f)

  calls-Holds :
      (t : StreamType) (m : ℕ) (cs : List Call) (h : Heap) (xs : List Sample)
      → Holds h m t xs
      → length xs + length cs ≤ stream_buffer_size
      → (h' : Heap) × (calls m cs h ≡ done tt h') × Holds h' m t (after_all t xs cs)
  unfolding calls
  calls-Holds t m [] h xs v room = (h, refl, v)
  calls-Holds t m (c ∷ cs) h xs v room =
      let r = call-Holds h m t xs c v (omega arith) in
      let q = calls-Holds t m cs r.1 (after t xs c) r.3 (omega (arith, length-after t xs c)) in
      (q.0, rw r.2 (q.1), q.2)

  -- Any sequence of calls that fits in the buffer ends without a fault. It leaves the log of the calls that
  -- were accepted, and a log that fits the stream's type still does: a counter's samples never
  -- fall, and a timer's are never below zero.
  pub calls_keep_type :
      (t : StreamType) (m : ℕ) (cs : List Call) (h : Heap) (xs : List Sample)
      → Holds h m t xs
      → Fits t xs
      → length xs + length cs ≤ stream_buffer_size
      → (h' : Heap) × (calls m cs h ≡ done tt h')
        × Holds h' m t (after_all t xs cs)
        × Fits t (after_all t xs cs)
  calls_keep_type t m cs h xs v f room =
      let r = calls-Holds t m cs h xs v room in (r.0, r.1, r.2, after_all-Fits t cs xs f)
