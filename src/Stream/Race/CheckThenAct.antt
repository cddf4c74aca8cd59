-- ===== src/Stream/Race/CheckThenAct.antt =====
-- Two calls on a counter whose checks both stand before the lock.
use aggregator.Base.{ℕ, ◌+◌, ◌<◌, ◌≡◌, ◌≢◌, refl, none, some, true, false, u32, arith, sym, ◌∙◌}
use aggregator.Common.{counter, Sample, stream_buffer_size}
use aggregator.Double.{Double}
use aggregator.Memory.{update}
use aggregator.Stream.Race.{
  checking, locking, writing_val, writing_time, writing_id, bumping, unlocking, succeeded, System,
  goto, set_entry, refuses, accept, lock, write_val, write_time, write_id, bump, unlock, Reach,
  here, then_step, Reach-trans,
}

-- The three writes together store the sample.
entry_written :
    (f : ℕ → Sample) (n : ℕ) (x : Sample) (k : ℕ)
    → (let f₁ = update f n (record (f n) { val = x.val }) in
        let f₂ = update f₁ n (record (f₁ n) { time = x.time }) in
        update f₂ n (record (f₂ n) { sample_id = x.sample_id }) k)
      ≡ update f n x k
entry_written f n x k = ground arith

module _ ⦃F : Double⦄ where
  -- `then_state` is reached from `s` by thread `i`, which has recorded `x`.
  pub record Recorded (s : System) (i : ℕ) (x : Sample) : Type 0 where
    pub then_state : System
    pub reached : Reach s then_state
    pub free : then_state.owner ≡ none
    pub counted : then_state.index ≡ s.index + 1
    pub stored : (k : ℕ) → then_state.buf k ≡ update s.buf s.index x k
    pub returned : then_state.threads i ≡ succeeded x
    pub others : (j : ℕ) → i ≢ j → then_state.threads j ≡ s.threads j

  -- A thread that has passed its check finishes in six steps, if nobody holds the mutex.
  pub completes :
      (s : System) (i : ℕ) (x : Sample)
      → s.threads i ≡ locking x
      → s.owner ≡ none
      → s.index < stream_buffer_size
      → Recorded s i x
  completes s i x e free room = record {
    then_state = goto (record bumped { owner = none }) i (succeeded x);
    reached =
        then_step
          (then_step
            (then_step
              (then_step
                (then_step (then_step here (lock i x e free)) (write_val i x (ground arith) room))
                (write_time i x (ground arith) room))
              (write_id i x (ground arith) room))
            (bump i x (ground arith)))
          (unlock i x (ground arith));
    free = refl;
    counted = omega arith;
    stored = entry_written s.buf s.index x;
    returned = ground arith;
    others = λ j n. ground arith;
  }
    where
      locked : System
      locked = goto (record s { owner = some i }) i (writing_val x)

      with_val : System
      with_val = goto (set_entry locked (record (s.buf s.index) { val = x.val })) i (writing_time x)

      with_time : System
      with_time =
          goto (set_entry with_val (record (with_val.buf s.index) { time = x.time })) i
            (writing_id x)

      written : System
      written =
          goto (set_entry with_time (record (with_time.buf s.index) { sample_id = x.sample_id })) i
            (bumping x)

      bumped : System
      bumped = goto (record written { index = u32 (s.index + 1) }) i (unlocking x)

  -- Both samples, the later call's first.
  abbrev pub InTurn : System → ℕ → ℕ → Sample → Sample → System → Type 0
  InTurn s i j x y u =
      Reach s u
      × (u.threads i ≡ succeeded x)
      × (u.threads j ≡ succeeded y)
      × (u.index ≡ s.index + 2)
      × (u.buf s.index ≡ y)
      × (u.buf (s.index + 1) ≡ x)

  one_then_other :
      (p : System) (i j : ℕ) (x y : Sample)
      → i ≢ j
      → (a : Recorded p j y) (b : Recorded a.then_state i x) → InTurn p i j x y b.then_state
  one_then_other p i j x y ne a b = (
    Reach-trans a.reached b.reached,
    b.returned,
    b.others j ne ∙ a.returned,
    omega (arith, a.counted, b.counted),
    b.stored p.index ∙ ground (arith, a.counted, a.stored p.index),
    b.stored (p.index + 1) ∙ ground (arith, a.counted),
  )

  pub both_pass :
      (p : System) (i j : ℕ) (x y : Sample)
      → i ≢ j
      → p.threads i ≡ locking x
      → p.threads j ≡ locking y
      → p.owner ≡ none
      → p.index + 1 < stream_buffer_size
      → (u : System) × InTurn p i j x y u
  both_pass p i j x y ne ei ej free room =
      let a = completes p j y ej free (omega arith) in
      let b =
        completes a.then_state i x (a.others i (λ e. ne (sym e)) ∙ ei) a.free
          (omega (arith, a.counted)) in
      (b.then_state, one_then_other p i j x y ne a b)

  -- The check is made before the mutex is taken, so two updates of a counter can both pass it and be
  -- recorded in the order that makes the counter fall. Whenever the mutex is free, the buffer has room
  -- for two, and two threads are about to check values that the counter's last sample allows, the first below
  -- the second, some interleaving ends with both calls successful and the smaller value recorded
  -- right after the larger one.
  pub counter_can_fall :
      (s : System) (i j : ℕ) (x y : Sample)
      → i ≢ j
      → s.type ≡ counter
      → s.threads i ≡ checking x
      → s.threads j ≡ checking y
      → refuses counter s.buf s.index x.val ≡ false
      → refuses counter s.buf s.index y.val ≡ false
      → F.lt x.val y.val ≡ true
      → s.owner ≡ none
      → s.index + 1 < stream_buffer_size
      → (u : System) × InTurn s i j x y u
        × (F.lt (Sample.val (u.buf (s.index + 1))) (Sample.val (u.buf s.index)) ≡ true)
  counter_can_fall s i j x y ne t ei ej ci cj below free room =
      let p = goto (goto s i (locking x)) j (locking y) in
      let both = both_pass p i j x y ne (ground arith) (ground arith) free room in
      let q : InTurn p i j x y both.0 = both.1 in
      let start : Reach s p =
        then_step (then_step here (accept i x ei (rw t ci)))
          (accept {s = goto s i (locking x)} j y (ground arith) (rw t cj)) in
      (both.0, (Reach-trans start q.0, q.1, q.2, q.3, q.4, q.5), rw (q.5, q.4) below)
