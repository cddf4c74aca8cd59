-- ===== src/Tests/Races.antt =====
-- The theorems on concurrent updates, at concrete inputs.
use aggregator.Base.{
  List, ◌↔◌, ℕ, ◌∷◌, [], ◌≡◌, refl, none, some, ltb, true, false, if◌then◌else◌, ◌==◌, arith,
}
use aggregator.Common.{counter, Sample}
use aggregator.Stream.Race.{
  System, checking, locking, writing_val, writing_time, writing_id, bumping, unlocking, succeeded,
  Step, accept, lock, write_val, write_time, write_id, bump, unlock, Reach, here, then_step, goto,
  set_entry, refuses,
}
use aggregator.Stream.Race.Exclusion.{IsStart, mutual_exclusion}
use aggregator.Stream.History.{history}
use aggregator.Stream.Orders.{Among, Once}
use aggregator.Stream.Race.Order.{IsRecorded, logged, updates_in_order}
use aggregator.Stream.Race.Progress.{no_deadlock}
use aggregator.Stream.Race.CheckThenAct.{InTurn, counter_can_fall}
use aggregator.Stream.Fetching.{
  Fetching, comparing, counting_asked, copying, copied, FetchReach, here, then_step,
}
use aggregator.Stream.Fetching.Overrun.{fetch_can_overrun}
use aggregator.Tests.Data.{whole, sample, two_samples}

-- A counter whose last value is 5; thread 0 wants to record 6, all others 7.
abbrev race : System
race = record {
  type = counter;
  buf = two_samples;
  index = 2;
  owner = none;
  threads = λ i. if i == 0 then checking (sample 6) else checking (sample 7);
}

race-IsStart : IsStart race
race-IsStart i =
    elim (i == 0)
      as (λ b.
        (x : Sample) × ((if b then checking (sample 6) else checking (sample 7)) ≡ checking x)) [
          | true ↦ (sample 6, refl)
          | false ↦ (sample 7, refl)
        ]

accepted : refuses counter two_samples 2 6 ≡ false
unfolding refuses
accepted = refl

accepted_too : refuses counter two_samples 2 7 ≡ false
unfolding refuses
accepted_too = refl

-- Thread 0 up to the lock.
abbrev locked : System
locked =
    goto (record (goto race 0 (locking (sample 6))) { owner = some 0 }) 0 (writing_val (sample 6))

to_locked : Reach race locked
to_locked =
    then_step (then_step here (accept 0 (sample 6) refl accepted))
      (lock {s = goto race 0 (locking (sample 6))} 0 (sample 6) refl refl)

mutual_exclusion_example : ◌≡◌ {A = ℕ} 0 0
mutual_exclusion_example = mutual_exclusion race locked 0 0 race-IsStart to_locked tt tt

abbrev with_val : System
with_val = goto (set_entry locked (record (two_samples 2) { val = 6 })) 0 (writing_time (sample 6))

abbrev with_time : System
with_time =
    goto (set_entry with_val (record (with_val.buf 2) { time = Sample.time (sample 6) })) 0
      (writing_id (sample 6))

abbrev written : System
written =
    goto
      (set_entry with_time (record (with_time.buf 2) { sample_id = Sample.sample_id (sample 6) })) 0
      (bumping (sample 6))

abbrev bumped : System
bumped = goto (record written { index = 3 }) 0 (unlocking (sample 6))

abbrev ended : System
ended = goto (record bumped { owner = none }) 0 (succeeded (sample 6))

to_ended : Reach race ended
to_ended =
    then_step
      (then_step
        (then_step
          (then_step (then_step to_locked (write_val {s = locked} 0 (sample 6) refl (omega arith)))
            (write_time {s = with_val} 0 (sample 6) refl (omega arith)))
          (write_id {s = with_time} 0 (sample 6) refl (omega arith)))
        (bump {s = written} 0 (sample 6) refl))
      (unlock {s = bumped} 0 (sample 6) refl)

-- What each thread wants to record.
abbrev wanted_by : ℕ → Sample
wanted_by i = if i == 0 then sample 6 else sample 7

race-wanted_by : (i : ℕ) → race.threads i ≡ checking (wanted_by i)
race-wanted_by i =
    elim (i == 0)
      as (λ b.
        (if b then checking (sample 6) else checking (sample 7))
        ≡ checking (if b then sample 6 else sample 7)) [ true ↦ refl | false ↦ refl ]

updates_in_order_example :
    (order : List ℕ) × (history ended.buf 3 ≡ logged wanted_by (history two_samples 2) order)
    × Once order
    × ((i : ℕ) → Among i order ↔ IsRecorded (ended.threads i))
updates_in_order_example = updates_in_order race ended wanted_by race-wanted_by to_ended

no_deadlock_example : (w : System) × Step locked w
no_deadlock_example = no_deadlock race locked 1 race-IsStart refl to_locked tt (omega arith)

counter_can_fall_example :
    (u : System) × InTurn race 0 1 (sample 6) (sample 7) u
    × (ltb (Sample.val (u.buf 3)) (Sample.val (u.buf 2)) ≡ true)
counter_can_fall_example =
    counter_can_fall race 0 1 (sample 6) (sample 7) (omega arith) refl refl refl accepted
      accepted_too refl refl (omega arith)

-- A fetch of two samples, while thread 0 is let through its check.
abbrev fetching : Fetching
fetching = record { system = race; count = 2; pc = comparing }

abbrev fetching_asked : Fetching
fetching_asked = record {
  system = goto race 0 (locking (sample 6));
  count = 2;
  pc = counting_asked;
}

abbrev fetched : Fetching
fetched = record fetching_asked { pc = copied (two_samples 0 ∷ two_samples 1 ∷ []) }

-- A fetch of three samples, while threads 0 and 1 are about to take the mutex.
abbrev racing : Fetching
racing = record {
  system = goto (goto race 0 (locking (sample 6))) 1 (locking (sample 7));
  count = 3;
  pc = comparing;
}

fetch_can_overrun_example :
    (g : Fetching) × FetchReach racing g × (g.count ≡ 3) × (g.pc ≡ copying 0 4)
fetch_can_overrun_example =
    fetch_can_overrun racing 0 1 (sample 6) (sample 7) refl refl (omega arith) refl refl refl
      (omega arith)
