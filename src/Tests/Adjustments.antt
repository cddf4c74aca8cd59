-- ===== src/Tests/Adjustments.antt =====
-- The theorem on concurrent adjustments, at a concrete input.
use aggregator.Base.{ℕ, ◌↔◌, ◌≡◌, refl, none, some, List, if◌then◌else◌, ◌==◌, arith}
use aggregator.Common.{zero_sample}
use aggregator.Stream.History.{history}
use aggregator.Stream.Adjusting.{
  entering, holding, stored, counted, ended, Gauge, jump, sample_at, take_mutex, store_sample,
  count_sample, give_mutex, AdjustReach, no_step, one_more,
}
use aggregator.Stream.Orders.{Among, Once}
use aggregator.Stream.Adjusting.Total.{IsRecorded, IsUntouched, totals, adjustments_add_up}
use aggregator.Tests.Data.{whole, sample}

-- An empty gauge that every thread wants to raise by 4.
abbrev untouched : Gauge
untouched = record {
  buf = λ k. zero_sample;
  index = 0;
  owner = none;
  threads = λ i. entering (sample 4);
}

untouched-IsUntouched : IsUntouched untouched (λ i. sample 4)
untouched-IsUntouched = (refl, λ i. refl)

abbrev taken : Gauge
taken = jump (record untouched { owner = some 2 }) 2 (holding (sample 4))

abbrev written : Gauge
written =
    jump
      (record taken { buf = λ k. if 0 == k then sample_at taken.buf 0 (sample 4) else zero_sample })
      2 (stored (sample 4))

abbrev bumped : Gauge
bumped = jump (record written { index = 1 }) 2 (counted (sample 4))

abbrev given : Gauge
given = jump (record bumped { owner = none }) 2 (ended (sample 4))

to_given : AdjustReach untouched given
to_given =
    one_more
      (one_more
        (one_more (one_more no_step (take_mutex 2 (sample 4) refl refl))
          (store_sample {g = taken} 2 (sample 4) refl (omega arith)))
        (count_sample {g = written} 2 (sample 4) refl))
      (give_mutex {g = bumped} 2 (sample 4) refl)

adjustments_add_up_example :
    (order : List ℕ) × (history given.buf 1 ≡ totals (λ i. sample 4) order)
    × Once order
    × ((i : ℕ) → Among i order ↔ IsRecorded (given.threads i))
adjustments_add_up_example =
    adjustments_add_up untouched given (λ i. sample 4) untouched-IsUntouched to_given
