-- ===== src/Tests/Streams.antt =====
-- The theorems on hashes and on recording, at concrete inputs.
use mathlib.Core.List.Perm
use aggregator.Base.{
  ℕ, ◌+◌, ◌*◌, ◌^◌, ◌≡◌, refl, List, [], ◌∷◌, some, reverse, inl, true, length, u32, arith, done,
  ub, if◌then◌else◌,
}
use aggregator.Common.{
  err_invalid_value, counter, timer, gauge, Sample, zero_sample, stream_buffer_size,
}
use aggregator.Common.Hash.{aggregator_hash, id_from_string_identifiers}
use aggregator.Common.Hash.Polynomial.{weighted, hash-eq-polynomial}
use aggregator.Common.Hash.Identifier.{id-perm, id_collisions, tags_hash}
use aggregator.Memory.{Heap}
use aggregator.Stream.{stream_update, update_gauge_by_fixed_amount}
use aggregator.Stream.History.{history, Holds, length-history}
use aggregator.Stream.Update.{accepts, logged, update-refines, update_full}
use aggregator.Stream.Gauge.{gauge_logged, gauge-refines}
use aggregator.Stream.Calls.{Call, updates, adjusts, calls, after_all, Fits, calls_keep_type}
use aggregator.Stream.Histogram.{widen, dump_histogram, dump_raw_data}
use aggregator.Stream.Histogram.Buckets.{range_of, dump_raw_data_lem}
use aggregator.Stream.Histogram.Overflow.{histogram_overflow}
use aggregator.Tests.Data.{whole, sample, two_samples, stream_of, heap_of, two-Holds}

abbrev logs : List Sample
logs = sample 5 ∷ sample 3 ∷ []

hash_runs : aggregator_hash (97 ∷ []) ≡ 177670
unfolding aggregator_hash
hash_runs = refl

abbrev a_string : List ℕ
a_string = 97 ∷ 200 ∷ []

hash-eq-polynomial_example :
    aggregator_hash a_string ≡ u32 (5381 * 33 ^ length a_string + weighted a_string)
hash-eq-polynomial_example = hash-eq-polynomial a_string

id-perm_example :
    id_from_string_identifiers (97 ∷ []) (98 ∷ []) ((99 ∷ []) ∷ (100 ∷ []) ∷ []) 2
    ≡ id_from_string_identifiers (97 ∷ []) (98 ∷ []) ((100 ∷ []) ∷ (99 ∷ []) ∷ []) 2
id-perm_example =
    id-perm (97 ∷ []) (98 ∷ []) {xs = (99 ∷ []) ∷ (100 ∷ []) ∷ []}
      {ys = (100 ∷ []) ∷ (99 ∷ []) ∷ []} (Perm.swap (100 ∷ []) (99 ∷ []) [])

id_collisions_example :
    (id_from_string_identifiers (97 ∷ []) (98 ∷ []) ((99 ∷ []) ∷ (99 ∷ []) ∷ []) 2
      ≡ id_from_string_identifiers (97 ∷ []) (98 ∷ []) [] 0)
    × (id_from_string_identifiers (97 ∷ []) (98 ∷ []) [] 0
        ≡ id_from_string_identifiers (98 ∷ []) (97 ∷ []) [] 0)
    × (id_from_string_identifiers (97 ∷ []) (97 ∷ []) [] 0 ≡ some (tags_hash []))
id_collisions_example = id_collisions (97 ∷ []) (98 ∷ []) (99 ∷ []) []

update-refines_example :
    (h' : Heap) × (stream_update 1 6 10 1 (heap_of counter 2 two_samples)
      ≡ done (logged counter logs (sample 6)).0 h')
    × Holds h' 1 counter (logged counter logs (sample 6)).1
update-refines_example =
    update-refines (heap_of counter 2 two_samples) 1 counter logs (sample 6) (two-Holds counter)
      (omega arith)

gauge-refines_example :
    (h' : Heap) × (update_gauge_by_fixed_amount 1 4 10 1 (heap_of gauge 2 two_samples)
      ≡ done (gauge_logged gauge logs (sample 4)).0 h')
    × Holds h' 1 gauge (gauge_logged gauge logs (sample 4)).1
gauge-refines_example =
    gauge-refines (heap_of gauge 2 two_samples) 1 gauge logs (sample 4) (two-Holds gauge)
      (omega arith)

-- A gauge of 5 that is raised by 4 is 9.
gauge_raised : (gauge_logged gauge logs (sample 4)).1 ≡ sample 9 ∷ logs
gauge_raised = refl

abbrev some_calls : List Call
some_calls = updates (sample 4) ∷ updates (sample 6) ∷ adjusts (sample 1) ∷ []

calls_keep_type_example :
    (h' : Heap) × (calls 1 some_calls (heap_of counter 2 two_samples) ≡ done tt h')
    × Holds h' 1 counter (after_all counter logs some_calls)
    × Fits counter (after_all counter logs some_calls)
calls_keep_type_example =
    calls_keep_type counter 1 some_calls (heap_of counter 2 two_samples) logs (two-Holds counter)
      (refl, tt) (omega arith)

-- A stream whose buffer is full of zeros.
full_log : List Sample
full_log = history (λ i. zero_sample) stream_buffer_size

length-full_log : length full_log ≡ stream_buffer_size
unfolding full_log
length-full_log = length-history (λ i. zero_sample) stream_buffer_size

full-Holds : Holds (heap_of timer stream_buffer_size (λ i. zero_sample)) 1 timer full_log
unfolding full_log
full-Holds = record {
  stream = stream_of timer stream_buffer_size;
  buf = λ i. zero_sample;
  loaded = refl;
  typed = refl;
  allocated = refl;
  recorded = refl;
  in_bounds = omega arith;
}

update_full_example :
    stream_update 1 6 10 1 (heap_of timer stream_buffer_size (λ i. zero_sample)) ≡ (
      if accepts timer full_log 6
      then ub (heap_of timer stream_buffer_size (λ i. zero_sample))
      else done err_invalid_value (heap_of timer stream_buffer_size (λ i. zero_sample)))
update_full_example =
    update_full (heap_of timer stream_buffer_size (λ i. zero_sample)) 1 timer full_log (sample 6)
      full-Holds length-full_log

dump_raw_data_lem_example :
    dump_raw_data 1 true (heap_of gauge 2 two_samples)
    ≡ done (reverse logs) (heap_of gauge 2 two_samples)
dump_raw_data_lem_example =
    dump_raw_data_lem (heap_of gauge 2 two_samples) 1 gauge logs (two-Holds gauge)

logs_span :
    let spread = whole.sub (range_of logs).max (range_of logs).min in
    whole.div spread spread ≡ whole.of_ℕ 1
unfolding widen
logs_span = refl

histogram_overflow_example :
    dump_histogram 1 true 4 (heap_of gauge 2 two_samples) ≡ ub (heap_of gauge 2 two_samples)
histogram_overflow_example =
    histogram_overflow (heap_of gauge 2 two_samples) 1 gauge logs 4 true (two-Holds gauge)
      (inl refl) logs_span refl refl
