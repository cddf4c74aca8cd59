-- ===== src/Stream.antt =====
-- src/client.c: recording performance data in a stream. The clock (`ABT_get_wtime`) and the
-- thread's identifier (`ABT_self_get_thread_id`) are arguments. A call runs alone here; calls that interleave are in the
-- children `Race` and `Adjusting`.
pub mod History
pub mod Orders
pub mod Update
pub mod Slices
pub mod Histogram
pub mod Race
pub mod Fetching
pub mod Calls
pub mod Gauge
pub mod Adjusting
use aggregator.Base.{
  ℕ, suc, ◌+◌, ◌-◌, Bool, true, false, Option, none, some, ltb, leb, u32, ◌==◌, if◌then◌else◌, M,
  Outcome, done, ub, pure, and_then, ◌>>=◌, ◌>>◌,
}
use aggregator.Common.{
  ReturnCode, success, err_invalid_value, StreamType, counter, timer, gauge, Sample,
}
use aggregator.Double.{Double}
use aggregator.Memory.{Stream, Heap, load, store, read_sample, write_sample}

module _ ⦃F : Double⦄ where
  -- The `switch` of `aggregator_stream_update`: is the value refused?
  unfoldable pub is_refused : StreamType → Stream → ℕ → M Heap Bool
  unfolding read_sample
  is_refused counter m val =
      if leb 1 m.buffer_index
      then (do last ← read_sample m.buffer (m.buffer_index - 1); pure (F.lt val last.val))
      else pure false
  is_refused timer m val = pure (F.lt val (F.of_ℕ 0))
  is_refused gauge m val = pure false

-- `m->buffer[m->buffer_index] = …; m->buffer_index++`
unfoldable pub push_sample : ℕ → Sample → M Heap (Unit {0})
unfolding load store write_sample
push_sample m x = do
  s ← load m
  write_sample s.buffer s.buffer_index x
  store m (record s { buffer_index = u32 (s.buffer_index + 1) })

module _ ⦃F : Double⦄ where
  unfoldable pub stream_update : ℕ → ℕ → ℕ → ℕ → M Heap ReturnCode
  stream_update m val now self_id = do
    s ← load m
    refused ← is_refused s.type s val
    if refused then pure err_invalid_value else (do
      push_sample m (record { time = now; val = val; sample_id = self_id })
      pure success)

  -- The value that `aggregator_stream_update_gauge_by_fixed_amount` stores.
  unfoldable pub gauge_value : Stream → ℕ → M Heap ℕ
  unfolding read_sample
  gauge_value m diff =
      if m.buffer_index == 0
      then pure (F.of_ℕ 1)
      else (do last ← read_sample m.buffer (m.buffer_index - 1); pure (F.add last.val diff))

  unfoldable pub update_gauge_by_fixed_amount : ℕ → ℕ → ℕ → ℕ → M Heap ReturnCode
  update_gauge_by_fixed_amount m diff now self_id = do
    s ← load m
    elim s.type [
      | counter ↦ pure err_invalid_value
      | timer ↦ pure err_invalid_value
      | gauge ↦ (do
        val ← gauge_value s diff
        push_sample m (record { time = now; val = val; sample_id = self_id })
        pure success)
    ]
