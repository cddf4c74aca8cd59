-- ===== src/Stream/Adjusting.antt =====
-- Threads that call `aggregator_stream_update_gauge_by_fixed_amount` on one gauge at the same time. The
-- last value is read, and the new one written, between `ABT_mutex_lock` and `ABT_mutex_unlock`. The
-- three writes are one step, since only the holder of the mutex looks at what they write.
pub mod Total
use aggregator.Base.{
  ℕ, ◌+◌, ◌-◌, ◌<◌, ◌≡◌, refl, Option, none, some, u32, ◌==◌, if◌then◌else◌, arith, done, ub,
}
use aggregator.Common.{Sample, stream_buffer_size}
use aggregator.Double.{Double}
use aggregator.Memory.{Stream, Heap, update}
use aggregator.Stream.{gauge_value}

-- Where a thread stands in its call; a sample has the amount for its value.
pub data AdjustPc : Type 0 where
  entering holding stored counted ended : Sample → AdjustPc

pub record Gauge : Type 0 where
  pub buf : ℕ → Sample
  pub index : ℕ
  pub owner : Option ℕ
  pub threads : ℕ → AdjustPc

abbrev pub jump : Gauge → ℕ → AdjustPc → Gauge
jump g i pc = record g { threads = update g.threads i pc }

module _ ⦃F : Double⦄ where
  -- The value that is stored at the index.
  abbrev pub value_at : (ℕ → Sample) → ℕ → ℕ → ℕ
  value_at buf index diff =
      if index == 0 then F.of_ℕ 1 else F.add (Sample.val (buf (index - 1))) diff

  -- It is the value of the sequential code.
  gauge_value-eq-value_at :
      (s : Stream) (diff : ℕ) (h : Heap) (buf : ℕ → Sample)
      → h.buffers s.buffer ≡ some buf
      → s.buffer_index < stream_buffer_size
      → gauge_value s diff h ≡ done (value_at buf s.buffer_index diff) h
  unfolding gauge_value
  gauge_value-eq-value_at s diff h buf e room = ground arith

  abbrev pub sample_at : (ℕ → Sample) → ℕ → Sample → Sample
  sample_at buf index x = record {
    time = x.time;
    val = value_at buf index x.val;
    sample_id = x.sample_id;
  }

  pub data AdjustStep : Gauge → Gauge → Type 0 where
    take_mutex :
        {g : Gauge} (i : ℕ) (x : Sample)
        → g.threads i ≡ entering x
        → g.owner ≡ none
        → AdjustStep g (jump (record g { owner = some i }) i (holding x))
    store_sample :
        {g : Gauge} (i : ℕ) (x : Sample)
        → g.threads i ≡ holding x
        → g.index < stream_buffer_size
        → AdjustStep g (
            jump (record g { buf = update g.buf g.index (sample_at g.buf g.index x) }) i (stored x))
    count_sample :
        {g : Gauge} (i : ℕ) (x : Sample)
        → g.threads i ≡ stored x
        → AdjustStep g (jump (record g { index = u32 (g.index + 1) }) i (counted x))
    give_mutex :
        {g : Gauge} (i : ℕ) (x : Sample)
        → g.threads i ≡ counted x
        → AdjustStep g (jump (record g { owner = none }) i (ended x))

  pub data AdjustReach (g : Gauge) : Gauge → Type 0 where
    no_step : AdjustReach g g
    one_more : {h k : Gauge} → AdjustReach g h → AdjustStep h k → AdjustReach g k
