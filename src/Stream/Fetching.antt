-- ===== src/Stream/Fetching.antt =====
-- The part of `aggregator_stream_fetch_ult` that copies samples out of a stream, while other threads
-- update the stream. It does not take the mutex, and reads `buffer_index` twice. A copy is one step,
-- since what it reads is below the index, where no update writes.
pub mod Window
pub mod Overrun
use aggregator.Base.{ℕ, ◌-◌, ◌≤◌, ◌<◌, ◌≡◌, List}
use aggregator.Common.{Sample}
use aggregator.Double.{Double}
use aggregator.Stream.History.{slice}
use aggregator.Stream.Race.{System, Step}

-- Where the handler stands: before the comparison of the index with the count; before
-- `actual_count` is set, to the index or to the count; before the copy, with the first entry
-- and the number of entries that it takes; and behind it, with the samples in its memory.
pub data FetchPc : Type 0 where
  comparing counting_all counting_asked : FetchPc
  copying : ℕ → ℕ → FetchPc
  copied : List Sample → FetchPc

-- A stream with its updates, and a handler with the count that its caller asks for, for which it has
-- allocated memory.
pub record Fetching : Type 0 where
  pub system : System
  pub count : ℕ
  pub pc : FetchPc

module _ ⦃F : Double⦄ where
  -- A copy past the end of the allocated memory has no step.
  pub data FetchStep : Fetching → Fetching → Type 0 where
    updates : {f : Fetching} {t : System} → Step f.system t → FetchStep f (record f { system = t })
    less :
        {f : Fetching}
        → f.pc ≡ comparing
        → f.system.index < f.count
        → FetchStep f (record f { pc = counting_all })
    not_less :
        {f : Fetching}
        → f.pc ≡ comparing
        → f.count ≤ f.system.index
        → FetchStep f (record f { pc = counting_asked })
    count_all :
        {f : Fetching}
        → f.pc ≡ counting_all
        → FetchStep f (record f { pc = copying 0 f.system.index })
    count_asked :
        {f : Fetching}
        → f.pc ≡ counting_asked
        → FetchStep f (record f { pc = copying (f.system.index - f.count) f.count })
    copy :
        {f : Fetching} (start n : ℕ)
        → f.pc ≡ copying start n
        → n ≤ f.count
        → FetchStep f (record f { pc = copied (slice f.system.buf start n) })

  pub data FetchReach (f : Fetching) : Fetching → Type 0 where
    here : FetchReach f f
    then_step : {g h : Fetching} → FetchReach f g → FetchStep g h → FetchReach f h
