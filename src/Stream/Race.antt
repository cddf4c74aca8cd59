-- ===== src/Stream/Race.antt =====
-- Threads that call `aggregator_stream_update` on one stream at the same time. The check of the
-- value stands before `ABT_mutex_lock`; the three writes and the increment stand between lock and
-- unlock. A step is one of these, by one thread. A check reads the index and the entry below it at once:
-- the index only grows, and no write is below it.
pub mod Exclusion
pub mod Order
pub mod Progress
pub mod CheckThenAct
use aggregator.Base.{
  ℕ, suc, ◌+◌, ◌-◌, ◌<◌, ◌≡◌, refl, Bool, true, false, Option, none, some, u32, leb, if◌then◌else◌,
  arith, done,
}
use aggregator.Common.{StreamType, counter, timer, gauge, Sample, stream_buffer_size}
use aggregator.Double.{Double}
use aggregator.Memory.{Stream, Heap, update}
use aggregator.Stream.{is_refused}

-- Where a thread stands in its call, with the sample that it records.
pub data Pc : Type 0 where
  checking locking writing_val writing_time writing_id bumping unlocking : Sample → Pc
  succeeded refused : Sample → Pc

-- The stream's type, its buffer and index, the holder of its mutex, and the threads.
pub record System : Type 0 where
  pub type : StreamType
  pub buf : ℕ → Sample
  pub index : ℕ
  pub owner : Option ℕ
  pub threads : ℕ → Pc

abbrev pub goto : System → ℕ → Pc → System
goto s i pc = record s { threads = update s.threads i pc }

-- `m->buffer[m->buffer_index]` becomes this.
abbrev pub set_entry : System → Sample → System
set_entry s entry = record s { buf = update s.buf s.index entry }

module _ ⦃F : Double⦄ where
  -- The verdict of the `switch` on a buffer and an index.
  unfoldable pub refuses : StreamType → (ℕ → Sample) → ℕ → ℕ → Bool
  refuses counter buf index val =
      if leb 1 index then F.lt val (Sample.val (buf (index - 1))) else false
  refuses timer buf index val = F.lt val (F.of_ℕ 0)
  refuses gauge buf index val = false

  -- It is the verdict of the sequential code.
  is_refused-eq-refuses :
      (t : StreamType) (s : Stream) (val : ℕ) (h : Heap) (buf : ℕ → Sample)
      → h.buffers s.buffer ≡ some buf
      → s.buffer_index < stream_buffer_size
      → is_refused t s val h ≡ done (refuses t buf s.buffer_index val) h
  unfolding is_refused refuses
  is_refused-eq-refuses counter s val h buf e room = ground arith
  is_refused-eq-refuses timer s val h buf e room = refl
  is_refused-eq-refuses gauge s val h buf e room = refl

  -- A write past the end of the buffer has no step.
  pub data Step : System → System → Type 0 where
    refuse :
        {s : System} (i : ℕ) (x : Sample)
        → s.threads i ≡ checking x
        → refuses s.type s.buf s.index x.val ≡ true
        → Step s (goto s i (refused x))
    accept :
        {s : System} (i : ℕ) (x : Sample)
        → s.threads i ≡ checking x
        → refuses s.type s.buf s.index x.val ≡ false
        → Step s (goto s i (locking x))
    lock :
        {s : System} (i : ℕ) (x : Sample)
        → s.threads i ≡ locking x
        → s.owner ≡ none
        → Step s (goto (record s { owner = some i }) i (writing_val x))
    write_val :
        {s : System} (i : ℕ) (x : Sample)
        → s.threads i ≡ writing_val x
        → s.index < stream_buffer_size
        → Step s (goto (set_entry s (record (s.buf s.index) { val = x.val })) i (writing_time x))
    write_time :
        {s : System} (i : ℕ) (x : Sample)
        → s.threads i ≡ writing_time x
        → s.index < stream_buffer_size
        → Step s (goto (set_entry s (record (s.buf s.index) { time = x.time })) i (writing_id x))
    write_id :
        {s : System} (i : ℕ) (x : Sample)
        → s.threads i ≡ writing_id x
        → s.index < stream_buffer_size
        → Step s
            (goto (set_entry s (record (s.buf s.index) { sample_id = x.sample_id })) i (bumping x))
    bump :
        {s : System} (i : ℕ) (x : Sample)
        → s.threads i ≡ bumping x
        → Step s (goto (record s { index = u32 (s.index + 1) }) i (unlocking x))
    unlock :
        {s : System} (i : ℕ) (x : Sample)
        → s.threads i ≡ unlocking x
        → Step s (goto (record s { owner = none }) i (succeeded x))

  pub data Reach (s : System) : System → Type 0 where
    here : Reach s s
    then_step : {t u : System} → Reach s t → Step t u → Reach s u

  pub Reach-trans : {s t u : System} → Reach s t → Reach t u → Reach s u
  Reach-trans r here = r
  Reach-trans r (then_step q st) = then_step (Reach-trans r q) st
