-- ===== src/Stream/History.antt =====
-- What a stream holds, seen without its buffer: the samples recorded, the newest first.
use native.Mathlib.Numerals.{add-one}
use aggregator.Base.{
  ℕ, zero, suc, ◌+◌, ◌-◌, ◌≤◌, ◌<◌, ◌≡◌, refl, sym, ap, ◌∙◌, List, [], ◌∷◌, some, arith, length,
  u32, done, ub,
}
use aggregator.Common.{StreamType, Sample, stream_buffer_size}
use aggregator.Memory.{Stream, Heap, update, update_self}
use aggregator.Stream.{push_sample}

-- The first n entries of a buffer, the last of them first.
abbrev pub history : (ℕ → Sample) → ℕ → List Sample
history buf zero = []
history buf (suc n) = buf n ∷ history buf n

-- n entries from index i on.
abbrev pub slice : (ℕ → Sample) → ℕ → ℕ → List Sample
slice buf i zero = []
slice buf i (suc n) = buf i ∷ slice buf (suc i) n

pub length-history : (buf : ℕ → Sample) (n : ℕ) → length (history buf n) ≡ n
length-history buf zero = refl
length-history buf (suc n) = ap suc (length-history buf n)

pub history-update :
    (buf : ℕ → Sample) (i n : ℕ) (x : Sample) → n ≤ i → history (update buf i x) n ≡ history buf n
history-update buf i zero x h = refl
history-update buf i (suc n) x h = ground (arith, history-update buf i n x)

-- The stream at `m` has the type `t` and has recorded `xs`.
pub record Holds (h : Heap) (m : ℕ) (t : StreamType) (xs : List Sample) : Type 0 where
  pub stream : Stream
  pub buf : ℕ → Sample
  pub loaded : h.streams m ≡ some stream
  pub typed : stream.type ≡ t
  pub allocated : h.buffers stream.buffer ≡ some buf
  pub recorded : history buf stream.buffer_index ≡ xs
  pub in_bounds : stream.buffer_index ≤ stream_buffer_size

pub Holds-length :
    {h : Heap} {m : ℕ} {t : StreamType} {xs : List Sample} (v : Holds h m t xs)
    → v.stream.buffer_index ≡ length xs
Holds-length v = sym (length-history v.buf v.stream.buffer_index) ∙ ap length v.recorded

-- The heap after one more sample.
abbrev pub pushed : Heap → ℕ → Stream → (ℕ → Sample) → Sample → Heap
pushed h m s buf x = record h {
  streams = update h.streams m (some (record s { buffer_index = u32 (s.buffer_index + 1) }));
  buffers = update h.buffers s.buffer (some (update buf s.buffer_index x));
}

module _ (h : Heap) (m : ℕ) (s : Stream) (buf : ℕ → Sample) (x : Sample)
    (loaded : h.streams m ≡ some s) (allocated : h.buffers s.buffer ≡ some buf) where
  pub push_sample_lem :
      s.buffer_index < stream_buffer_size → push_sample m x h ≡ done tt (pushed h m s buf x)
  unfolding push_sample
  push_sample_lem room = ground arith

  pub push_sample_full : stream_buffer_size ≤ s.buffer_index → push_sample m x h ≡ ub h
  unfolding push_sample
  push_sample_full full = ground arith

pub pushed-Holds :
    (h : Heap) (m : ℕ) (t : StreamType) (xs : List Sample) (x : Sample) (v : Holds h m t xs)
    → v.stream.buffer_index < stream_buffer_size
    → Holds (pushed h m v.stream v.buf x) m t (x ∷ xs)
pushed-Holds h m t xs x v room = record {
  stream = record v.stream { buffer_index = v.stream.buffer_index + 1 };
  buf = update v.buf v.stream.buffer_index x;
  loaded = ground arith;
  typed = v.typed;
  allocated = update_self h.buffers v.stream.buffer _;
  recorded = ground (
    arith,
    v.recorded,
    history-update v.buf v.stream.buffer_index v.stream.buffer_index x,
    add-one v.stream.buffer_index,
  );
  in_bounds = omega arith;
}

pub history-empty : (buf : ℕ → Sample) (n : ℕ) → history buf n ≡ [] → n ≡ 0
history-empty buf zero e = refl
history-empty buf (suc n) e = cc

-- The newest sample stands just below the index.
pub history-newest :
    (buf : ℕ → Sample) (n : ℕ) (x : Sample) (xs : List Sample)
    → history buf n ≡ x ∷ xs
    → (1 ≤ n) × (buf (n - 1) ≡ x)
history-newest buf zero x xs e = cc
history-newest buf (suc n) x xs e = (omega arith, ground arith)
