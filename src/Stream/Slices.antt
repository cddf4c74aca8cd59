-- ===== src/Stream/Slices.antt =====
-- Parts of a buffer in the order of their addresses, and the log.
use mathlib.Core.List.{reverse-cons}
use aggregator.Base.{
  ℕ, zero, suc, ◌+◌, ◌-◌, ◌≤◌, ◌<◌, ◌≡◌, refl, sym, ap, ap₂, ◌∙◌, [], ◌∷◌, ◌++◌, reverse, some,
  arith, take, done,
}
use aggregator.Common.{Sample, stream_buffer_size}
use aggregator.Memory.{Heap, read_sample}
use aggregator.Stream.History.{history, slice}

slice_snoc : (buf : ℕ → Sample) (n i : ℕ) → slice buf i (suc n) ≡ slice buf i n ++ buf (i + n) ∷ []
slice_snoc buf zero i = ground arith
slice_snoc buf (suc n) i =
    ap (◌∷◌ (buf i)) (slice_snoc buf n (suc i))
    ∙ ap (λ (j : ℕ). buf i ∷ slice buf (suc i) n ++ buf j ∷ []) (omega arith)

-- The last k of the first n entries are the k newest, put in order.
pub slice-take :
    (buf : ℕ → Sample) (n k : ℕ) → k ≤ n → slice buf (n - k) k ≡ reverse (take k (history buf n))
slice-take buf n zero h = refl
slice-take buf zero (suc k) h = absurd (omega arith)
slice-take buf (suc n) (suc k) h =
    slice_snoc buf k (suc n - suc k)
    ∙ ap₂ ◌++◌ (ap (λ (j : ℕ). slice buf j k) (omega arith) ∙ slice-take buf n k (omega arith))
        (ap (λ (j : ℕ). buf j ∷ []) (omega arith))
    ∙ sym (reverse-cons (buf n) (take k (history buf n)))

take_all : (buf : ℕ → Sample) (n : ℕ) → take n (history buf n) ≡ history buf n
take_all buf zero = refl
take_all buf (suc n) = ap (◌∷◌ (buf n)) (take_all buf n)

pub slice-reverse : (buf : ℕ → Sample) (n : ℕ) → slice buf 0 n ≡ reverse (history buf n)
slice-reverse buf n =
    ap (λ (j : ℕ). slice buf j n) (omega arith)
    ∙ slice-take buf n n (omega arith)
    ∙ ap reverse (take_all buf n)

pub read_sample_lem :
    (b i : ℕ) (h : Heap) (buf : ℕ → Sample)
    → h.buffers b ≡ some buf
    → i < stream_buffer_size
    → read_sample b i h ≡ done (buf i) h
unfolding read_sample
read_sample_lem b i h buf e room = ground arith
