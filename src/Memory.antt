-- ===== src/Memory.antt =====
-- The heap that the library keeps its objects in: `aggregator_stream` of src/types.h, the sample
-- buffers and the tag lists. An address is a number; NULL is 0. Allocation hands out an address
-- that was never in use, and a freed address holds no object, so that a use after free is `ub`.
use aggregator.Base.{
  ℕ, ◌≡◌, ◌≢◌, sym, ◌∙◌, ℕ_discrete, Option, none, some, ltb, ◌==◌, if◌then◌else◌, M, done, ub,
  pure, and_then, ◌>>=◌, fault, arith,
}
use mathlib.Core.Option
use aggregator.Common.{StreamType, Sample, CString, TagList, stream_buffer_size}

-- `aggregator_stream`, without the hash handle, which is uthash's own, and the mutex (see
-- Stream/Race). `buffer` and `taglist` are addresses.
pub record Stream : Type 0 where
  pub type : StreamType
  pub buffer : ℕ
  pub buffer_index : ℕ
  pub desc : CString
  pub name : CString
  pub ns : CString
  pub taglist : ℕ
  pub id : ℕ

pub record Heap : Type 0 where
  pub streams : ℕ → Option Stream
  pub buffers : ℕ → Option (ℕ → Sample)
  pub taglists : ℕ → Option TagList
  pub fresh : ℕ

abbrev pub update {ℓ} : {A : Type ℓ} → (ℕ → A) → ℕ → A → ℕ → A
update f p a q = if p == q then a else f q

pub update_self {ℓ} : {A : Type ℓ} (f : ℕ → A) (p : ℕ) (a : A) → update f p a p ≡ a
update_self f p a = ground arith

pub update_ne {ℓ} : {A : Type ℓ} (f : ℕ → A) (p : ℕ) (a : A) (q : ℕ) → p ≢ q → update f p a q ≡ f q
update_ne f p a q h = ground arith

-- An object that comes and goes leaves the others.
pub update-back :
    {A : Type 0} (f : ℕ → Option A) (p : ℕ) (o : Option A) (q : ℕ)
    → f p ≡ none
    → update (update f p o) p none q ≡ f q
update-back f p o q e = elim (ℕ_discrete p q) [
  | yes same ↦ rw (← same) (update_self (update f p o) p none ∙ sym e)
  | no n ↦ update_ne (update f p o) p none q n ∙ update_ne f p o q n
]

abbrev pub or_ub : {A : Type 0} → Option A → M Heap A
or_ub none = fault
or_ub (some a) = pure a

unfoldable pub load : ℕ → M Heap Stream
load p h = or_ub (h.streams p) h

unfoldable pub store : ℕ → Stream → M Heap (Unit {0})
unfolding load
store p s = do _ ← load p; λ h. done tt (record h { streams = update h.streams p (some s) })

-- `buffer[i]`: every buffer has `stream_buffer_size` entries.
unfoldable pub read_sample : ℕ → ℕ → M Heap Sample
read_sample b i h =
    if ltb i stream_buffer_size then or_ub (Option.map (λ buf. buf i) (h.buffers b)) h else ub h

unfoldable pub write_sample : ℕ → ℕ → Sample → M Heap (Unit {0})
write_sample b i x h =
    if ltb i stream_buffer_size
    then and_then
        (λ buf g. done tt (record g { buffers = update g.buffers b (some (update buf i x)) }))
        (or_ub (h.buffers b) h)
    else ub h
