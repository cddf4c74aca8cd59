-- ===== src/Provider/View/Logs.antt =====
-- The steps of the calls on the heap, as a caller sees them.
use aggregator.Base.{
  ℕ, suc, ◌+◌, u32, ap₂, ◌<◌, ◌≡◌, refl, sym, ap, ◌∙◌, [], ◌∷◌, Option, none, some, ℕ_discrete,
  dec_lt, arith,
}
use aggregator.Common.{Sample, stream_buffer_size, zero_sample}
use aggregator.Memory.{Stream, Heap, update, update_self, update_ne}
use aggregator.Stream.History.{history, history-update, pushed}
use aggregator.Provider.{zero_stream}
use aggregator.Provider.Create.{Request, requested, with_stream}
use aggregator.Provider.Validity.{IsHeap}
use aggregator.Provider.View.{Record, View, record_of, seen}

abbrev pub seen_at : Heap → ℕ → Option Record
seen_at h p = seen h (h.streams p)

pub seen_live :
    (h : Heap) (s : Stream) (buf : ℕ → Sample)
    → h.buffers s.buffer ≡ some buf
    → seen h (some s) ≡ some (record_of s (history buf s.buffer_index))
seen_live h s buf e = rw e refl

-- A stream is seen alike in a heap where its buffer is the same.
pub seen_same :
    (h g : Heap) (o : Option Stream)
    → ((s : Stream) → o ≡ some s → g.buffers s.buffer ≡ h.buffers s.buffer)
    → seen g o ≡ seen h o
seen_same h g none same = refl
seen_same h g (some s) same = rw (same s refl) refl

module _ (h : Heap) (m : ℕ) (s : Stream) (buf : ℕ → Sample) (x : Sample) (v : IsHeap h)
    (loaded : h.streams m ≡ some s) (allocated : h.buffers s.buffer ≡ some buf)
    (room : s.buffer_index < stream_buffer_size) where
  history_pushed :
      history (update buf s.buffer_index x) (u32 (s.buffer_index + 1))
      ≡ x ∷ history buf s.buffer_index
  history_pushed =
      let n = s.buffer_index in
      let one : u32 (n + 1) ≡ suc n = omega arith in
      rw one (ap₂ (λ y ys. y ∷ ys) (update_self buf n x) (history-update buf n n x (omega arith)))

  seen_pushed_self :
      seen_at (pushed h m s buf x) m ≡ some (record_of s (x ∷ history buf s.buffer_index))
  seen_pushed_self =
      let g = pushed h m s buf x in
      let n = s.buffer_index in
      ap (seen g) (update_self h.streams m _)
      ∙ seen_live g (record s { buffer_index = u32 (n + 1) }) (update buf n x)
          (update_self h.buffers s.buffer _)
      ∙ ap (λ xs. some (record_of s xs)) history_pushed

  pub seen_pushed :
      (q : ℕ)
      → seen_at (pushed h m s buf x) q
        ≡ update (seen_at h) m (some (record_of s (x ∷ history buf s.buffer_index))) q
  seen_pushed q = elim (ℕ_discrete m q) [
    | yes same ↦ rw (← same) (seen_pushed_self ∙ sym (update_self (seen_at h) m _))
    | no n ↦
        ap (seen (pushed h m s buf x)) (update_ne h.streams m _ q n)
        ∙ seen_same h (pushed h m s buf x) (h.streams q)
            (λ t e. update_ne h.buffers s.buffer _ t.buffer (λ eq. n (v.own m q s t loaded e eq)))
        ∙ sym (update_ne (seen_at h) m _ q n)
  ]

module _ (h : Heap) (r : Request) (id : ℕ) (v : IsHeap h) where
  old_buffer : (q : ℕ) (t : Stream) → h.streams q ≡ some t → t.buffer < h.fresh
  old_buffer q t e = elim (dec_lt t.buffer h.fresh) [
    | yes lt ↦ lt
    | no ge ↦
        let live : h.buffers t.buffer ≡ some (v.live q t e).0 = (v.live q t e).1 in
        let unused : h.buffers t.buffer ≡ none = v.no_buffer t.buffer (omega arith) in cc
  ]

  pub seen_with_stream :
      (q : ℕ)
      → seen_at (with_stream h r id) q
        ≡ update (seen_at h) h.fresh (some (record_of (requested r id (suc h.fresh)) [])) q
  seen_with_stream q = elim (ℕ_discrete h.fresh q) [
    | yes same ↦ rw (← same) (
        ap (seen (with_stream h r id))
          (update_self (update h.streams h.fresh (some zero_stream)) h.fresh _)
        ∙ seen_live (with_stream h r id) (requested r id (suc h.fresh)) (λ i. zero_sample)
            (update_self h.buffers (suc h.fresh) _)
        ∙ sym (update_self (seen_at h) h.fresh _))
    | no n ↦
        ap (seen (with_stream h r id)) (
          update_ne (update h.streams h.fresh (some zero_stream)) h.fresh _ q n
          ∙ update_ne h.streams h.fresh _ q n)
        ∙ seen_same h (with_stream h r id) (h.streams q)
            (λ t e. update_ne h.buffers (suc h.fresh) _ t.buffer (omega (arith, old_buffer q t e)))
        ∙ sym (update_ne (seen_at h) h.fresh _ q n)
  ]

-- Views are the same when what they show is.
pub view_eq :
    (v u : View)
    → ((p : ℕ) → v.records p ≡ u.records p)
    → v.items ≡ u.items
    → v.tags ≡ u.tags
    → v.next ≡ u.next
    → v ≡ u
view_eq v u records items tags next =
    λ i. record { records = λ p. records p i; items = items i; tags = tags i; next = next i }

-- Writing what stands there changes nothing.
pub update_same :
    {A : Type 0} (f : ℕ → A) (p : ℕ) (a : A) → a ≡ f p → (q : ℕ) → update f p a q ≡ f q
update_same f p a e q = elim (ℕ_discrete p q) [
  | yes same ↦ rw (← same) (update_self f p a ∙ e)
  | no n ↦ update_ne f p a q n
]
