-- ===== src/Provider/Validity/Heaps.antt =====
-- The steps of the calls on the heap, and its invariant.
use aggregator.Base.{
  ℕ, suc, ◌+◌, ◌≤◌, ◌<◌, ◌≡◌, ◌≢◌, refl, sym, ap, subst, ◌∙◌, ◌⊎◌, inl, inr, Option, none, some,
  arith, u32, ℕ_discrete, dec_lt, true,
}
use aggregator.Common.{Sample, zero_sample, stream_buffer_size}
use aggregator.Memory.{Stream, Heap, update, update_self, update_ne}
use aggregator.Stream.History.{pushed}
use aggregator.Provider.{zero_stream}
use aggregator.Provider.Create.{Request, requested, with_stream, fits}
use aggregator.Provider.Validity.{HasBuffer, IsHeap, IsNamed}

-- What stands at an address after one address was set.
update_cases :
    {A : Type 0} (f : ℕ → Option A) (p : ℕ) (o : Option A) (q : ℕ) (a : A)
    → update f p o q ≡ some a
    → ((p ≡ q) × (o ≡ some a)) ⊎ ((p ≢ q) × (f q ≡ some a))
update_cases f p o q a e = elim (ℕ_discrete p q) [
  | yes same ↦ inl (same, sym (update_self f p o) ∙ ap (update f p o) same ∙ e)
  | no n ↦ inr (n, sym (update_ne f p o q n) ∙ e)
]

-- What is in use was handed out.
below_fresh :
    {A : Type 0} (f : ℕ → Option A) (n p : ℕ) (a : A)
    → ((q : ℕ) → n ≤ q → f q ≡ none)
    → f p ≡ some a
    → p < n
below_fresh f n p a unused e = elim (dec_lt p n) [
  | yes lt ↦ lt
  | no ge ↦ cc (unused p (omega arith))
]

-- A stream whose buffer stays is still whole.
pub freed-IsHeap :
    (h : Heap) (p : ℕ) → IsHeap h → IsHeap (record h { streams = update h.streams p none })
freed-IsHeap h p v = record {
  live = λ q s e. elim (update_cases h.streams p none q s e) [
    | inl (same, o) ↦ cc
    | inr (n, o) ↦ v.live q s o
  ];
  own = λ q r s t e f same. elim (update_cases h.streams p none q s e) [
    | inl (_, o) ↦ cc
    | inr (_, o) ↦ elim (update_cases h.streams p none r t f) [
      | inl (_, o') ↦ cc
      | inr (_, o') ↦ v.own q r s t o o' same
    ]
  ];
  named = λ q s e. elim (update_cases h.streams p none q s e) [
    | inl (same, o) ↦ cc
    | inr (n, o) ↦ v.named q s o
  ];
  no_stream = λ q le. ground (arith, v.no_stream q le);
  no_buffer = v.no_buffer;
}

module _ (h : Heap) (m : ℕ) (s : Stream) (buf : ℕ → Sample) (x : Sample) (v : IsHeap h)
    (loaded : h.streams m ≡ some s) (allocated : h.buffers s.buffer ≡ some buf)
    (room : s.buffer_index < stream_buffer_size) where
  abbrev after_push : Heap
  after_push = pushed h m s buf x

  -- A stream of the new heap stood in the old one, with the same buffer.
  before_push :
      (q : ℕ) (t : Stream)
      → after_push.streams q ≡ some t
      → (t' : Stream) × (h.streams q ≡ some t') × (t'.buffer ≡ t.buffer)
  before_push q t e = elim (update_cases h.streams m _ q t e) [
    | inl (same, o) ↦
        let equal : record s { buffer_index = u32 (s.buffer_index + 1) } ≡ t = cc in
        (s, rw (← same) loaded, ap (λ (y : Stream). y.buffer) equal)
    | inr (n, o) ↦ (t, o, refl)
  ]

  live_after_push : (q : ℕ) (t : Stream) → after_push.streams q ≡ some t → HasBuffer after_push t
  live_after_push q t e = elim (update_cases h.streams m _ q t e) [
    | inl (same, o) ↦
        let equal : record s { buffer_index = u32 (s.buffer_index + 1) } ≡ t = cc in
        subst (HasBuffer after_push) equal
          (update buf s.buffer_index x, update_self h.buffers s.buffer _, omega arith)
    | inr (n, o) ↦
        let b = v.live q t o in
        (
          b.0,
          update_ne h.buffers s.buffer _ t.buffer (λ same. n (v.own m q s t loaded o same)) ∙ b.1,
          b.2,
        )
  ]

  IsNamed-after_push : (q : ℕ) (t : Stream) → after_push.streams q ≡ some t → IsNamed t
  IsNamed-after_push q t e = elim (update_cases h.streams m _ q t e) [
    | inl (same, o) ↦
        let equal : record s { buffer_index = u32 (s.buffer_index + 1) } ≡ t = cc in
        subst IsNamed equal (v.named m s loaded)
    | inr (n, o) ↦ v.named q t o
  ]

  pub pushed-IsHeap : IsHeap after_push
  pushed-IsHeap = record {
    live = live_after_push;
    own = λ q r t u e f same.
        let a = before_push q t e in
        let b = before_push r u f in v.own q r a.0 b.0 a.1 b.1 (a.2 ∙ same ∙ sym b.2);
    named = IsNamed-after_push;
    no_stream =
        λ q le. update_ne h.streams m _ q (λ same. cc (v.no_stream q le)) ∙ v.no_stream q le;
    no_buffer =
        λ q le. update_ne h.buffers s.buffer _ q (λ same. cc (v.no_buffer q le)) ∙ v.no_buffer q le;
  }

module _ (h : Heap) (r : Request) (id : ℕ) (v : IsHeap h)
    (fit : fits r.ns r.name r.desc ≡ true) where
  abbrev after_create : Heap
  after_create = with_stream h r id

  -- A stream of the new heap is the new one, or stood in the old one.
  before_create :
      (q : ℕ) (t : Stream)
      → after_create.streams q ≡ some t
      → ((h.fresh ≡ q) × (requested r id (suc h.fresh) ≡ t))
        ⊎ ((h.fresh ≢ q) × (h.streams q ≡ some t))
  before_create q t e =
      elim (update_cases (update h.streams h.fresh (some zero_stream)) h.fresh
        (some (requested r id (suc h.fresh))) q t e) [
          | inl (same, o) ↦ inl (same, cc)
          | inr (n, o) ↦ inr (n, sym (update_ne h.streams h.fresh _ q n) ∙ o)
        ]

  -- The buffers of the old streams lie below the new addresses.
  old_buffer : (q : ℕ) (t : Stream) → h.streams q ≡ some t → t.buffer < h.fresh
  old_buffer q t o = below_fresh h.buffers h.fresh t.buffer _ v.no_buffer (v.live q t o).1

  live_after_create :
      (q : ℕ) (t : Stream) → after_create.streams q ≡ some t → HasBuffer after_create t
  live_after_create q t e = elim (before_create q t e) [
    | inl (same, equal) ↦
        subst (HasBuffer after_create) equal
          ((λ i. zero_sample), update_self h.buffers (suc h.fresh) _, omega arith)
    | inr (n, o) ↦
        let b = v.live q t o in
        (
          b.0,
          update_ne h.buffers (suc h.fresh) _ t.buffer (omega (arith, old_buffer q t o)) ∙ b.1,
          b.2,
        )
  ]

  own_after_create :
      (p q : ℕ) (s t : Stream)
      → after_create.streams p ≡ some s
      → after_create.streams q ≡ some t
      → s.buffer ≡ t.buffer
      → p ≡ q
  own_after_create p q s t e f same = elim (before_create p s e) [
    | inl (a, equal) ↦ elim (before_create q t f) [
      | inl (b, equal') ↦ sym a ∙ b
      | inr (n, o) ↦ absurd (omega (arith, old_buffer q t o, ap (λ (y : Stream). y.buffer) equal))
    ]
    | inr (n, o) ↦ elim (before_create q t f) [
      | inl (b, equal) ↦
          absurd (omega (arith, old_buffer p s o, ap (λ (y : Stream). y.buffer) equal))
      | inr (n', o') ↦ v.own p q s t o o' same
    ]
  ]

  IsNamed-after_create : (q : ℕ) (t : Stream) → after_create.streams q ≡ some t → IsNamed t
  IsNamed-after_create q t e = elim (before_create q t e) [
    | inl (same, equal) ↦ subst IsNamed equal (ground arith)
    | inr (n, o) ↦ v.named q t o
  ]

  pub with_stream-IsHeap : IsHeap after_create
  with_stream-IsHeap = record {
    live = live_after_create;
    own = own_after_create;
    named = IsNamed-after_create;
    no_stream = λ q le.
        update_ne (update h.streams h.fresh (some zero_stream)) h.fresh _ q (omega arith)
        ∙ update_ne h.streams h.fresh _ q (omega arith)
        ∙ v.no_stream q (omega arith);
    no_buffer =
        λ q le. update_ne h.buffers (suc h.fresh) _ q (omega arith) ∙ v.no_buffer q (omega arith);
  }
