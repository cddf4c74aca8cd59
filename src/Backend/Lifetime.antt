-- ===== src/Backend/Lifetime.antt =====
-- A context of the dummy backend, and the sum that the backend computes.
use aggregator.Base.{
  ℕ, suc, ◌+◌, ◌≤◌, ◌≡◌, ◌≢◌, refl, ◌∙◌, Bool, true, false, none, some, if◌then◌else◌, ℤ, pos,
  pos_part, neg_part, ◌+ℤ◌, difference, M, done, ub, arith,
}
use aggregator.Common.{ReturnCode, success}
use aggregator.Memory.{update, update_self, update-back}
use aggregator.Backend.{
  BackendImpl, DummyContext, Contexts, calloc_context, free_context, dummy_create_stream,
  dummy_open_stream, dummy_close_stream, dummy_destroy_stream, dummy_compute_sum, is_int32,
  dummy_backend,
}

-- The next context is at a new address, which is not NULL.
pub record IsReady (s : Contexts) : Type 0 where
  pub started : 1 ≤ s.fresh
  pub unused : (p : ℕ) → s.fresh ≤ p → s.contexts p ≡ none

-- Either of the two functions of a table that make a context, and either of those that free one.
abbrev pub made_by : {S : Type 0} → BackendImpl S → Bool → ℕ → M S (ReturnCode × ℕ)
made_by impl opened = if opened then impl.open_stream else impl.create_stream

abbrev pub freed_by : {S : Type 0} → BackendImpl S → Bool → ℕ → M S ReturnCode
freed_by impl closed = if closed then impl.close_stream else impl.destroy_stream

abbrev zeroed : DummyContext
zeroed = record { dummy_member = pos 0 }

abbrev with_context : Contexts → Contexts
with_context s = record s {
  contexts = update s.contexts s.fresh (some zeroed);
  fresh = suc s.fresh;
}

abbrev without_context : Contexts → ℕ → Contexts
without_context s c = record s { contexts = update s.contexts c none }

made_lem :
    (s : Contexts) (provider : ℕ) (opened : Bool)
    → made_by dummy_backend opened provider s ≡ done (success, s.fresh) (with_context s)
unfolding dummy_create_stream dummy_open_stream calloc_context
made_lem s provider true = refl
made_lem s provider false = refl

freed_lem :
    (s : Contexts) (c : ℕ) (x : DummyContext) (closed : Bool)
    → 1 ≤ c
    → s.contexts c ≡ some x
    → freed_by dummy_backend closed c s ≡ done success (without_context s c)
unfolding dummy_close_stream dummy_destroy_stream free_context
freed_lem s c x true nonnull e = ground arith
freed_lem s c x false nonnull e = ground arith

freed_gone :
    (s : Contexts) (c : ℕ) (closed : Bool)
    → 1 ≤ c
    → s.contexts c ≡ none
    → freed_by dummy_backend closed c s ≡ ub s
unfolding dummy_close_stream dummy_destroy_stream free_context
freed_gone s c true nonnull e = ground arith
freed_gone s c false nonnull e = ground arith

later_unused :
    (s : Contexts) (p : ℕ)
    → IsReady s
    → suc s.fresh ≤ p
    → (without_context (with_context s) s.fresh).contexts p ≡ none
later_unused s p r le =
    update-back s.contexts s.fresh (some zeroed) p (r.unused s.fresh (omega arith))
    ∙ r.unused p (omega arith)

-- Where the next context has a new address, the functions of the dummy backend that create and that
-- open a stream both succeed with a zeroed context that was not there before; those that close and
-- that destroy it both free it, so that every address is again as it was; and freeing it once more
-- frees an address that holds no context. Nothing is printed.
pub dummy-lifetime :
    (s : Contexts) (provider : ℕ) (opened closed again : Bool)
    → IsReady s
    → (c : ℕ) × (v u : Contexts) × (made_by dummy_backend opened provider s ≡ done (success, c) v)
      × (c ≢ 0)
      × (s.contexts c ≡ none)
      × (v.contexts c ≡ some (record { dummy_member = pos 0 }))
      × (freed_by dummy_backend closed c v ≡ done success u)
      × ((b : ℕ) → u.contexts b ≡ s.contexts b)
      × (u.printed ≡ s.printed)
      × IsReady u
      × (freed_by dummy_backend again c u ≡ ub u)
dummy-lifetime s provider opened closed again r =
    let v = with_context s in
    let u = without_context v s.fresh in
    let there = update_self s.contexts s.fresh (some zeroed) in
    let unused = r.unused s.fresh (omega arith) in
    (
      s.fresh,
      v,
      u,
      made_lem s provider opened,
      omega (arith, r.started),
      unused,
      there,
      freed_lem v s.fresh zeroed closed r.started there,
      λ b. update-back s.contexts s.fresh (some zeroed) b unused,
      refl,
      record { started = omega (arith, r.started); unused = λ p le. later_unused s p r le },
      freed_gone u s.fresh again r.started (update_self v.contexts s.fresh none),
    )

difference_lem : (a b : ℕ) → pos_part (difference a b) + b ≡ neg_part (difference a b) + a
difference_lem a b = ground arith

-- The sum is the sum of the two integers, which is said without signs, when an `int32_t` holds it.
sum_exact :
    (s : Contexts) (ctx : ℕ) (x y : ℤ)
    → is_int32 (x +ℤ y) ≡ true
    → (r : ℤ) × (dummy_compute_sum ctx x y s ≡ done r s)
      × (pos_part r + neg_part x + neg_part y ≡ neg_part r + pos_part x + pos_part y)
unfolding dummy_compute_sum
sum_exact s ctx x y fits = (
  x +ℤ y,
  rw fits refl,
  omega (arith, difference_lem (pos_part x + pos_part y) (neg_part x + neg_part y)),
)
