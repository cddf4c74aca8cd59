-- ===== src/Client/Handles/Decisions.antt =====
-- Which calls on clients and handles are defined, and what each does to the counts of a store.
use aggregator.Base.{
  ℕ, zero, suc, ◌+◌, ◌-◌, ◌^◌, ◌≤◌, ◌<◌, ◌≡◌, refl, ap, subst, ◌∙◌, ◌⊎◌, inl, inr, Option-cases,
  ℕ_discrete, Option, none, some, arith, u64, M, Outcome, done, ub, pure, ◌>>=◌, and_then,
}
use aggregator.Client.Handles.{
  Client, Handle, Store, lookup_handle, remote_stream_handle_create, remote_stream_handle_ref_incr,
  remote_stream_handle_release, client_finalize,
}
use aggregator.Client.Handles.Counts.{IsCounted, Live-lookup}
use aggregator.Client.Handles.References.{create_lem, incr_lem, release_shared, release_last}
use aggregator.Client.Handles.Refusals.{
  create_null, create_gone, create_no_addr, incr_null, incr_gone, release_null, release_gone,
  release_late, finalize_gone, finalize_lem,
}
use aggregator.Client.Handles.Kept.{
  later, created-IsCounted, finalized-IsCounted, changed-IsCounted, freed-IsCounted,
}

-- A call with its arguments; that of a creation has what `margo_addr_dup` answers.
pub data HandleCall : Type 0 where
  opens : ℕ → Option ℕ → ℕ → ℕ → HandleCall
  shares : ℕ → HandleCall
  closes : ℕ → HandleCall
  finalizes : ℕ → HandleCall

-- The call, whose result is not looked at.
unfoldable pub perform : HandleCall → M Store (Unit {0})
perform (opens client duplicate provider_id stream_id) =
    remote_stream_handle_create client duplicate provider_id stream_id >>= λ _. pure tt
perform (shares p) = remote_stream_handle_ref_incr p >>= λ _. pure tt
perform (closes p) = remote_stream_handle_release p >>= λ _. pure tt
perform (finalizes c) = client_finalize c >>= λ _. pure tt

abbrev pub HasClient : ℕ → Store → Type 0
HasClient c st = (cl : Client) × (st.clients c ≡ some cl)

-- The call refers to objects that are there. NULL is refused, but not by `client_finalize`; the last
-- release of a handle needs its client.
abbrev pub IsProper : HandleCall → Store → Type 0
IsProper (opens c duplicate provider_id stream_id) st = (c ≡ 0) ⊎ HasClient c st
IsProper (shares p) st = (p ≡ 0) ⊎ ((h : Handle) × (lookup_handle p st.handles ≡ some h))
IsProper (closes p) st =
    (p ≡ 0)
    ⊎ ((h : Handle) × (lookup_handle p st.handles ≡ some h)
        × (h.refcount ≡ 1 → HasClient h.client st))
IsProper (finalizes c) st = HasClient c st

-- A call that is proper ends and keeps the counts right; one that is not goes wrong.
abbrev pub Decided : ℕ → HandleCall → Store → Type 0
Decided n call st =
    (IsProper call st × ((t : Store) × (perform call st ≡ done tt t) × IsCounted n t))
    ⊎ ((IsProper call st → ⊥) × ((t : Store) × (perform call st ≡ ub t)))

-- What follows a call that has ended, or gone wrong.
result_dropped :
    {A : Type 0} {a : A} {s : Store} {o : Outcome Store A}
    → o ≡ done a s
    → and_then (λ (_ : A). pure tt) o ≡ done tt s
result_dropped {A} e = ap (and_then (λ (_ : A). pure tt)) e

stays_wrong :
    {A : Type 0} {s : Store} {o : Outcome Store A}
    → o ≡ ub s
    → and_then (λ (_ : A). pure tt) o ≡ ub s
stays_wrong {A} e = ap (and_then (λ (_ : A). pure tt)) e

goes_on :
    {n : ℕ} (call : HandleCall) (st : Store) {t : Store}
    → IsProper call st
    → perform call st ≡ done tt t
    → IsCounted n t
    → Decided n call st
goes_on call st {t = t} proper e v = inl (proper, (t, e, v))

goes_wrong :
    {n : ℕ} (call : HandleCall) (st : Store) {t : Store}
    → (IsProper call st → ⊥)
    → perform call st ≡ ub t
    → Decided n call st
goes_wrong call st {t = t} improper e = inr (improper, (t, e))

-- An address that is not NULL has to lead to an object.
not_null : {A : Type 0} (p : ℕ) → 1 ≤ p → (A → ⊥) → (p ≡ 0) ⊎ A → ⊥
not_null p nonnull no_object (inl null) = absurd (omega arith)
not_null p nonnull no_object (inr object) = no_object object

no_client : (c : ℕ) (st : Store) → st.clients c ≡ none → HasClient c st → ⊥
no_client c st gone (cl, there) = cc

module _ (n : ℕ) (st : Store) (v : IsCounted n st) (small : suc n < 2 ^ 64) where
  open-Decided :
      (c provider_id stream_id : ℕ) (duplicate : Option ℕ)
      → 1 ≤ c
      → Decided (suc n) (opens c duplicate provider_id stream_id) st
  unfolding perform
  open-Decided c provider_id stream_id duplicate nonnull = elim (Option-cases (st.clients c)) [
    | inl gone ↦
        goes_wrong (opens c duplicate provider_id stream_id) st
          (not_null c nonnull (no_client c st gone))
          (stays_wrong (create_gone st c duplicate provider_id stream_id nonnull gone))
    | inr (cl, there) ↦ elim (Option-cases duplicate) [
      | inl failed ↦
          goes_on (opens c duplicate provider_id stream_id) st (inr (cl, there))
            (rw failed
              (result_dropped (create_no_addr st c provider_id stream_id cl nonnull there)))
            (later n st v)
      | inr (addr, duplicated) ↦
          goes_on (opens c duplicate provider_id stream_id) st (inr (cl, there))
            (rw duplicated
              (result_dropped (create_lem st c addr provider_id stream_id cl nonnull there)))
            (created-IsCounted n st v c addr provider_id stream_id cl there)
    ]
  ]

  share-Decided : (p : ℕ) → 1 ≤ p → Decided (suc n) (shares p) st
  unfolding perform
  share-Decided p nonnull = elim (Option-cases (lookup_handle p st.handles)) [
    | inl gone ↦
        goes_wrong (shares p) st (not_null p nonnull (λ o. cc (o.1)))
          (stays_wrong (incr_gone st p nonnull gone))
    | inr (h, there) ↦
        let bound = Live-lookup st.fresh n p h st.handles v.live there in
        goes_on (shares p) st (inr (h, there)) (result_dropped (incr_lem st p h nonnull there)) (
          changed-IsCounted n st v p h there small (u64 (h.refcount + 1)) (omega (arith, bound))
            (omega (arith, bound)))
  ]

  -- The release of a handle that is there.
  release-Decided :
      (p : ℕ) (h : Handle)
      → 1 ≤ p
      → lookup_handle p st.handles ≡ some h
      → Decided (suc n) (closes p) st
  unfolding perform
  release-Decided p h nonnull there =
      let bound = Live-lookup st.fresh n p h st.handles v.live there in
      elim (ℕ_discrete h.refcount 1) [
        | yes one ↦ elim (Option-cases (st.clients h.client)) [
          | inl gone ↦
              goes_wrong (closes p) st
                (not_null p nonnull (λ o.
                  let same : o.0 ≡ h = cc (o.1, there) in
                  no_client h.client st gone (
                    subst (λ (k : Handle). HasClient k.client st) same
                      (o.2 (ap Handle.refcount same ∙ one)))))
                (stays_wrong (release_late st p h nonnull there one gone))
          | inr (cl, known) ↦
              goes_on (closes p) st (inr (h, there, λ _. (cl, known)))
                (result_dropped (release_last st p h cl nonnull there one known))
                (freed-IsCounted n st v p h there small cl known)
        ]
        | no more ↦
            goes_on (closes p) st (inr (h, there, λ one. absurd (more one)))
              (result_dropped
                (release_shared st p h nonnull there (omega (arith, bound)) (omega (arith, bound))))
              (changed-IsCounted n st v p h there small (u64 (h.refcount + 2 ^ 64 - 1))
                (omega (arith, bound)) (omega (arith, bound)))
      ]

  close-Decided : (p : ℕ) → 1 ≤ p → Decided (suc n) (closes p) st
  unfolding perform
  close-Decided p nonnull = elim (Option-cases (lookup_handle p st.handles)) [
    | inl gone ↦
        goes_wrong (closes p) st (not_null p nonnull (λ o. cc (o.1)))
          (stays_wrong (release_gone st p nonnull gone))
    | inr (h, there) ↦ release-Decided p h nonnull there
  ]

  finalize-Decided : (c : ℕ) → Decided (suc n) (finalizes c) st
  unfolding perform
  finalize-Decided c = elim (Option-cases (st.clients c)) [
    | inl gone ↦
        goes_wrong (finalizes c) st (no_client c st gone) (stays_wrong (finalize_gone st c gone))
    | inr (cl, there) ↦
        goes_on (finalizes c) st ((cl, there)) (result_dropped (finalize_lem st c cl there))
          (finalized-IsCounted n st v c)
  ]

  pub perform-Decided : (call : HandleCall) → Decided (suc n) call st
  unfolding perform
  perform-Decided (opens zero duplicate provider_id stream_id) =
      goes_on (opens 0 duplicate provider_id stream_id) st (inl refl)
        (result_dropped (create_null st duplicate provider_id stream_id)) (later n st v)
  perform-Decided (opens (suc c) duplicate provider_id stream_id) =
      open-Decided (suc c) provider_id stream_id duplicate (omega arith)
  perform-Decided (shares zero) =
      goes_on (shares 0) st (inl refl) (result_dropped (incr_null st)) (later n st v)
  perform-Decided (shares (suc p)) = share-Decided (suc p) (omega arith)
  perform-Decided (closes zero) =
      goes_on (closes 0) st (inl refl) (result_dropped (release_null st)) (later n st v)
  perform-Decided (closes (suc p)) = close-Decided (suc p) (omega arith)
  perform-Decided (finalizes c) = finalize-Decided c
