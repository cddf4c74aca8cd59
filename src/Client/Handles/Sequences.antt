-- ===== src/Client/Handles/Sequences.antt =====
-- Any sequence of calls on clients and handles.
use aggregator.Base.{
  ℕ, suc, ◌+◌, ◌^◌, ◌<◌, ◌≡◌, refl, sym, ap, subst, ◌∙◌, ◌↔◌, inl, inr, List, [], ◌∷◌, arith, M,
  done, ub, pure, ◌>>◌, and_then, length,
}
use aggregator.Client.Handles.{Store}
use aggregator.Client.Handles.Counts.{IsCounted}
use aggregator.Client.Handles.Decisions.{HandleCall, perform, IsProper, perform-Decided}

-- The calls one after another, as far as they are defined.
unfoldable pub perform_all : List HandleCall → M Store (Unit {0})
perform_all [] = pure tt
perform_all (call ∷ calls) = perform call >> perform_all calls

-- Each call refers to objects that are there in its turn.
abbrev pub AllProper : List HandleCall → Store → Type 0
AllProper [] st = Unit {0}
AllProper (call ∷ calls) st =
    IsProper call st × ((t : Store) → perform call st ≡ done tt t → AllProper calls t)

-- Let a store count handles right, with at most n references to each. Any sequence of calls that create,
-- share and release handles and finalize clients, refused ones included, whose length with n
-- stays below 2^64, has no undefined behaviour exactly where each call in its turn refers to
-- objects that are there, the last release of a handle to its client too. Then every client that
-- is left still counts exactly its handles, and every handle that is left has a reference, and
-- at most n and one for each call.
pub perform_all-IsCounted :
    (calls : List HandleCall) (n : ℕ) (st : Store)
    → IsCounted n st
    → n + length calls < 2 ^ 64
    → AllProper calls st
      ↔ ((t : Store) × (perform_all calls st ≡ done tt t) × IsCounted (n + length calls) t)
unfolding perform_all
perform_all-IsCounted [] n st v small =
    (λ _. (st, refl, subst (λ m. IsCounted m st) (omega arith) v), λ _. tt)
perform_all-IsCounted (call ∷ calls) n st v small =
    elim (perform-Decided n st v (omega arith) call) [
      | inl (proper, (mid, first, counted)) ↦
          let rest = perform_all-IsCounted calls (suc n) mid counted (omega arith) in
          let next : perform_all (call ∷ calls) st ≡ perform_all calls mid =
            ap (and_then (λ _. perform_all calls)) first in
          let count : suc n + length calls ≡ n + length (call ∷ calls) = omega arith in
          (
            λ all.
                let (t, ends, right) = rest.0 (all.1 mid first) in
                (t, next ∙ ends, subst (λ m. IsCounted m t) count right),
            λ r. (
              proper,
              λ t e.
                  let same : mid ≡ t = cc in
                  let counted' = subst (λ m. IsCounted m r.0) (sym count) r.2 in
                  subst (AllProper calls) same (rest.1 (r.0, sym next ∙ r.1, counted')),
            ),
          )
      | inr (improper, (t, wrong)) ↦
          let next : perform_all (call ∷ calls) st ≡ ub t =
            ap (and_then (λ _. perform_all calls)) wrong in
          (λ all. absurd (improper all.0), λ r. absurd (cc (next, r.1)))
    ]
