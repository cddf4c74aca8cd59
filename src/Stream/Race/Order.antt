-- ===== src/Stream/Race/Order.antt =====
-- Concurrent updates against the same calls made one after the other.
use aggregator.Base.{
  ℕ, suc, ◌+◌, ◌≡◌, ◌≢◌, refl, sym, ap, subst, inl, ◌∙◌, List, [], ◌∷◌, ◌↔◌, u32, arith, ℕ_discrete,
}
use aggregator.Common.{Sample}
use aggregator.Double.{Double}
use aggregator.Memory.{update, update_self, update_ne}
use aggregator.Stream.History.{history, history-update}
use aggregator.Stream.Orders.{Among, Once, unmoved, put_last}
use aggregator.Stream.Race.{
  Pc, checking, locking, writing_val, writing_time, writing_id, bumping, unlocking, succeeded,
  refused, System, Step, refuse, accept, lock, write_val, write_time, write_id, bump, unlock, Reach,
  here, then_step,
}
use aggregator.Stream.Race.Exclusion.{Owns, Inv, start-Inv, Reach-Inv}

-- The call has counted its sample.
abbrev pub IsRecorded : Pc → Type 0
IsRecorded (checking x) = ⊥
IsRecorded (locking x) = ⊥
IsRecorded (writing_val x) = ⊥
IsRecorded (writing_time x) = ⊥
IsRecorded (writing_id x) = ⊥
IsRecorded (bumping x) = ⊥
IsRecorded (unlocking x) = Unit {0}
IsRecorded (succeeded x) = Unit {0}
IsRecorded (refused x) = ⊥

abbrev given : Pc → Sample
given (checking x) = x
given (locking x) = x
given (writing_val x) = x
given (writing_time x) = x
given (writing_id x) = x
given (bumping x) = x
given (unlocking x) = x
given (succeeded x) = x
given (refused x) = x

module _ (calls : ℕ → Sample) where
  -- The samples of the threads in this order, on top of a log.
  abbrev pub logged : List Sample → List ℕ → List Sample
  logged base [] = base
  logged base (i ∷ order) = calls i ∷ logged base order

  abbrev Has : List ℕ → ℕ → Pc → Type 0
  Has order i pc = (given pc ≡ calls i) × (Among i order ↔ IsRecorded pc)

  record IsLogged (base : List Sample) (u : System) (order : List ℕ) : Type 0 where
    log : history u.buf u.index ≡ logged base order
    once : Once order
    all : (i : ℕ) → Has order i (u.threads i)

  -- A step of thread `i` keeps what holds of the others.
  moved :
      (threads : ℕ → Pc) (before after : List ℕ) (i : ℕ) (pc : Pc)
      → ((j : ℕ) → Has before j (threads j))
      → Has after i pc
      → ((j : ℕ) → i ≢ j → Among j after ↔ Among j before)
      → (j : ℕ) → Has after j (update threads i pc j)
  moved threads before after i pc v mine others j = elim (ℕ_discrete i j) [
    | yes p ↦
        subst (λ k. Has after k (update threads i pc k)) p (rw (update_self threads i pc) mine)
    | no n ↦
        let old = v j in
        let both = others j n in
        rw (update_ne threads i pc j n) (old.0, (λ a. old.1.0 (both.0 a), λ r. both.1 (old.1.1 r)))
  ]

  -- A step that counts nothing.
  same_order :
      {base : List Sample} {order : List ℕ} (s u : System) (i : ℕ) (old new : Pc)
      → IsLogged base s order
      → s.threads i ≡ old
      → (given old ≡ given new)
      → (IsRecorded old ↔ IsRecorded new)
      → ((j : ℕ) → u.threads j ≡ update s.threads i new j)
      → history u.buf u.index ≡ history s.buf s.index
      → IsLogged base u order
  same_order {order = order} s u i old new v e sample mark threads log =
      let mine = subst (Has order i) e (v.all i) in
      record {
        log = log ∙ v.log;
        once = v.once;
        all = λ j. rw (threads j) (
            moved s.threads order order i new v.all
              (sym sample ∙ mine.0, (λ a. mark.0 (mine.1.0 a), λ r. mine.1.1 (mark.1 r)))
              (λ k n. unmoved order k) j);
      }

  entry_open :
      (s : System) (entry : Sample)
      → history (update s.buf s.index entry) s.index ≡ history s.buf s.index
  entry_open s entry = history-update s.buf s.index s.index entry (omega arith)

  alike : {A : Type 0} → A ↔ A
  alike = (λ a. a, λ a. a)

  module _ ⦃F : Double⦄ (base : List Sample) where
    Step-IsLogged :
        {s u : System}
        → Step s u
        → Inv s
        → (order : List ℕ) → IsLogged base s order
        → (after : List ℕ) × IsLogged base u after
    Step-IsLogged {s} {u} (refuse i x e r) w order v =
        (order, same_order s u i (checking x) (refused x) v e refl alike (λ j. refl) refl)
    Step-IsLogged {s} {u} (accept i x e r) w order v =
        (order, same_order s u i (checking x) (locking x) v e refl alike (λ j. refl) refl)
    Step-IsLogged {s} {u} (lock i x e free) w order v =
        (order, same_order s u i (locking x) (writing_val x) v e refl alike (λ j. refl) refl)
    Step-IsLogged {s} {u} (write_val i x e room) w order v = (
      order,
      same_order s u i (writing_val x) (writing_time x) v e refl alike (λ j. refl) (entry_open s _),
    )
    Step-IsLogged {s} {u} (write_time i x e room) w order v = (
      order,
      same_order s u i (writing_time x) (writing_id x) v e refl alike (λ j. refl) (entry_open s _),
    )
    Step-IsLogged {s} {u} (write_id i x e room) w order v = (
      order,
      same_order s u i (writing_id x) (bumping x) v e refl alike (λ j. refl) (entry_open s _),
    )
    Step-IsLogged {s} (bump i x e) w order v =
        let mine = subst (Has order i) e (v.all i) in
        let held = subst (Owns s i) e (w i) in
        let next : u32 (s.index + 1) ≡ suc s.index = omega (arith, held.2) in
        (
          i ∷ order,
          record {
            log = ap (history s.buf) next ∙ (λ k. (held.1 ∙ mine.0) k ∷ v.log k);
            once = (mine.1.0, v.once);
            all =
                moved s.threads order (i ∷ order) i (unlocking x) v.all
                  (mine.0, (λ a. tt, λ r. inl refl)) (λ j n. put_last order i j n);
          },
        )
    Step-IsLogged {s} {u} (unlock i x e) w order v =
        (order, same_order s u i (unlocking x) (succeeded x) v e refl alike (λ j. refl) refl)

    Reach-IsLogged :
        {s u : System}
        → Reach s u
        → Inv s
        → IsLogged base s []
        → (order : List ℕ) × IsLogged base u order
    Reach-IsLogged here w v = ([], v)
    Reach-IsLogged (then_step r st) w v =
        let before = Reach-IsLogged r w v in Step-IsLogged st (Reach-Inv r w) before.0 before.1

module _ ⦃F : Double⦄ where
  -- However the calls of any number of threads interleave, from a start where each is before its check: there
  -- is an order of the threads whose calls have counted their samples, each of them once and no other
  -- thread, so that the samples of the stream are those of the start followed by the whole samples of
  -- these calls in that order. A call that has returned success is among them, and one that was
  -- refused is not.
  pub updates_in_order :
      (s u : System) (calls : ℕ → Sample)
      → ((i : ℕ) → s.threads i ≡ checking (calls i))
      → Reach s u
      → (order : List ℕ) × (history u.buf u.index ≡ logged calls (history s.buf s.index) order)
        × Once order
        × ((i : ℕ) → Among i order ↔ IsRecorded (u.threads i))
  updates_in_order s u calls start r =
      let base = history s.buf s.index in
      let untouched : IsLogged calls base s [] = record {
        log = refl;
        once = tt;
        all = λ i. rw (start i) (refl, (λ a. absurd a, λ r'. absurd r'));
      } in
      let (order, found) =
        Reach-IsLogged calls base r (start-Inv s (λ i. (calls i, start i))) untouched in
      (order, found.log, found.once, λ i. (found.all i).1)
