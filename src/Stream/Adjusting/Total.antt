-- ===== src/Stream/Adjusting/Total.antt =====
-- Concurrent adjustments of a gauge against a sequence of calls.
use aggregator.Base.{
  ℕ, zero, suc, ◌+◌, ◌<◌, ◌≡◌, ◌≢◌, refl, ap, ap₂, subst, ◌∙◌, inl, List, [], ◌∷◌, Option, none,
  some, ◌↔◌, u32, arith, ℕ_discrete,
}
use aggregator.Common.{Sample, stream_buffer_size}
use aggregator.Double.{Double}
use aggregator.Memory.{update, update_self, update_ne}
use aggregator.Stream.History.{history, history-update}
use aggregator.Stream.Gauge.{adjustment}
use aggregator.Stream.Orders.{Among, Once, unmoved, put_last}
use aggregator.Stream.Adjusting.{
  AdjustPc, entering, holding, stored, counted, ended, Gauge, jump, sample_at, AdjustStep,
  take_mutex, store_sample, count_sample, give_mutex, AdjustReach, no_step, one_more,
}

-- The call has counted its sample.
abbrev pub IsRecorded : AdjustPc → Type 0
IsRecorded (entering x) = ⊥
IsRecorded (holding x) = ⊥
IsRecorded (stored x) = ⊥
IsRecorded (counted x) = Unit {0}
IsRecorded (ended x) = Unit {0}

abbrev amount : AdjustPc → Sample
amount (entering x) = x
amount (holding x) = x
amount (stored x) = x
amount (counted x) = x
amount (ended x) = x

-- No step has been taken, nothing is recorded, and each thread is about to make its call.
abbrev pub IsUntouched : Gauge → (ℕ → Sample) → Type 0
IsUntouched g calls = (g.index ≡ 0) × ((i : ℕ) → g.threads i ≡ entering (calls i))

owned_once : {o : Option ℕ} {i j : ℕ} → o ≡ some i → i ≢ j → o ≡ some j → ⊥
owned_once p n q = n (cc)

module _ ⦃F : Double⦄ where
  -- The log after the threads have made their calls, one after the other, the last one's sample first.
  abbrev pub totals : (ℕ → Sample) → List ℕ → List Sample
  totals calls [] = []
  totals calls (i ∷ order) = adjustment (totals calls order) (calls i) ∷ totals calls order

  sample_at-adjustment :
      (buf : ℕ → Sample) (n : ℕ) (x : Sample) → sample_at buf n x ≡ adjustment (history buf n) x
  sample_at-adjustment buf zero x = refl
  sample_at-adjustment buf (suc n) x = ground arith

  module _ (calls : ℕ → Sample) where
    -- What the holder of the mutex knows.
    abbrev Locked : Gauge → List ℕ → ℕ → AdjustPc → Type 0
    Locked g order i (entering x) = Unit {0}
    Locked g order i (holding x) = g.owner ≡ some i
    Locked g order i (stored x) =
        (g.owner ≡ some i)
        × (g.buf g.index ≡ adjustment (totals calls order) (calls i))
        × (g.index < stream_buffer_size)
    Locked g order i (counted x) = g.owner ≡ some i
    Locked g order i (ended x) = Unit {0}

    abbrev Has : Gauge → List ℕ → ℕ → AdjustPc → Type 0
    Has g order i pc = (amount pc ≡ calls i) × (Among i order ↔ IsRecorded pc) × Locked g order i pc

    record IsLogged (g : Gauge) (order : List ℕ) : Type 0 where
      log : history g.buf g.index ≡ totals calls order
      once : Once order
      all : (i : ℕ) → Has g order i (g.threads i)

    -- What the holder knows stays the same, as long as it does not move.
    abbrev Spares : Gauge → Gauge → List ℕ → List ℕ → ℕ → Type 0
    Spares g u before after j =
        g.owner ≡ some j
        → (u.owner ≡ some j)
          × (u.buf u.index ≡ g.buf g.index)
          × (u.index ≡ g.index)
          × (before ≡ after)

    kept_Locked :
        (g u : Gauge) (before after : List ℕ) (j : ℕ)
        → Spares g u before after j
        → (pc : AdjustPc) → Locked g before j pc
        → Locked u after j pc
    kept_Locked g u before after j same (entering x) o = tt
    kept_Locked g u before after j same (holding x) o = (same o).0
    kept_Locked g u before after j same (stored x) o =
        let k = same o.0 in
        (
          k.0,
          k.1 ∙ o.1 ∙ ap (λ order. adjustment (totals calls order) (calls j)) k.3,
          omega (arith, k.2),
        )
    kept_Locked g u before after j same (counted x) o = (same o).0
    kept_Locked g u before after j same (ended x) o = tt

    -- A step of thread `i` keeps what holds of the others.
    moved :
        (g u : Gauge) (before after : List ℕ) (i : ℕ) (pc : AdjustPc)
        → ((j : ℕ) → Has g before j (g.threads j))
        → Has u after i pc
        → ((j : ℕ) → i ≢ j → Among j after ↔ Among j before)
        → ((j : ℕ) → i ≢ j → Spares g u before after j)
        → (j : ℕ) → Has u after j (update g.threads i pc j)
    moved g u before after i pc v mine others same j = elim (ℕ_discrete i j) [
      | yes p ↦
          subst (λ k. Has u after k (update g.threads i pc k)) p
            (rw (update_self g.threads i pc) mine)
      | no n ↦
          let old = v j in
          let both = others j n in
          rw (update_ne g.threads i pc j n) (
            old.0,
            (λ a. old.1.0 (both.0 a), λ r. both.1 (old.1.1 r)),
            kept_Locked g u before after j (same j n) (g.threads j) old.2,
          )
    ]

    step-IsLogged :
        {g u : Gauge}
        → AdjustStep g u
        → (order : List ℕ) → IsLogged g order
        → (after : List ℕ) × IsLogged u after
    step-IsLogged {g} (take_mutex i x e free) order v =
        let mine = subst (Has g order i) e (v.all i) in
        (
          order,
          record {
            log = v.log;
            once = v.once;
            all =
                moved g (jump (record g { owner = some i }) i (holding x)) order order i (holding x)
                  v.all (mine.0, mine.1, refl) (λ j n. unmoved order j) (λ j n o. cc);
          },
        )
    step-IsLogged {g} (store_sample i x e room) order v =
        let mine = subst (Has g order i) e (v.all i) in
        let new = sample_at g.buf g.index x in
        let right : new ≡ adjustment (totals calls order) (calls i) =
          sample_at-adjustment g.buf g.index x ∙ ap₂ adjustment v.log mine.0 in
        (
          order,
          record {
            log = history-update g.buf g.index g.index new (omega arith) ∙ v.log;
            once = v.once;
            all =
                moved g (jump (record g { buf = update g.buf g.index new }) i (stored x)) order
                  order i (stored x) v.all
                  (mine.0, mine.1, (mine.2, update_self g.buf g.index new ∙ right, room))
                  (λ j n. unmoved order j) (λ j n o. absurd (owned_once mine.2 n o));
          },
        )
    step-IsLogged {g} (count_sample i x e) order v =
        let mine = subst (Has g order i) e (v.all i) in
        let held = mine.2 in
        let next : u32 (g.index + 1) ≡ suc g.index = omega (arith, held.2) in
        (
          i ∷ order,
          record {
            log = ap (history g.buf) next ∙ (λ k. held.1 k ∷ v.log k);
            once = (mine.1.0, v.once);
            all =
                moved g (jump (record g { index = u32 (g.index + 1) }) i (counted x)) order
                  (i ∷ order) i (counted x) v.all (mine.0, (λ a. tt, λ r. inl refl), held.0)
                  (λ j n. put_last order i j n) (λ j n o. absurd (owned_once held.0 n o));
          },
        )
    step-IsLogged {g} (give_mutex i x e) order v =
        let mine = subst (Has g order i) e (v.all i) in
        (
          order,
          record {
            log = v.log;
            once = v.once;
            all =
                moved g (jump (record g { owner = none }) i (ended x)) order order i (ended x) v.all
                  (mine.0, mine.1, tt) (λ j n. unmoved order j)
                  (λ j n o. absurd (owned_once mine.2 n o));
          },
        )

    reach-IsLogged :
        {g u : Gauge} → AdjustReach g u → IsLogged g [] → (order : List ℕ) × IsLogged u order
    reach-IsLogged no_step v = ([], v)
    reach-IsLogged (one_more r st) v =
        let before = reach-IsLogged r v in step-IsLogged st before.0 before.1

    untouched-IsLogged : (g : Gauge) → IsUntouched g calls → IsLogged g []
    untouched-IsLogged g v = record {
      log = ap (history g.buf) v.0;
      once = tt;
      all = λ i. rw (v.1 i) (refl, (λ a. absurd a, λ r. absurd r), tt);
    }

  -- However the calls of any number of threads interleave, from an empty gauge and before any has taken the
  -- mutex: there is an order of the threads whose calls have counted their samples, each of them once and
  -- no other thread, so that the gauge's samples are those of these calls made one after the other,
  -- each adding its amount to the last value (the first recording 1).
  pub adjustments_add_up :
      (g u : Gauge) (calls : ℕ → Sample)
      → IsUntouched g calls
      → AdjustReach g u
      → (order : List ℕ) × (history u.buf u.index ≡ totals calls order)
        × Once order
        × ((i : ℕ) → Among i order ↔ IsRecorded (u.threads i))
  adjustments_add_up g u calls start r =
      let (order, logged) = reach-IsLogged calls r (untouched-IsLogged calls g start) in
      (order, logged.log, logged.once, λ i. (logged.all i).1)
