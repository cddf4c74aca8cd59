-- ===== src/Stream/Race/Exclusion.antt =====
-- What the mutex protects: the part of a call between lock and unlock.
use aggregator.Base.{
  ℕ, ◌+◌, ◌≤◌, ◌<◌, ◌≡◌, ◌≢◌, refl, ap, subst, ◌∙◌, Option, none, some, u32, arith, ℕ_discrete,
}
use aggregator.Common.{Sample, stream_buffer_size}
use aggregator.Double.{Double}
use aggregator.Memory.{update, update_self, update_ne}
use aggregator.Stream.Race.{
  Pc, checking, locking, writing_val, writing_time, writing_id, bumping, unlocking, succeeded,
  refused, System, goto, set_entry, Step, refuse, accept, lock, write_val, write_time, write_id,
  bump, unlock, Reach, here, then_step,
}

-- The sample stands in the buffer below the index.
abbrev InLog : System → Sample → Type 0
InLog s x = (k : ℕ) × (k < s.index) × (s.buf k ≡ x)

-- What holds of a thread by where it stands.
abbrev pub Owns : System → ℕ → Pc → Type 0
Owns s i (checking x) = Unit {0}
Owns s i (locking x) = Unit {0}
Owns s i (writing_val x) = s.owner ≡ some i
Owns s i (writing_time x) = (s.owner ≡ some i) × (Sample.val (s.buf s.index) ≡ x.val)
Owns s i (writing_id x) =
    (s.owner ≡ some i)
    × (Sample.val (s.buf s.index) ≡ x.val)
    × (Sample.time (s.buf s.index) ≡ x.time)
Owns s i (bumping x) = (s.owner ≡ some i) × (s.buf s.index ≡ x) × (s.index < stream_buffer_size)
Owns s i (unlocking x) = (s.owner ≡ some i) × InLog s x
Owns s i (succeeded x) = InLog s x
Owns s i (refused x) = Unit {0}

abbrev pub Inv : System → Type 0
Inv s = (i : ℕ) → Owns s i (s.threads i)

-- A step of another thread keeps what holds of `j`.
transfer :
    (s u : System) (j : ℕ)
    → ((k : ℕ) → k < s.index → u.buf k ≡ s.buf k)
    → s.index ≤ u.index
    → (s.owner ≡ some j
        → (u.owner ≡ some j) × (u.buf u.index ≡ s.buf s.index) × (u.index ≡ s.index))
    → (pc : Pc) → Owns s j pc
    → Owns u j pc
transfer s u j keep grow same (checking x) o = tt
transfer s u j keep grow same (locking x) o = tt
transfer s u j keep grow same (writing_val x) o = (same o).0
transfer s u j keep grow same (writing_time x) o =
    let k = same o.0 in (k.0, ap Sample.val k.1 ∙ o.1)
transfer s u j keep grow same (writing_id x) o =
    let k = same o.0 in (k.0, ap Sample.val k.1 ∙ o.1, ap Sample.time k.1 ∙ o.2)
transfer s u j keep grow same (bumping x) o =
    let k = same o.0 in (k.0, k.1 ∙ o.1, omega (arith, k.2))
transfer s u j keep grow same (unlocking x) o =
    ((same o.0).0, (o.1.0, omega arith, keep o.1.0 o.1.1 ∙ o.1.2))
transfer s u j keep grow same (succeeded x) o = (o.0, omega arith, keep o.0 o.1 ∙ o.2)
transfer s u j keep grow same (refused x) o = tt

-- The thread that moved, and the others.
moved :
    (u : System) (threads : ℕ → Pc) (i : ℕ) (pc : Pc)
    → Owns u i pc
    → ((j : ℕ) → i ≢ j → Owns u j (threads j))
    → (j : ℕ) → Owns u j (update threads i pc j)
moved u threads i pc mine others j = elim (ℕ_discrete i j) [
  | yes p ↦ subst (λ k. Owns u k (update threads i pc k)) p (rw (update_self threads i pc) mine)
  | no n ↦ rw (update_ne threads i pc j n) (others j n)
]

-- Both at once: `u` is `s` after a step of thread `i`.
advance :
    (s u : System) (i : ℕ) (pc : Pc)
    → Inv s
    → Owns u i pc
    → ((k : ℕ) → k < s.index → u.buf k ≡ s.buf k)
    → s.index ≤ u.index
    → ((j : ℕ)
        → i ≢ j
        → s.owner ≡ some j
        → (u.owner ≡ some j) × (u.buf u.index ≡ s.buf s.index) × (u.index ≡ s.index))
    → (j : ℕ) → Owns u j (update s.threads i pc j)
advance s u i pc v mine keep grow same =
    moved u s.threads i pc mine λ j n. transfer s u j keep grow (same j n) (s.threads j) (v j)

owned_once : {o : Option ℕ} {i j : ℕ} → o ≡ some i → i ≢ j → o ≡ some j → ⊥
owned_once p n q = n (cc)

-- Every thread is before its check.
abbrev pub IsStart : System → Type 0
IsStart s = (i : ℕ) → (x : Sample) × (s.threads i ≡ checking x)

pub start-Inv : (s : System) → IsStart s → Inv s
start-Inv s h i = rw (h i).1 tt

-- Between lock and unlock.
abbrev pub IsCritical : Pc → Type 0
IsCritical (writing_val x) = Unit {0}
IsCritical (writing_time x) = Unit {0}
IsCritical (writing_id x) = Unit {0}
IsCritical (bumping x) = Unit {0}
IsCritical (unlocking x) = Unit {0}
IsCritical (checking x) = ⊥
IsCritical (locking x) = ⊥
IsCritical (succeeded x) = ⊥
IsCritical (refused x) = ⊥

critical-owner : (s : System) (i : ℕ) (pc : Pc) → Owns s i pc → IsCritical pc → s.owner ≡ some i
critical-owner s i (checking x) o c = absurd c
critical-owner s i (locking x) o c = absurd c
critical-owner s i (writing_val x) o c = o
critical-owner s i (writing_time x) o c = o.0
critical-owner s i (writing_id x) o c = o.0
critical-owner s i (bumping x) o c = o.0
critical-owner s i (unlocking x) o c = o.0
critical-owner s i (succeeded x) o c = absurd c
critical-owner s i (refused x) o c = absurd c

-- A write at the index, by the holder of the mutex, leaves what is below.
entry_above :
    (s : System) (entry : Sample) (k : ℕ) → k < s.index → update s.buf s.index entry k ≡ s.buf k
entry_above s entry k h = update_ne s.buf s.index entry k (omega arith)

entry_set :
    (s : System) (entry : Sample) (i : ℕ) (pc : Pc)
    → Inv s
    → s.owner ≡ some i
    → Owns (set_entry s entry) i pc
    → Inv (goto (set_entry s entry) i pc)
entry_set s entry i pc v mine o =
    advance s (goto (set_entry s entry) i pc) i pc v o (entry_above s entry) (omega arith)
      (λ j n e. absurd (owned_once mine n e))

module _ ⦃F : Double⦄ where
  pub Step-Inv : {s u : System} → Step s u → Inv s → Inv u
  Step-Inv {s} (refuse i x e r) v =
      advance s (goto s i (refused x)) i (refused x) v tt (λ k h. refl) (omega arith)
        (λ j n o. (o, refl, refl))
  Step-Inv {s} (accept i x e r) v =
      advance s (goto s i (locking x)) i (locking x) v tt (λ k h. refl) (omega arith)
        (λ j n o. (o, refl, refl))
  Step-Inv {s} (lock i x e free) v =
      advance s (goto (record s { owner = some i }) i (writing_val x)) i (writing_val x) v refl
        (λ k h. refl) (omega arith) (λ j n o. cc)
  Step-Inv {s} (write_val i x e room) v =
      let mine = subst (Owns s i) e (v i) in
      entry_set s (record (s.buf s.index) { val = x.val }) i (writing_time x) v mine
        (mine, ap Sample.val (update_self s.buf s.index _))
  Step-Inv {s} (write_time i x e room) v =
      let mine = subst (Owns s i) e (v i) in
      let entry = update_self s.buf s.index (record (s.buf s.index) { time = x.time }) in
      entry_set s (record (s.buf s.index) { time = x.time }) i (writing_id x) v mine.0
        (mine.0, ap Sample.val entry ∙ mine.1, ap Sample.time entry)
  Step-Inv {s} (write_id i x e room) v =
      let mine = subst (Owns s i) e (v i) in
      entry_set s (record (s.buf s.index) { sample_id = x.sample_id }) i (bumping x) v mine.0
        (
          mine.0,
          update_self s.buf s.index _
              ∙ (λ k. record { time = mine.2 k; val = mine.1 k; sample_id = x.sample_id }),
          room,
        )
  Step-Inv {s} (bump i x e) v =
      let mine = subst (Owns s i) e (v i) in
      advance s (goto (record s { index = u32 (s.index + 1) }) i (unlocking x)) i (unlocking x) v
        (mine.0, (s.index, omega (arith, mine.2), mine.1)) (λ k h. refl) (omega (arith, mine.2))
        (λ j n o. absurd (owned_once mine.0 n o))
  Step-Inv {s} (unlock i x e) v =
      let mine = subst (Owns s i) e (v i) in
      advance s (goto (record s { owner = none }) i (succeeded x)) i (succeeded x) v mine.1
        (λ k h. refl) (omega arith) (λ j n o. absurd (owned_once mine.0 n o))

  pub Reach-Inv : {s u : System} → Reach s u → Inv s → Inv u
  Reach-Inv here v = v
  Reach-Inv (then_step r st) v = Step-Inv st (Reach-Inv r v)

  -- However the calls of any number of threads interleave, from a start where each is before its check, no
  -- two of them are between lock and unlock at once.
  pub mutual_exclusion :
      (s u : System) (i j : ℕ)
      → IsStart s
      → Reach s u
      → IsCritical (u.threads i)
      → IsCritical (u.threads j)
      → i ≡ j
  mutual_exclusion s u i j start r ci cj =
      let v = Reach-Inv r (start-Inv s start) in
      cc (critical-owner u i (u.threads i) (v i) ci, critical-owner u j (u.threads j) (v j) cj)

  -- What was recorded stays.
  abbrev pub Keeps : System → System → Type 0
  Keeps s u = ((k : ℕ) → k < s.index → u.buf k ≡ s.buf k) × (s.index ≤ u.index)

  pub Step-Keeps : {s u : System} → Step s u → Inv s → Keeps s u
  Step-Keeps (refuse i x e r) v = (λ k h. refl, omega arith)
  Step-Keeps (accept i x e r) v = (λ k h. refl, omega arith)
  Step-Keeps (lock i x e free) v = (λ k h. refl, omega arith)
  Step-Keeps {s} (write_val i x e room) v = (entry_above s _, omega arith)
  Step-Keeps {s} (write_time i x e room) v = (entry_above s _, omega arith)
  Step-Keeps {s} (write_id i x e room) v = (entry_above s _, omega arith)
  Step-Keeps {s} (bump i x e) v =
      let mine = subst (Owns s i) e (v i) in (λ k h. refl, omega (arith, mine.2))
  Step-Keeps (unlock i x e) v = (λ k h. refl, omega arith)

  Reach-Keeps : {s u : System} → Reach s u → Inv s → Keeps s u
  Reach-Keeps here v = (λ k h. refl, omega arith)
  Reach-Keeps {s} (then_step {t = t} {u = w} r st) v =
      let a = Reach-Keeps r v in
      let b = Step-Keeps st (Reach-Inv r v) in
      (λ k h. b.0 k (omega (arith, a.1)) ∙ a.0 k h, omega (arith, a.1, b.1))

  -- However the calls of any number of threads interleave, from a start where each is before its check, a
  -- call that has returned success has its sample in the buffer below the index, and what was
  -- recorded before the start is still there.
  no_lost_sample :
      (s u : System) (i : ℕ) (x : Sample)
      → IsStart s
      → Reach s u
      → u.threads i ≡ succeeded x
      → InLog u x × Keeps s u
  no_lost_sample s u i x start r e =
      let v = start-Inv s start in (subst (Owns u i) e (Reach-Inv r v i), Reach-Keeps r v)
