-- ===== src/Stream/Race/Progress.antt =====
-- Which thread can take the next step.
use aggregator.Base.{
  ℕ, ◌<◌, ◌≡◌, ◌≢◌, refl, sym, subst, ap, ◌∙◌, Option, none, some, Bool-cases, Option-cases, inl,
  inr, ℕ_discrete,
}
use aggregator.Common.{stream_buffer_size}
use aggregator.Double.{Double}
use aggregator.Memory.{update, update_self, update_ne}
use aggregator.Stream.Race.{
  Pc, checking, locking, writing_val, writing_time, writing_id, bumping, unlocking, succeeded,
  refused, System, Step, refuses, refuse, accept, lock, write_val, write_time, write_id, bump,
  unlock, Reach, here, then_step,
}
use aggregator.Stream.Race.Exclusion.{IsStart, IsCritical, Inv, Reach-Inv, start-Inv}

-- The call of the thread has not returned.
abbrev pub IsRunning : Pc → Type 0
IsRunning (checking x) = Unit {0}
IsRunning (locking x) = Unit {0}
IsRunning (writing_val x) = Unit {0}
IsRunning (writing_time x) = Unit {0}
IsRunning (writing_id x) = Unit {0}
IsRunning (bumping x) = Unit {0}
IsRunning (unlocking x) = Unit {0}
IsRunning (succeeded x) = ⊥
IsRunning (refused x) = ⊥

-- The holder of the mutex is between lock and unlock.
abbrev Held : System → Type 0
Held s = (k : ℕ) → s.owner ≡ some k → IsCritical (s.threads k)

held_by_mover :
    (s : System) (o : Option ℕ) (i : ℕ) (pc : Pc)
    → (o ≡ some i → IsCritical pc)
    → ((k : ℕ) → i ≢ k → o ≡ some k → IsCritical (s.threads k))
    → (k : ℕ) → o ≡ some k
    → IsCritical (update s.threads i pc k)
held_by_mover s o i pc mine others k e = elim (ℕ_discrete i k) [
  | yes p ↦
      subst (λ j. IsCritical (update s.threads i pc j)) p
        (rw (update_self s.threads i pc) (mine (e ∙ ap some (sym p))))
  | no n ↦ rw (update_ne s.threads i pc k n) (others k n e)
]

-- A thread outside is not the holder.
outside :
    (s : System) (i : ℕ) {pc : Pc}
    → Held s
    → s.threads i ≡ pc
    → (IsCritical pc → ⊥)
    → s.owner ≡ some i
    → ⊥
outside s i v e no_pc o = no_pc (subst IsCritical e (v i o))

module _ ⦃F : Double⦄ where
  Step-Held : {s u : System} → Step s u → Inv s → Held s → Held u
  Step-Held {s} (refuse i x e r) v w =
      held_by_mover s s.owner i (refused x) (outside s i w e (λ c. c)) (λ k n o. w k o)
  Step-Held {s} (accept i x e r) v w =
      held_by_mover s s.owner i (locking x) (outside s i w e (λ c. c)) (λ k n o. w k o)
  Step-Held {s} (lock i x e free) v w =
      held_by_mover s (some i) i (writing_val x) (λ o. tt) (λ k n o. absurd (n (cc)))
  Step-Held {s} (write_val i x e room) v w =
      held_by_mover s s.owner i (writing_time x) (λ o. tt) (λ k n o. w k o)
  Step-Held {s} (write_time i x e room) v w =
      held_by_mover s s.owner i (writing_id x) (λ o. tt) (λ k n o. w k o)
  Step-Held {s} (write_id i x e room) v w =
      held_by_mover s s.owner i (bumping x) (λ o. tt) (λ k n o. w k o)
  Step-Held {s} (bump i x e) v w =
      held_by_mover s s.owner i (unlocking x) (λ o. tt) (λ k n o. w k o)
  Step-Held {s} (unlock i x e) v w = held_by_mover s none i (succeeded x) (λ o. cc) (λ k n o. cc)

  Reach-Held : {s u : System} → Reach s u → Inv s → Held s → Held u
  Reach-Held here v w = w
  Reach-Held (then_step r st) v w = Step-Held st (Reach-Inv r v) (Reach-Held r v w)

  -- A thread between lock and unlock can go on.
  critical-Step :
      (u : System) (k : ℕ) (pc : Pc)
      → u.threads k ≡ pc
      → IsCritical pc
      → u.index < stream_buffer_size
      → (w : System) × Step u w
  critical-Step u k (checking x) e c room = absurd c
  critical-Step u k (locking x) e c room = absurd c
  critical-Step u k (writing_val x) e c room = (_, write_val k x e room)
  critical-Step u k (writing_time x) e c room = (_, write_time k x e room)
  critical-Step u k (writing_id x) e c room = (_, write_id k x e room)
  critical-Step u k (bumping x) e c room = (_, bump k x e)
  critical-Step u k (unlocking x) e c room = (_, unlock k x e)
  critical-Step u k (succeeded x) e c room = absurd c
  critical-Step u k (refused x) e c room = absurd c

  some-Step :
      (u : System) (i : ℕ) (pc : Pc)
      → Held u
      → u.threads i ≡ pc
      → IsRunning pc
      → u.index < stream_buffer_size
      → (w : System) × Step u w
  some-Step u i (checking x) h e r room = elim (Bool-cases (refuses u.type u.buf u.index x.val)) [
    | inl no' ↦ (_, refuse i x e no')
    | inr yes' ↦ (_, accept i x e yes')
  ]
  some-Step u i (locking x) h e r room = elim (Option-cases u.owner) [
    | inl free ↦ (_, lock i x e free)
    | inr (k, o) ↦ critical-Step u k (u.threads k) refl (h k o) room
  ]
  some-Step u i (writing_val x) h e r room = (_, write_val i x e room)
  some-Step u i (writing_time x) h e r room = (_, write_time i x e room)
  some-Step u i (writing_id x) h e r room = (_, write_id i x e room)
  some-Step u i (bumping x) h e r room = (_, bump i x e)
  some-Step u i (unlocking x) h e r room = (_, unlock i x e)
  some-Step u i (succeeded x) h e r room = absurd r
  some-Step u i (refused x) h e r room = absurd r

  -- From a start with a free mutex no interleaving ends in a deadlock: as long as some call has not returned
  -- and the buffer has room, some thread can take a step.
  pub no_deadlock :
      (s u : System) (i : ℕ)
      → IsStart s
      → s.owner ≡ none
      → Reach s u
      → IsRunning (u.threads i)
      → u.index < stream_buffer_size
      → (w : System) × Step u w
  no_deadlock s u i start free r running room =
      some-Step u i (u.threads i) (Reach-Held r (start-Inv s start) (λ k o. cc)) refl running room
