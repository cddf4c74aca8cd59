-- ===== src/Stream/Orders.antt =====
-- Orders in which threads make their calls, the last one first.
use aggregator.Base.{ℕ, ◌≡◌, ◌≢◌, inl, inr, List, [], ◌∷◌, Any, ◌↔◌}

-- The thread is in the sequence.
abbrev pub Among : ℕ → List ℕ → Type 0
Among i order = Any (λ (j : ℕ). j ≡ i) order

abbrev pub Once : List ℕ → Type 0
Once [] = Unit {0}
Once (i ∷ order) = (Among i order → ⊥) × Once order

pub unmoved : (order : List ℕ) (j : ℕ) → Among j order ↔ Among j order
unmoved order j = (λ a. a, λ a. a)

-- Thread `i` comes last.
pub put_last : (order : List ℕ) (i j : ℕ) → i ≢ j → Among j (i ∷ order) ↔ Among j order
put_last order i j n = (λ a. elim a [ inl e ↦ absurd (n e) | inr b ↦ b ], λ b. inr b)
