-- ===== src/Base/Monad.antt =====
-- C code over a state, as a monad. `ub` is undefined behaviour, reached in the state that it holds: a
-- read or write through a pointer to no object, or past the end of one.
use mathlib.Core.Path.{◌≡◌, refl}

pub data Outcome (S A : Type 0) : Type 0 where
  done : A → S → Outcome S A
  ub : S → Outcome S A

abbrev pub M : Type 0 → Type 0 → Type 0
M S A = S → Outcome S A

abbrev pub pure : {S A : Type 0} → A → M S A
pure a s = done a s

abbrev pub fault : {S A : Type 0} → M S A
fault s = ub s

abbrev pub and_then : {S A B : Type 0} → (A → M S B) → Outcome S A → Outcome S B
and_then f (done a s) = f a s
and_then f (ub s) = ub s

infixl 5 ◌>>=◌ ◌>>◌
abbrev pub ◌>>=◌ : {S A B : Type 0} → M S A → (A → M S B) → M S B
◌>>=◌ m f s = and_then f (m s)

abbrev pub ◌>>◌ : {S B : Type 0} → M S (Unit {0}) → M S B → M S B
m >> k = m >>= λ _. k

-- The state that an outcome was reached in.
abbrev pub state_of : {S A : Type 0} → Outcome S A → S
state_of (done a s) = s
state_of (ub s) = s

-- Code that ends has ended in its first part.
pub >>=-eq-done :
    {S A B : Type 0} (o : Outcome S A) (f : A → M S B) {b : B} {s : S}
    → and_then f o ≡ done b s
    → (a : A) × (t : S) × (o ≡ done a t) × (f a t ≡ done b s)
>>=-eq-done (done a t) f e = (a, t, refl, e)
>>=-eq-done (ub t) f e = cc

-- The outcome of code on a part of a state, as one on the whole.
abbrev pub relay : {S T A : Type 0} → (S → T) → Outcome S A → Outcome T A
relay f (done a s) = done a (f s)
relay f (ub s) = ub (f s)
