-- ===== src/Margo/Directory.antt =====
-- Counted addresses that keep the promises: a function from instances and addresses to counts. The
-- address of a process is the length of its name.
use aggregator.Base.{
  ℕ, zero, suc, ◌≡◌, ◌≢◌, refl, ap, ◌∙◌, ◌⊎◌, inl, inr, ◌&&◌, Option, none, some, ◌==◌,
  if◌then◌else◌, length, arith,
}
use aggregator.Margo.Addresses.{Addresses}

abbrev pub Counts : Type 0
Counts = ℕ → ℕ → ℕ

abbrev pub set_count : Counts → ℕ → ℕ → ℕ → Counts
set_count t mid a n j b = if (mid == j) && (a == b) then n else t j b

abbrev pub taken : Counts → ℕ → ℕ → Counts
taken t mid a = set_count t mid a (suc (t mid a))

abbrev pub given_up : Counts → ℕ → ℕ → ℕ → Option Counts
given_up t mid a zero = none
given_up t mid a (suc n) = some (set_count t mid a n)

pub set_count_self : (t : Counts) (mid a n : ℕ) → set_count t mid a n mid a ≡ n
set_count_self t mid a n = ground arith

pub set_count_other :
    (t : Counts) (mid a n j b : ℕ) → (mid ≢ j) ⊎ (a ≢ b) → set_count t mid a n j b ≡ t j b
set_count_other t mid a n j b (inl d) = ground arith
set_count_other t mid a n j b (inr d) = ground arith

pub taken_self :
    (t u : Counts) (mid a b : ℕ)
    → ◌≡◌ {A = Option (ℕ × Counts)} (some (a, taken t mid a)) (some (b, u))
    → u mid b ≡ suc (t mid b)
taken_self t u mid a b e =
    let address : a ≡ b = cc in
    let table : taken t mid a ≡ u = cc in
    rw (← table, ← address) (set_count_self t mid a (suc (t mid a)))

pub taken_other :
    (t u : Counts) (mid a b j c : ℕ)
    → ◌≡◌ {A = Option (ℕ × Counts)} (some (a, taken t mid a)) (some (b, u))
    → (mid ≢ j) ⊎ (b ≢ c)
    → u j c ≡ t j c
taken_other t u mid a b j c e d =
    let address : a ≡ b = cc in
    let table : taken t mid a ≡ u = cc in
    rw (← table, address) (set_count_other t mid b (suc (t mid b)) j c d)

pub given_up_self :
    (t u : Counts) (mid a n : ℕ)
    → n ≡ t mid a
    → given_up t mid a n ≡ some u
    → suc (u mid a) ≡ t mid a
given_up_self t u mid a zero e f = cc
given_up_self t u mid a (suc n) e f =
    let table : set_count t mid a n ≡ u = cc in rw (← table) (ap suc (set_count_self t mid a n) ∙ e)

pub given_up_other :
    (t u : Counts) (mid a n j b : ℕ)
    → given_up t mid a n ≡ some u
    → (mid ≢ j) ⊎ (a ≢ b)
    → u j b ≡ t j b
given_up_other t u mid a zero j b f d = cc
given_up_other t u mid a (suc n) j b f d =
    let table : set_count t mid a n ≡ u = cc in rw (← table) (set_count_other t mid a n j b d)

abbrev pub directory : Addresses
directory = record {
  Table = Counts;
  references = λ t mid a. t mid a;
  addr_lookup = λ t mid str. some (length str, taken t mid (length str));
  addr_dup = λ t mid a. some (a, taken t mid a);
  addr_free = λ t mid a. given_up t mid a (t mid a);
  references-lookup = λ t u mid a str e. taken_self t u mid (length str) a e;
  references-lookup_other = λ t u mid a j b str e d. taken_other t u mid (length str) a j b e d;
  references-dup = λ t u mid a b e. taken_self t u mid a b e;
  references-free = λ t u mid a e. given_up_self t u mid a (t mid a) refl e;
  references-free_other = λ t u mid a j b e d. given_up_other t u mid a (t mid a) j b e d;
}
