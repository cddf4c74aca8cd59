-- ===== src/Margo/Addresses.antt =====
-- What the code uses of Margo's addresses of processes: an interface, with what its documentation
-- promises. An address is counted: a lookup and a duplicate take a reference, a free gives one up.
use aggregator.Base.{ℕ, suc, ◌≡◌, ◌≢◌, ◌∙◌, ◌⊎◌, inl, inr, ℕ_discrete, Option, some, arith}
use aggregator.Common.{CString}

pub record Addresses : Type 1 where
  pub Table : Type 0
  -- the references to an address in a Margo instance
  pub references : Table → ℕ → ℕ → ℕ
  -- margo_addr_lookup
  pub addr_lookup : Table → ℕ → CString → Option (ℕ × Table)
  -- margo_addr_dup
  pub addr_dup : Table → ℕ → ℕ → Option (ℕ × Table)
  -- margo_addr_free
  pub addr_free : Table → ℕ → ℕ → Option Table
  pub references-lookup :
      (t u : Table) (mid a : ℕ) (str : CString)
      → addr_lookup t mid str ≡ some (a, u)
      → references u mid a ≡ suc (references t mid a)
  pub references-lookup_other :
      (t u : Table) (mid a j b : ℕ) (str : CString)
      → addr_lookup t mid str ≡ some (a, u)
      → (mid ≢ j) ⊎ (a ≢ b)
      → references u j b ≡ references t j b
  pub references-dup :
      (t u : Table) (mid a b : ℕ)
      → addr_dup t mid a ≡ some (b, u)
      → references u mid b ≡ suc (references t mid b)
  pub references-free :
      (t u : Table) (mid a : ℕ)
      → addr_free t mid a ≡ some u
      → suc (references u mid a) ≡ references t mid a
  pub references-free_other :
      (t u : Table) (mid a j b : ℕ)
      → addr_free t mid a ≡ some u
      → (mid ≢ j) ⊎ (a ≢ b)
      → references u j b ≡ references t j b

module _ ⦃A : Addresses⦄ where
  -- An address that is looked up and freed is referred to as often as before, and so is every other.
  pub references-lookup_free :
      (t u v : A.Table) (mid a : ℕ) (str : CString)
      → A.addr_lookup t mid str ≡ some (a, u)
      → A.addr_free u mid a ≡ some v
      → (j b : ℕ) → A.references v j b ≡ A.references t j b
  references-lookup_free t u v mid a str looked_up freed j b = elim (ℕ_discrete mid j) [
    | no n ↦
        A.references-free_other u v mid a j b freed (inl n)
        ∙ A.references-lookup_other t u mid a j b str looked_up (inl n)
    | yes same ↦ elim (ℕ_discrete a b) [
      | no n ↦
          A.references-free_other u v mid a j b freed (inr n)
          ∙ A.references-lookup_other t u mid a j b str looked_up (inr n)
      | yes same' ↦
          rw (← same, ← same')
            (omega (
              arith,
              A.references-free u v mid a freed,
              A.references-lookup t u mid a str looked_up,
            ))
    ]
  ]
