-- ===== src/Uthash.antt =====
-- The hash table that src/provider.c keeps its streams in. src/uthash.h is a copy of another project's
-- library, so it is an interface here: the macros that the code calls, and what their documentation promises.
-- A table is one whose items have been added under keys that it did not hold, as the documentation asks.
pub mod Assoc
use aggregator.Base.{ℕ, ◌≡◌, List, [], ◌∷◌, ◌++◌, Option, none, some, ◌==◌, if◌then◌else◌}

-- An item is a key and the address of the struct that it stands for.
abbrev pub Item : Type 0
Item = ℕ × ℕ

abbrev pub lookup : ℕ → List Item → Option ℕ
lookup k [] = none
lookup k ((j, p) ∷ items) = if j == k then some p else lookup k items

abbrev pub erase : ℕ → List Item → List Item
erase p [] = []
erase p ((j, q) ∷ items) = if q == p then items else (j, q) ∷ erase p items

pub record Uthash : Type 1 where
  pub Table : Type 0
  -- a head pointer that is NULL
  pub empty : Table
  -- HASH_FIND(hh, head, key, sizeof(key), out)
  pub find : Table → ℕ → Option ℕ
  -- HASH_ADD(hh, head, id, sizeof(id), item)
  pub add : Table → ℕ → ℕ → Table
  -- HASH_DEL(head, item)
  pub del : Table → ℕ → Table
  -- what HASH_ITER(hh, head, el, tmp) goes through: the items in the order of their insertion
  pub items : Table → List Item
  pub items-empty : items empty ≡ []
  pub find-lookup : (t : Table) (k : ℕ) → find t k ≡ lookup k (items t)
  pub items-add :
      (t : Table) (k p : ℕ) → find t k ≡ none → items (add t k p) ≡ items t ++ (k, p) ∷ []
  pub items-del : (t : Table) (k p : ℕ) → find t k ≡ some p → items (del t p) ≡ erase p (items t)
