-- ===== src/Common/Hash/Identifier.antt =====
-- What the identifier of a stream depends on.
use mathlib.Core.List.{Perm, Permᴰ}
use mathlib.Core.Logic.{∥∥₁_elim}
use native.Mathlib.Nat.{ℕ_set}
use aggregator.Base.{
  ℕ, ◌^◌, ◌<◌, bit_xor, bit_xor_comm, bit_xor_assoc, bit_xor_self, zero-bit_xor, bit_xor-zero,
  bit_xor-lt, ◌≡◌, refl, sym, ap, ◌∙◌, List, [], ◌∷◌, Option, some, arith, length,
}
use aggregator.Common.Hash.{aggregator_hash, hash_loop, xor_tags, id_from_string_identifiers}

-- The exclusive or of the hashes of all the tags.
abbrev pub tags_hash : List (List ℕ) → ℕ
tags_hash [] = 0
tags_hash (t ∷ ts) = bit_xor (aggregator_hash t) (tags_hash ts)

-- With as many tags as `num_tags` says, the loop reads nothing out of range and folds them all.
xor_tags_lem :
    (tags : List (List ℕ)) (id : ℕ)
    → xor_tags tags (length tags) id ≡ some (bit_xor id (tags_hash tags))
unfolding xor_tags
xor_tags_lem [] id = rw bit_xor-zero
xor_tags_lem (t ∷ ts) id =
    xor_tags_lem ts _ ∙ ap some (bit_xor_assoc id (aggregator_hash t) (tags_hash ts))

id_lem :
    (ns name : List ℕ) (tags : List (List ℕ))
    → id_from_string_identifiers ns name tags (length tags)
      ≡ some (bit_xor (bit_xor (aggregator_hash ns) (aggregator_hash name)) (tags_hash tags))
unfolding id_from_string_identifiers
id_lem ns name tags = xor_tags_lem tags _

-- Two hashes trade places in front of a third.
xor_left_comm : (a b c : ℕ) → bit_xor a (bit_xor b c) ≡ bit_xor b (bit_xor a c)
xor_left_comm a b c =
    sym (bit_xor_assoc a b c) ∙ ap (λ (t : ℕ). bit_xor t c) (bit_xor_comm a b) ∙ bit_xor_assoc b a c

xor_cancel : (a b : ℕ) → bit_xor a (bit_xor a b) ≡ b
xor_cancel a b =
    sym (bit_xor_assoc a a b) ∙ ap (λ (t : ℕ). bit_xor t b) (bit_xor_self a) ∙ zero-bit_xor b

tags_hash-permᴰ : {xs ys : List (List ℕ)} → Permᴰ xs ys → tags_hash xs ≡ tags_hash ys
tags_hash-permᴰ Permᴰ.nil = refl
tags_hash-permᴰ (Permᴰ.cons e p) = cc (tags_hash-permᴰ p)
tags_hash-permᴰ (Permᴰ.swap {a} {b} {l} e f) =
    xor_left_comm (aggregator_hash a) (aggregator_hash b) (tags_hash l) ∙ cc
tags_hash-permᴰ (Permᴰ.trans p q) = tags_hash-permᴰ p ∙ tags_hash-permᴰ q

-- The identifier does not depend on the order of the tags.
pub id-perm :
    (ns name : List ℕ) {xs ys : List (List ℕ)}
    → Perm xs ys
    → id_from_string_identifiers ns name xs (length xs)
      ≡ id_from_string_identifiers ns name ys (length ys)
id-perm ns name {xs} {ys} p =
    id_lem ns name xs
    ∙ ap (λ (t : ℕ). some (bit_xor (bit_xor (aggregator_hash ns) (aggregator_hash name)) t))
        (∥∥₁_elim p (ℕ_set _ _) tags_hash-permᴰ)
    ∙ sym (id_lem ns name ys)

-- A tag given twice cancels out, and so do a namespace and a name that are the same: then only the other
-- tags decide. A namespace and a name may also trade places.
pub id_collisions :
    (ns name tag : List ℕ) (tags : List (List ℕ))
    → (id_from_string_identifiers ns name (tag ∷ tag ∷ tags) (length (tag ∷ tag ∷ tags))
        ≡ id_from_string_identifiers ns name tags (length tags))
      × (id_from_string_identifiers ns name tags (length tags)
          ≡ id_from_string_identifiers name ns tags (length tags))
      × (id_from_string_identifiers ns ns tags (length tags) ≡ some (tags_hash tags))
id_collisions ns name tag tags = (
  id_lem ns name (tag ∷ tag ∷ tags)
      ∙ ap folded (xor_cancel (aggregator_hash tag) (tags_hash tags))
      ∙ sym (id_lem ns name tags),
  id_lem ns name tags
      ∙ ap (λ (t : ℕ). some (bit_xor t (tags_hash tags)))
          (bit_xor_comm (aggregator_hash ns) (aggregator_hash name))
      ∙ sym (id_lem name ns tags),
  id_lem ns ns tags
      ∙ ap (λ (t : ℕ). some (bit_xor t (tags_hash tags))) (bit_xor_self (aggregator_hash ns))
      ∙ ap some (zero-bit_xor (tags_hash tags)),
)
  where
    folded : ℕ → Option ℕ
    folded t = some (bit_xor (bit_xor (aggregator_hash ns) (aggregator_hash name)) t)

hash_loop-lt : (s : List ℕ) (h : ℕ) → h < 2 ^ 32 → hash_loop h s < 2 ^ 32
unfolding hash_loop
hash_loop-lt [] h p = p
hash_loop-lt (b ∷ s) h p = hash_loop-lt s _ (omega arith)

hash-lt : (s : List ℕ) → aggregator_hash s < 2 ^ 32
unfolding aggregator_hash
hash-lt s = hash_loop-lt s 5381 (omega arith)

tags_hash-lt : (tags : List (List ℕ)) → tags_hash tags < 2 ^ 32
tags_hash-lt [] = omega arith
tags_hash-lt (t ∷ ts) = bit_xor-lt 32 _ _ (hash-lt t) (tags_hash-lt ts)

-- With as many tags as `num_tags` says the identifier is computed with no read out of range, and fits 32
-- bits.
pub id-total :
    (ns name : List ℕ) (tags : List (List ℕ))
    → (id : ℕ) × (id_from_string_identifiers ns name tags (length tags) ≡ some id) × (id < 2 ^ 32)
id-total ns name tags = (
  _,
  id_lem ns name tags,
  bit_xor-lt 32 _ _ (bit_xor-lt 32 _ _ (hash-lt ns) (hash-lt name)) (tags_hash-lt tags),
)
