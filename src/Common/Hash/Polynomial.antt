-- ===== src/Common/Hash/Polynomial.antt =====
-- The rolling hash against its closed form, a polynomial in 33.
use native.Mathlib.Nat.{pow-suc}
use aggregator.Base.{ℕ, ◌+◌, ◌*◌, ◌^◌, ◌<◌, ◌≡◌, ap, ◌∙◌, List, [], ◌∷◌, arith, u32, length}
use aggregator.Common.Hash.{char_to_u32, hash_loop, aggregator_hash}

-- The hash with no wrap: Horner's rule.
horner : ℕ → List ℕ → ℕ
horner h [] = h
horner h (b ∷ s) = horner (h * 33 + char_to_u32 b) s

-- The weight of each character is a power of 33, the last one's is 1.
abbrev pub weighted : List ℕ → ℕ
weighted [] = 0
weighted (b ∷ s) = char_to_u32 b * 33 ^ length s + weighted s

horner-weighted : (h : ℕ) (s : List ℕ) → horner h s ≡ h * 33 ^ length s + weighted s
unfolding horner
horner-weighted h [] = omega arith
horner-weighted h (b ∷ s) = omega (
  arith,
  horner-weighted (h * 33 + char_to_u32 b) s,
  ap (λ (t : ℕ). h * t) (pow-suc 33 (length s)),
)

horner-u32 : (s : List ℕ) (h k : ℕ) → u32 h ≡ u32 k → u32 (horner h s) ≡ u32 (horner k s)
unfolding horner
horner-u32 [] h k e = e
horner-u32 (b ∷ s) h k e = horner-u32 s _ _ (omega arith)

hash_loop-horner : (s : List ℕ) (h : ℕ) → h < 2 ^ 32 → hash_loop h s ≡ u32 (horner h s)
unfolding hash_loop horner
hash_loop-horner [] h p = omega arith
hash_loop-horner (b ∷ s) h p = hash_loop-horner s _ (omega arith) ∙ horner-u32 s _ _ (omega arith)

-- The hash of a string of length n with characters c_1, ..., c_n (sign-extended to 32 bits) is
-- 5381 * 33^n + c_1 * 33^(n-1) + ... + c_n, modulo 2^32, although the code wraps at every step.
pub hash-eq-polynomial :
    (str : List ℕ) → aggregator_hash str ≡ u32 (5381 * 33 ^ length str + weighted str)
unfolding aggregator_hash
hash-eq-polynomial str = hash_loop-horner str 5381 (omega arith) ∙ ap u32 (horner-weighted 5381 str)
