-- ===== src/Programs/Arguments/Decimal.antt =====
-- Provider identifiers in decimal, and what the programs read.
use aggregator.Base.{
  ℕ, zero, suc, ◌+◌, ◌-◌, ◌*◌, ◌/◌, ◌%◌, ◌^◌, ◌≤◌, ◌<◌, ◌≡◌, refl, sym, ap, ◌∙◌, true, [], ◌∷◌,
  ◌++◌, some, All, ltb, if◌then◌else◌, dec_lt, arith, pos,
}
use aggregator.Common.{CString}
use aggregator.Programs.Arguments.{is_digit, read_digits, atoi, converted, provider_id_of}

-- The digits of a number, the first argument being a bound on how many there are.
unfoldable pub decimal : ℕ → ℕ → CString
decimal zero n = []
decimal (suc k) n =
    let front = decimal k (n / 10) in
    if ltb n 10 then (48 + n) ∷ [] else front ++ (48 + n % 10) ∷ []

decimal_small : (k n : ℕ) → n < 10 → decimal (suc k) n ≡ (48 + n) ∷ []
unfolding decimal
decimal_small k n lt = ground arith

decimal_large : (k n : ℕ) → 10 ≤ n → decimal (suc k) n ≡ decimal k (n / 10) ++ (48 + n % 10) ∷ []
unfolding decimal
decimal_large k n le = ground arith

is_digit_lem : (d : ℕ) → d < 10 → is_digit (48 + d) ≡ true
is_digit_lem d lt = ground arith

read_digits-append :
    (xs : CString) (c n : ℕ)
    → All (λ c. is_digit c ≡ true) xs
    → is_digit c ≡ true
    → read_digits n (xs ++ c ∷ []) ≡ read_digits n xs * 10 + (c - 48)
read_digits-append [] c n a d = ground arith
read_digits-append (x ∷ xs) c n a d =
    ground (arith, read_digits-append xs c (n * 10 + (x - 48)) a.1 d)

All-snoc :
    (xs : CString) (c : ℕ)
    → All (λ c. is_digit c ≡ true) xs
    → is_digit c ≡ true
    → All (λ c. is_digit c ≡ true) (xs ++ c ∷ [])
All-snoc [] c a d = (d, tt)
All-snoc (x ∷ xs) c a d = (a.0, All-snoc xs c a.1 d)

decimal-digits : (k n : ℕ) → All (λ c. is_digit c ≡ true) (decimal k n)
unfolding decimal
decimal-digits zero n = tt
decimal-digits (suc k) n = elim (dec_lt n 10) [
  | yes small ↦ rw (decimal_small k n small) (is_digit_lem n small, tt)
  | no large ↦ rw (decimal_large k n (omega arith)) (
      All-snoc (decimal k (n / 10)) (48 + n % 10) (decimal-digits k (n / 10))
        (is_digit_lem (n % 10) (omega arith)))
]

read-decimal : (k n : ℕ) → n < 10 ^ k → read_digits 0 (decimal k n) ≡ n
unfolding decimal
read-decimal zero n lt = omega arith
read-decimal (suc k) n lt = elim (dec_lt n 10) [
  | yes small ↦ rw (decimal_small k n small) (ground (arith, is_digit_lem n small))
  | no large ↦ rw (decimal_large k n (omega arith)) (
      read_digits-append (decimal k (n / 10)) (48 + n % 10) 0 (decimal-digits k (n / 10))
        (is_digit_lem (n % 10) (omega arith))
      ∙ omega (arith, read-decimal k (n / 10) (omega arith)))
]

first_digit :
    (xs : CString) (c : ℕ)
    → All (λ c. is_digit c ≡ true) xs
    → is_digit c ≡ true
    → (h : ℕ) × (rest : CString) × (xs ++ c ∷ [] ≡ h ∷ rest) × (is_digit h ≡ true)
first_digit [] c a d = (c, [], refl, d)
first_digit (x ∷ xs) c a d = (x, xs ++ c ∷ [], refl, a.0)

front-decimal :
    (k n : ℕ) → (c : ℕ) × (rest : CString) × (decimal (suc k) n ≡ c ∷ rest) × (is_digit c ≡ true)
front-decimal k n = elim (dec_lt n 10) [
  | yes small ↦ (48 + n, [], decimal_small k n small, is_digit_lem n small)
  | no large ↦
      let (h, rest, e, d) =
        first_digit (decimal k (n / 10)) (48 + n % 10) (decimal-digits k (n / 10))
          (is_digit_lem (n % 10) (omega arith)) in
      (h, rest, decimal_large k n (omega arith) ∙ e, d)
]

-- A digit is neither a space nor a sign.
atoi_digits :
    (c : ℕ) (rest : CString)
    → is_digit c ≡ true
    → read_digits 0 (c ∷ rest) < 2 ^ 31
    → atoi (c ∷ rest) ≡ some (pos (read_digits 0 (c ∷ rest)))
unfolding atoi
atoi_digits c rest d lt = ground arith

-- A number of at most ten digits that an `int` holds is read from its decimal digits as its remainder
-- by 2^16: the programs read an identifier that fits 16 bits as itself, and cut off a larger one.
provider_id_of-decimal : (n : ℕ) → n < 2 ^ 31 → provider_id_of (decimal 10 n) ≡ some (n % 2 ^ 16)
unfolding provider_id_of
provider_id_of-decimal n lt =
    let (c, rest, digits, d) = front-decimal 9 n in
    let value : read_digits 0 (c ∷ rest) ≡ n =
      ap (read_digits 0) (sym digits) ∙ read-decimal 10 n (omega arith) in
    let whole : atoi (decimal 10 n) ≡ some (pos n) =
      ap atoi digits ∙ atoi_digits c rest d (omega (arith, value)) ∙ ap (λ m. some (pos m)) value in
    ap converted whole
