-- ===== src/Programs/Arguments.antt =====
-- The arguments of the programs: a provider identifier in decimal, which C's `atoi` reads.
pub mod Decimal
use aggregator.Base.{
  ℕ, ◌+◌, ◌-◌, ◌*◌, ◌%◌, ◌^◌, Bool, ◌&&◌, ◌||◌, [], ◌∷◌, Option, none, some, ◌==◌, ltb, leb,
  if◌then◌else◌, ℤ, pos, negsuc,
}
use aggregator.Common.{CString}

abbrev is_space : ℕ → Bool
is_space c = (c == 32) || (leb 9 c && leb c 13)

abbrev pub is_digit : ℕ → Bool
is_digit c = leb 48 c && leb c 57

abbrev skip_spaces : CString → CString
skip_spaces [] = []
skip_spaces (c ∷ str) = let rest = skip_spaces str in if is_space c then rest else c ∷ str

-- The value of the digits at the front, behind the value `n`.
abbrev pub read_digits : ℕ → CString → ℕ
read_digits n [] = n
read_digits n (c ∷ str) =
    let rest = read_digits (n * 10 + (c - 48)) str in if is_digit c then rest else n

-- The value behind the sign, where an `int` holds it; otherwise it is undefined.
abbrev positive : ℕ → Option ℤ
positive n = if ltb n (2 ^ 31) then some (pos n) else none

abbrev negative : ℕ → Option ℤ
negative n = if leb n (2 ^ 31) then some (if n == 0 then pos 0 else negsuc (n - 1)) else none

abbrev signed : CString → Option ℤ
signed [] = some (pos 0)
signed (c ∷ str) =
    if c == 45
    then negative (read_digits 0 str)
    else if c == 43
    then positive (read_digits 0 str)
    else positive (read_digits 0 (c ∷ str))

unfoldable pub atoi : CString → Option ℤ
atoi str = signed (skip_spaces str)

-- The conversion of an `int` to `uint16_t`.
abbrev pub to_uint16 : ℤ → ℕ
to_uint16 (pos n) = n % 2 ^ 16
to_uint16 (negsuc n) = 2 ^ 16 - 1 - n % 2 ^ 16

abbrev pub converted : Option ℤ → Option ℕ
converted none = none
converted (some n) = some (to_uint16 n)

-- The provider identifier that a program reads from its second argument.
unfoldable pub provider_id_of : CString → Option ℕ
unfolding atoi
provider_id_of str = converted (atoi str)
