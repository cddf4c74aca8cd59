-- ===== src/Base/Machine.antt =====
-- C's machine integers: the moduli, and the wrap of the fixed widths.
use Prim.Native.Nat.{ℕ, ◌%◌, ◌^◌}

abbrev pub u32 : ℕ → ℕ
u32 n = n % 2 ^ 32

-- `size_t`
abbrev pub u64 : ℕ → ℕ
u64 n = n % 2 ^ 64
