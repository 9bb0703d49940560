-- ===== src/Prelude/Words.antt =====
-- Machine words: the wrap-around of C's unsigned types, and tests of single bits.
use Prim.Native.Nat.{ℕ, ◌/◌, ◌%◌, ◌^◌}
use mathlib.Core.Bool.{Bool}
use se_l4cp_poc.Prelude.Tests.{◌==◌}

abbrev pub u8 : ℕ → ℕ
u8 n = n % 2 ^ 8

abbrev pub u32 : ℕ → ℕ
u32 n = n % 2 ^ 32

abbrev pub u64 : ℕ → ℕ
u64 n = n % 2 ^ 64

-- `n & (1 << k)` as a condition
abbrev pub test_bit : ℕ → ℕ → Bool
test_bit n k = (n / 2 ^ k) % 2 == 1
