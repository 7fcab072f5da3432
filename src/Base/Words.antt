-- ===== src/Base/Words.antt =====
-- `uint32_t` arithmetic, with the wrap-around written out.
use Prim.Native.Nat.{ℕ, ◌+◌, ◌-◌, ◌%◌, ◌^◌, bit_and}
use mathlib.Core.Bool.{Bool, not}
use blueberry_os.Base.Tests.{◌==◌}

abbrev pub u32 : ℕ → ℕ
u32 x = x % 2 ^ 32

abbrev pub add32 : ℕ → ℕ → ℕ
add32 a b = (a + b) % 2 ^ 32

-- The difference of two words: `-` on ℕ stops at 0, so the modulus is added first.
abbrev pub sub32 : ℕ → ℕ → ℕ
sub32 a b = (a + 2 ^ 32 - b) % 2 ^ 32

abbrev pub u8 : ℕ → ℕ
u8 x = x % 256

-- `x & mask` as a condition.
unfoldable pub flag : ℕ → ℕ → Bool
flag x mask = not (bit_and x mask == 0)
