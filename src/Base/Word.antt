-- ===== src/Base/Word.antt =====
-- Casts to C's fixed widths, shifts, and bit fields written as arithmetic.
-- `Base.Bits` relates the fields to the native `bit_and` and `bit_or`.
use Prim.Native.Nat.{ℕ, ◌+◌, ◌-◌, ◌*◌, ◌/◌, ◌%◌, ◌^◌}
use mathlib.Core.Bool.{Bool}
use nileswan.Base.Tests.{◌!=◌, if◌then◌else◌}

abbrev pub u8 : ℕ → ℕ
u8 n = n % 2 ^ 8

abbrev pub u16 : ℕ → ℕ
u16 n = n % 2 ^ 16

abbrev pub u32 : ℕ → ℕ
u32 n = n % 2 ^ 32

infixl 75 ◌<<<◌ ◌>>>◌
abbrev pub ◌<<<◌ : ℕ → ℕ → ℕ
x <<< k = x * 2 ^ k

abbrev pub ◌>>>◌ : ℕ → ℕ → ℕ
x >>> k = x / 2 ^ k

-- `x & (2^k - 1)`
abbrev pub low_bits : ℕ → ℕ → ℕ
low_bits x k = x % 2 ^ k

-- `x & (((1 << w) - 1) << lo)`
abbrev pub and_field : ℕ → ℕ → ℕ → ℕ
and_field x lo w = x / 2 ^ lo % 2 ^ w * 2 ^ lo

-- `x & ~(((1 << w) - 1) << lo)`
abbrev pub clear_field : ℕ → ℕ → ℕ → ℕ
clear_field x lo w = x - x / 2 ^ lo % 2 ^ w * 2 ^ lo

-- `(x & (1 << k)) != 0`
abbrev pub test_bit : ℕ → ℕ → Bool
test_bit x k = (x / 2 ^ k) % 2 != 0

-- `x | (1 << k)`
abbrev pub set_bit : ℕ → ℕ → ℕ
set_bit x k = x - x / 2 ^ k % 2 * 2 ^ k + 2 ^ k

-- C's `b ? 1 : 0`
abbrev pub flag : Bool → ℕ → ℕ
flag b v = if b then v else 0

-- `a | b` of values with no common bit
abbrev pub join : ℕ → ℕ → ℕ
join a b = a + b

-- `~v`, as far as a 16-bit word goes
abbrev pub not16 : ℕ → ℕ
not16 v = 2 ^ 16 - 1 - v
