-- ===== src/Base/Bits.antt =====
-- The native bit operations, digit by digit: what the arithmetic fields of `Base.Word` stand for.
pub mod Words
use Prim.Native.Nat.{ℕ, zero, suc, ◌+◌, ◌-◌, ◌*◌, ◌/◌, ◌%◌, ◌^◌, ◌≤◌, ◌<◌, min, max}
use Prim.Native.Nat.{bit_and, bit_or, digits, bitwise, bit_and-bitwise, bit_or-bitwise}
use mathlib.Core.Path.{◌≡◌, refl, ap, sym, ◌∙◌}
use mathlib.Core.Bool.{Bool, true, ◌&&◌, ◌||◌}
use native.Mathlib.Nat.{le_refl, pow-suc, one-le-pow, mul_comm, div-div-eq-div-mul}
use native.Mathlib.Omega.{arith}
use nileswan.Base.Word.{test_bit, and_field}

-- A test of every number below `top`, run by evaluation.
unfoldable pub all_below : ℕ → (ℕ → Bool) → Bool
all_below zero test = true
all_below (suc top) test = all_below top test && test top

pub all_below_sound :
    (top : ℕ) (test : ℕ → Bool) (v : ℕ) → all_below top test ≡ true → v < top → test v ≡ true
unfolding all_below
all_below_sound zero test v passed small = absurd (omega arith)
all_below_sound (suc top) test v passed small = ground (arith, all_below_sound top test v)

-- The meaning of the native operations, `bitwise`, has fuel: the first operand, which is enough.
module _ (rest : ℕ → ℕ) (digit : ℕ → ℕ → ℕ) where
  digits-zero : (fuel b : ℕ) → digits rest digit fuel 0 b ≡ rest b
  digits-zero zero b = refl
  digits-zero (suc fuel) b = refl

  digits_spare :
      (spare fuel a b : ℕ)
      → a ≤ fuel
      → digits rest digit (fuel + spare) a b ≡ digits rest digit fuel a b
  digits_spare spare fuel zero b h = digits-zero (fuel + spare) b ∙ sym (digits-zero fuel b)
  digits_spare spare zero (suc a) b h = absurd (omega arith)
  digits_spare spare (suc fuel) (suc a) b h =
      let count : suc fuel + spare ≡ suc (fuel + spare) = omega arith in
      ap (λ n. digits rest digit n (suc a) b) count
      ∙ ap (λ high. high * 2 + digit (suc a % 2) (b % 2))
          (digits_spare spare fuel (suc a / 2) (b / 2) (omega arith))

  pub bitwise-suc :
      (a b : ℕ)
      → bitwise rest digit (suc a) b
        ≡ bitwise rest digit (suc a / 2) (b / 2) * 2 + digit (suc a % 2) (b % 2)
  bitwise-suc a b =
      let half = suc a / 2 in
      let enough : half + (a - half) ≡ a = omega arith in
      ap (λ high. high * 2 + digit (suc a % 2) (b % 2))
        (sym (ap (λ fuel. digits rest digit fuel half (b / 2)) enough)
          ∙ digits_spare (a - half) half half (b / 2) (omega arith))

pub bit_or_halves : (a b : ℕ) → bit_or a b ≡ bit_or (a / 2) (b / 2) * 2 + max (a % 2) (b % 2)
bit_or_halves zero b = simp bit_or-bitwise (omega arith)
bit_or_halves (suc a) b = simp bit_or-bitwise (bitwise-suc (λ y. y) max a b)

pub bit_and_halves : (a b : ℕ) → bit_and a b ≡ bit_and (a / 2) (b / 2) * 2 + min (a % 2) (b % 2)
bit_and_halves zero b = simp bit_and-bitwise (omega arith)
bit_and_halves (suc a) b = simp bit_and-bitwise (bitwise-suc (λ y. 0) min a b)

pub half-pow : (x k : ℕ) → x / 2 ^ suc k ≡ x / 2 / 2 ^ k
half-pow x k = rw (pow-suc 2 k, mul_comm (2 ^ k) 2, ← div-div-eq-div-mul x 2 (2 ^ k))

-- A digit of `a & b` is the smaller of the digits of `a` and `b`.
pub bit_and_digit : (k a b : ℕ) → bit_and a b / 2 ^ k % 2 ≡ min (a / 2 ^ k % 2) (b / 2 ^ k % 2)
bit_and_digit zero a b = ground (arith, bit_and_halves a b)
bit_and_digit (suc k) a b =
    rw (half-pow (bit_and a b) k, half-pow a k, half-pow b k)
      (let half : bit_and a b / 2 ≡ bit_and (a / 2) (b / 2) = omega (arith, bit_and_halves a b) in
        rw half (bit_and_digit k (a / 2) (b / 2)))

-- A digit of `a | b` is the larger of the digits of `a` and `b`.
pub bit_or_digit : (k a b : ℕ) → bit_or a b / 2 ^ k % 2 ≡ max (a / 2 ^ k % 2) (b / 2 ^ k % 2)
bit_or_digit zero a b = ground (arith, bit_or_halves a b)
bit_or_digit (suc k) a b =
    rw (half-pow (bit_or a b) k, half-pow a k, half-pow b k)
      (let half : bit_or a b / 2 ≡ bit_or (a / 2) (b / 2) = omega (arith, bit_or_halves a b) in
        rw half (bit_or_digit k (a / 2) (b / 2)))

-- The tests of the bits of `a & b` and `a | b`.
pub test_bit-bit_and : (k a b : ℕ) → test_bit (bit_and a b) k ≡ (test_bit a k && test_bit b k)
test_bit-bit_and k a b = ground (arith, bit_and_digit k a b)

pub test_bit-bit_or : (k a b : ℕ) → test_bit (bit_or a b) k ≡ (test_bit a k || test_bit b k)
test_bit-bit_or k a b = ground (arith, bit_or_digit k a b)

bit_and-zero : (n a : ℕ) → a ≤ n → bit_and a 0 ≡ 0
bit_and-zero n zero h = refl
bit_and-zero zero (suc a) h = absurd (omega arith)
bit_and-zero (suc n) (suc a) h =
    omega (arith, bit_and_halves (suc a) 0, bit_and-zero n (suc a / 2) (omega arith))

pub twice-pow : (q k : ℕ) → q * 2 ^ suc k ≡ 2 * (q * 2 ^ k)
twice-pow q k = omega (arith, ap (λ (t : ℕ). q * t) (pow-suc 2 k))

mask_keeps_rest : (k q r : ℕ) → r < 2 ^ k → bit_and (q * 2 ^ k + r) (2 ^ k - 1) ≡ r
mask_keeps_rest zero q r h = omega (arith, bit_and-zero (q * 2 ^ 0 + r) (q * 2 ^ 0 + r) (le_refl _))
mask_keeps_rest (suc k) q r h = ground (
  arith,
  bit_and_halves (q * 2 ^ suc k + r) (2 ^ suc k - 1),
  twice-pow q k,
  pow-suc 2 k,
  mask_keeps_rest k q (r / 2) (omega (arith, pow-suc 2 k)),
)

-- A mask of `k` low bits is the remainder by `2 ^ k`.
pub bit_and_mask : (k a : ℕ) → bit_and a (2 ^ k - 1) ≡ a % 2 ^ k
bit_and_mask k a = ground (arith, one-le-pow k 2, mask_keeps_rest k (a / 2 ^ k) (a % 2 ^ k))

-- A mask of `w` bits from `lo` on is the field of `Base.Word`.
pub bit_and-and_field : (lo w a : ℕ) → bit_and a ((2 ^ w - 1) * 2 ^ lo) ≡ and_field a lo w
bit_and-and_field zero w a =
    let unshifted : (2 ^ w - 1) * 2 ^ 0 ≡ 2 ^ w - 1 = omega arith in
    let whole : a / 2 ^ 0 ≡ a = omega arith in
    rw (unshifted, and_field, whole, bit_and_mask w a) (omega arith)
bit_and-and_field (suc lo) w a = ground (
  arith,
  bit_and_halves a ((2 ^ w - 1) * 2 ^ suc lo),
  twice-pow (2 ^ w - 1) lo,
  half-pow a lo,
  twice-pow (a / 2 / 2 ^ lo % 2 ^ w) lo,
  bit_and-and_field lo w (a / 2),
)

-- `&` stays below its first operand.
pub bit_and-le : (a b : ℕ) → bit_and a b ≤ a
bit_and-le a b = go a a b (le_refl a)
  where
    go : (n x y : ℕ) → x ≤ n → bit_and x y ≤ x
    go n zero y h = omega (arith, bit_and_halves zero y, bit_and-bitwise 0 y)
    go zero (suc x) y h = absurd (omega arith)
    go (suc n) (suc x) y h =
        omega (arith, bit_and_halves (suc x) y, go n (suc x / 2) (y / 2) (omega arith))

-- `|` stays below a power of two that both operands are below.
pub bit_or-lt : (k a b : ℕ) → a < 2 ^ k → b < 2 ^ k → bit_or a b < 2 ^ k
bit_or-lt zero zero zero p q = omega arith
bit_or-lt zero zero (suc b) p q = absurd (omega arith)
bit_or-lt zero (suc a) b p q = absurd (omega arith)
bit_or-lt (suc k) a b p q = omega (
  arith,
  bit_or_halves a b,
  pow-suc 2 k,
  bit_or-lt k (a / 2) (b / 2) (omega (arith, pow-suc 2 k)) (omega (arith, pow-suc 2 k)),
)

-- `&` stays below its second operand too.
pub bit_and-le_right : (a b : ℕ) → bit_and a b ≤ b
bit_and-le_right a b = go a a b (le_refl a)
  where
    go : (n x y : ℕ) → x ≤ n → bit_and x y ≤ y
    go n zero y h = omega (arith, bit_and_halves zero y, bit_and-bitwise 0 y)
    go zero (suc x) y h = absurd (omega arith)
    go (suc n) (suc x) y h =
        omega (arith, bit_and_halves (suc x) y, go n (suc x / 2) (y / 2) (omega arith))
