-- ===== src/Crc/Xor.antt =====
-- The native exclusive or, digit by digit, as the checksum uses it.
use Prim.Native.Nat.{differ, bitwise, bit_xor-bitwise}
use native.Mathlib.Nat.{le_refl, pow-suc}
use nileswan.Base.{ℕ, zero, suc, ◌+◌, ◌*◌, ◌/◌, ◌%◌, ◌^◌, ◌≤◌, ◌<◌, bit_xor, ◌≡◌, refl, arith}
use nileswan.Base.{sym, ap, ap₂, ◌∙◌}
use nileswan.Base.Bits.{bitwise-suc, twice-pow}

differ_digit : (a b : ℕ) → a < 2 → b < 2 → differ a b ≡ (a + b) % 2
differ_digit zero b p q = omega arith
differ_digit (suc a) zero p q = omega arith
differ_digit (suc zero) (suc zero) p q = refl
differ_digit (suc zero) (suc (suc b)) p q = absurd (omega arith)
differ_digit (suc (suc a)) (suc b) p q = absurd (omega arith)

pub bit_xor_halves : (a b : ℕ) → bit_xor a b ≡ bit_xor (a / 2) (b / 2) * 2 + (a % 2 + b % 2) % 2
bit_xor_halves zero b = simp bit_xor-bitwise (omega arith)
bit_xor_halves (suc a) b = simp bit_xor-bitwise (
    bitwise-suc (λ y. y) differ a b
    ∙ ap (λ digit. bitwise (λ y. y) differ (suc a / 2) (b / 2) * 2 + digit)
        (differ_digit (suc a % 2) (b % 2) (omega arith) (omega arith)))

pub bit_xor-zero : (b : ℕ) → bit_xor 0 b ≡ b
bit_xor-zero b = simp bit_xor-bitwise refl

pub bit_xor_zero_right : (a : ℕ) → bit_xor a 0 ≡ a
bit_xor_zero_right a = go a a (le_refl a)
  where
    go : (n a : ℕ) → a ≤ n → bit_xor a 0 ≡ a
    go n zero h = bit_xor-zero 0
    go zero (suc a) h = absurd (omega arith)
    go (suc n) (suc a) h = omega (arith, bit_xor_halves (suc a) 0, go n (suc a / 2) (omega arith))

pub bit_xor_comm : (a b : ℕ) → bit_xor a b ≡ bit_xor b a
bit_xor_comm a b = go a a b (le_refl a)
  where
    go : (n a b : ℕ) → a ≤ n → bit_xor a b ≡ bit_xor b a
    go n zero b h = omega (arith, bit_xor-zero b, bit_xor_zero_right b)
    go zero (suc a) b h = absurd (omega arith)
    go (suc n) (suc a) b h = omega (
      arith,
      bit_xor_halves (suc a) b,
      bit_xor_halves b (suc a),
      go n (suc a / 2) (b / 2) (omega arith),
    )

pub bit_xor_assoc : (a b c : ℕ) → bit_xor (bit_xor a b) c ≡ bit_xor a (bit_xor b c)
bit_xor_assoc a b c = go a a b c (le_refl a)
  where
    go : (n a b c : ℕ) → a ≤ n → bit_xor (bit_xor a b) c ≡ bit_xor a (bit_xor b c)
    go n zero b c h = ap (λ x. bit_xor x c) (bit_xor-zero b) ∙ sym (bit_xor-zero (bit_xor b c))
    go zero (suc a) b c h = absurd (omega arith)
    go (suc n) (suc a) b c h =
        let left : bit_xor (suc a) b / 2 ≡ bit_xor (suc a / 2) (b / 2) =
          omega (arith, bit_xor_halves (suc a) b) in
        let right : bit_xor b c / 2 ≡ bit_xor (b / 2) (c / 2) = omega (arith, bit_xor_halves b c) in
        let high =
          ap (λ x. bit_xor x (c / 2)) left
          ∙ go n (suc a / 2) (b / 2) (c / 2) (omega arith)
          ∙ sym (ap (bit_xor (suc a / 2)) right) in
        omega (
          arith,
          high,
          bit_xor_halves (bit_xor (suc a) b) c,
          bit_xor_halves (suc a) (bit_xor b c),
          bit_xor_halves (suc a) b,
          bit_xor_halves b c,
        )

-- The last of three operands may go first.
pub bit_xor_swap : (a b c : ℕ) → bit_xor (bit_xor a b) c ≡ bit_xor (bit_xor a c) b
bit_xor_swap a b c =
    bit_xor_assoc a b c ∙ ap (bit_xor a) (bit_xor_comm b c) ∙ sym (bit_xor_assoc a c b)

-- `^` stays below a power of two that both operands are below.
pub bit_xor-lt : (k a b : ℕ) → a < 2 ^ k → b < 2 ^ k → bit_xor a b < 2 ^ k
bit_xor-lt zero a b p q = let e : a ≡ 0 = omega arith in rw e (omega (arith, bit_xor-zero b))
bit_xor-lt (suc k) a b p q = omega (
  arith,
  bit_xor_halves a b,
  pow-suc 2 k,
  bit_xor-lt k (a / 2) (b / 2) (omega (arith, pow-suc 2 k)) (omega (arith, pow-suc 2 k)),
)

-- `^` works on the digits below `2 ^ k` and on those from there on apart from each other.
pub bit_xor_parts :
    (k a b r s : ℕ)
    → r < 2 ^ k
    → s < 2 ^ k
    → bit_xor (a * 2 ^ k + r) (b * 2 ^ k + s) ≡ bit_xor a b * 2 ^ k + bit_xor r s
bit_xor_parts zero a b r s p q =
    let left : a * 2 ^ 0 + r ≡ a = omega arith in
    let right : b * 2 ^ 0 + s ≡ b = omega arith in
    let low : r ≡ 0 = omega arith in
    let low' : s ≡ 0 = omega arith in rw (left, right, low, low') (omega (arith, bit_xor-zero 0))
bit_xor_parts (suc k) a b r s p q =
    let left : (a * 2 ^ suc k + r) / 2 ≡ a * 2 ^ k + r / 2 = omega (arith, twice-pow a k) in
    let right : (b * 2 ^ suc k + s) / 2 ≡ b * 2 ^ k + s / 2 = omega (arith, twice-pow b k) in
    let high =
      ap₂ bit_xor left right
      ∙ bit_xor_parts k a b (r / 2) (s / 2) (omega (arith, pow-suc 2 k))
          (omega (arith, pow-suc 2 k)) in
    omega (
      arith,
      bit_xor_halves (a * 2 ^ suc k + r) (b * 2 ^ suc k + s),
      bit_xor_halves r s,
      high,
      twice-pow a k,
      twice-pow b k,
      twice-pow (bit_xor a b) k,
    )

pub bit_xor_double : (a b : ℕ) → bit_xor (a * 2) (b * 2) ≡ bit_xor a b * 2
bit_xor_double a b =
    let left : a * 2 / 2 ≡ a = omega arith in
    let right : b * 2 / 2 ≡ b = omega arith in
    omega (arith, bit_xor_halves (a * 2) (b * 2), ap₂ bit_xor left right)
