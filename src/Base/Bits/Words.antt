-- ===== src/Base/Bits/Words.antt =====
-- Complements, single bits, differences and sums of words, from the digit laws of `Base.Bits`.
use Prim.Native.Nat.{ℕ, zero, suc, ◌+◌, ◌-◌, ◌*◌, ◌/◌, ◌%◌, ◌^◌, ◌≤◌, ◌<◌}
use Prim.Native.Nat.{bit_and, bit_or, bit_xor, differ}
use Prim.Native.Nat.{bit_and-bitwise, bit_or-bitwise, bit_xor-bitwise}
use mathlib.Core.Path.{◌≡◌, refl, sym, ap, ◌∙◌}
use mathlib.Core.Logic.{◌↔◌}
use mathlib.Core.Bool.{false, not}
use native.Mathlib.Nat.{le_refl, pow-suc, mod-lt, one-le-pow}
use native.Mathlib.Omega.{arith}
use nileswan.Base.Tests.{◌==◌, if◌then◌else◌}
use nileswan.Base.Word.{test_bit, join, not16}
use nileswan.Base.Bits.{bit_and_halves, bit_or_halves, bitwise-suc, half-pow, twice-pow}

-- `&` and `|` share out the digits of a sum.
pub bit_or-add-bit_and : (a b : ℕ) → bit_or a b + bit_and a b ≡ a + b
bit_or-add-bit_and a b = go a a b (le_refl a)
  where
    go : (n x y : ℕ) → x ≤ n → bit_or x y + bit_and x y ≡ x + y
    go n zero y h = omega (arith, bit_or-bitwise 0 y, bit_and-bitwise 0 y)
    go zero (suc x) y h = absurd (omega arith)
    go (suc n) (suc x) y h = omega (
      arith,
      bit_or_halves (suc x) y,
      bit_and_halves (suc x) y,
      go n (suc x / 2) (y / 2) (omega arith),
    )

-- `|` of values with no common bit is their sum.
pub join_lem : (a b : ℕ) → bit_and a b ≡ 0 → bit_or a b ≡ join a b
join_lem a b h = omega (arith, bit_or-add-bit_and a b)

complement_digit : (n k v : ℕ) → v < 2 ^ n → k < n → (2 ^ n - 1 - v) / 2 ^ k % 2 ≡ 1 - v / 2 ^ k % 2
complement_digit zero k v p q = absurd (omega arith)
complement_digit (suc n) zero v p q = omega (arith, pow-suc 2 n)
complement_digit (suc n) (suc k) v p q =
    let half : (2 ^ suc n - 1 - v) / 2 ≡ 2 ^ n - 1 - v / 2 = omega (arith, pow-suc 2 n) in
    rw (half-pow (2 ^ suc n - 1 - v) k, half-pow v k, half)
      (complement_digit n k (v / 2) (omega (arith, pow-suc 2 n)) (omega arith))

-- `~v` flips each of the 16 bits.
pub test_bit-not16 : (k v : ℕ) → v < 2 ^ 16 → k < 16 → test_bit (not16 v) k ≡ not (test_bit v k)
test_bit-not16 k v p q = ground (arith, complement_digit 16 k v p q)

-- A word is zero exactly when none of its bits is set.
zero_of_digits : (n v : ℕ) → v < 2 ^ n → ((k : ℕ) → k < n → v / 2 ^ k % 2 ≡ 0) → v ≡ 0
zero_of_digits zero v p h = omega arith
zero_of_digits (suc n) v p h = omega (
  arith,
  h 0 (omega arith),
  zero_of_digits n (v / 2) (omega (arith, pow-suc 2 n))
      (λ k q. rw (← half-pow v k) (h (suc k) (omega arith))),
)

pub zero_of_test_bit : (v : ℕ) → v < 2 ^ 16 → ((k : ℕ) → k < 16 → test_bit v k ≡ false) → v ≡ 0
zero_of_test_bit v p h = zero_of_digits 16 v p (λ k q. ground (arith, h k q))

bit_xor_step : (a b : ℕ) → bit_xor a b ≡ bit_xor (a / 2) (b / 2) * 2 + differ (a % 2) (b % 2)
bit_xor_step zero b = simp bit_xor-bitwise (omega arith)
bit_xor_step (suc a) b = simp bit_xor-bitwise (bitwise-suc (λ y. y) differ a b)

differ_of_digits : (x y : ℕ) → x < 2 → y < 2 → differ x y ≡ (if x == y then 0 else 1)
differ_of_digits zero zero p q = refl
differ_of_digits zero (suc zero) p q = refl
differ_of_digits zero (suc (suc y)) p q = absurd (omega arith)
differ_of_digits (suc zero) zero p q = refl
differ_of_digits (suc zero) (suc zero) p q = refl
differ_of_digits (suc zero) (suc (suc y)) p q = absurd (omega arith)
differ_of_digits (suc (suc x)) y p q = absurd (omega arith)

differ-digits :
    (a b m : ℕ)
    → bit_and (bit_xor a b) m
      ≡ bit_and (bit_xor (a / 2) (b / 2)) (m / 2) * 2 + (if a % 2 == b % 2 then 0 else m % 2)
differ-digits a b m =
    let digit = differ_of_digits (a % 2) (b % 2) (omega arith) (omega arith) in
    let half : bit_xor a b / 2 ≡ bit_xor (a / 2) (b / 2) =
      ground (arith, bit_xor_step a b, digit) in
    ground (arith, bit_and_halves (bit_xor a b) m, bit_xor_step a b, digit, half)

-- `!((a ^ b) & m)` compares `a` and `b` under the mask `m`.
pub masked_equal : (a b m : ℕ) → (bit_and (bit_xor a b) m ≡ 0) ↔ (bit_and a m ≡ bit_and b m)
masked_equal a b m = go a a b m (le_refl a)
  where
    go : (n x y k : ℕ) → x ≤ n → (bit_and (bit_xor x y) k ≡ 0) ↔ (bit_and x k ≡ bit_and y k)
    go n zero y k h =
        let same : bit_xor 0 y ≡ y = omega (arith, bit_xor-bitwise 0 y) in
        let none : bit_and 0 k ≡ 0 = omega (arith, bit_and-bitwise 0 k) in
        rw (same, none) (λ e. sym e, λ e. sym e)
    go zero (suc x) y k h = absurd (omega arith)
    go (suc n) (suc x) y k h = ground (
      arith,
      differ-digits (suc x) y k,
      bit_and_halves (suc x) k,
      bit_and_halves y k,
      go n (suc x / 2) (y / 2) (k / 2) (omega arith),
    )

bit_and-fields :
    (k y s q r : ℕ)
    → s < 2 ^ k
    → r < 2 ^ k
    → bit_and (y * 2 ^ k + s) (q * 2 ^ k + r) ≡ bit_and y q * 2 ^ k + bit_and s r
bit_and-fields zero y s q r p h =
    let mask : q * 2 ^ 0 + r ≡ q = omega arith in
    let word : y * 2 ^ 0 + s ≡ y = omega arith in
    let low : s ≡ 0 = omega arith in rw (mask, word, low) (omega (arith, bit_and-bitwise 0 r))
bit_and-fields (suc k) y s q r p h =
    let half : (y * 2 ^ suc k + s) / 2 ≡ y * 2 ^ k + s / 2 = omega (arith, twice-pow y k) in
    let half' : (q * 2 ^ suc k + r) / 2 ≡ q * 2 ^ k + r / 2 = omega (arith, twice-pow q k) in
    let digit : (y * 2 ^ suc k + s) % 2 ≡ s % 2 = omega (arith, twice-pow y k) in
    let digit' : (q * 2 ^ suc k + r) % 2 ≡ r % 2 = omega (arith, twice-pow q k) in
    let ih =
      bit_and-fields k y (s / 2) q (r / 2) (omega (arith, pow-suc 2 k))
        (omega (arith, pow-suc 2 k)) in
    rw (bit_and_halves (y * 2 ^ suc k + s) (q * 2 ^ suc k + r), half, half', digit, digit', ih)
      (omega (arith, bit_and_halves s r, twice-pow (bit_and y q) k))

-- A mask in two parts cuts out two parts.
pub bit_and-split :
    (k x q r : ℕ)
    → r < 2 ^ k
    → bit_and x (q * 2 ^ k + r) ≡ bit_and (x / 2 ^ k) q * 2 ^ k + bit_and (x % 2 ^ k) r
bit_and-split k x q r h =
    let whole : x ≡ x / 2 ^ k * 2 ^ k + x % 2 ^ k = omega arith in
    ap (λ n. bit_and n (q * 2 ^ k + r)) whole
    ∙ bit_and-fields k (x / 2 ^ k) (x % 2 ^ k) q r (mod-lt x (one-le-pow k 2 (omega arith))) h
