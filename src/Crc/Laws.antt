-- ===== src/Crc/Laws.antt =====
-- The checksum of software/userland/src/updater/crc16.s against the shift register that defines it.
use native.Mathlib.Nat.{pow-suc, pow-le-pow_right}
use nileswan.Base.{ℕ, zero, suc, ◌+◌, ◌*◌, ◌/◌, ◌%◌, ◌^◌, ◌≤◌, ◌<◌, bit_xor, ◌≡◌, refl, arith}
use nileswan.Base.{sym, ap, ap₂, ◌∙◌, List, [], ◌∷◌, leb, ◌==◌, if◌then◌else◌}
use nileswan.Base.{get_or, ◌<<<◌, ==_iff, take}
use nileswan.Base.Bits.{all_below, all_below_sound, twice-pow}
use nileswan.Crc.{crc16_table, crc16_byte, crc16_loop, crc16, loop_count}
use nileswan.Crc.Xor.{bit_xor_parts, bit_xor_double, bit_xor_swap, bit_xor_comm, bit_xor-zero}
use nileswan.Crc.Xor.{bit_xor_zero_right, bit_xor-lt}

-- `POLYNOMIAL`, 0x1021
abbrev pub polynomial : ℕ
polynomial = 4129

-- A register of 16 bits shifts left; a digit that falls out subtracts the polynomial.
unfoldable pub shift : ℕ → ℕ
shift r = if leb (2 ^ 15) r then bit_xor (r * 2 % 2 ^ 16) polynomial else r * 2

unfoldable pub shifts : ℕ → ℕ → ℕ
shifts zero r = r
shifts (suc k) r = shift (shifts k r)

-- Each byte enters at the top of the register and is shifted through.
unfoldable pub remainder : List ℕ → ℕ → ℕ
remainder [] r = r
remainder (b ∷ bs) r = remainder bs (shifts 8 (bit_xor r (b <<< 8)))

abbrev pub AllBytes : List ℕ → Type 0
AllBytes [] = Unit
AllBytes (b ∷ bs) = (b < 2 ^ 8) × AllBytes bs

take-AllBytes : (n : ℕ) (bs : List ℕ) → AllBytes bs → AllBytes (take n bs)
take-AllBytes zero bs h = tt
take-AllBytes (suc n) [] h = tt
take-AllBytes (suc n) (b ∷ bs) h = (h.0, take-AllBytes n bs h.1)

shift-lt : (r : ℕ) → r < 2 ^ 16 → shift r < 2 ^ 16
unfolding shift
shift-lt r h = ground (arith, bit_xor-lt 16 (r * 2 % 2 ^ 16) polynomial (omega arith) (omega arith))

shifts-lt : (k r : ℕ) → r < 2 ^ 16 → shifts k r < 2 ^ 16
unfolding shifts
shifts-lt zero r h = h
shifts-lt (suc k) r h = shift-lt (shifts k r) (shifts-lt k r h)

-- What is below the top digit passes through one shift unchanged.
shift-bit_xor :
    (r m : ℕ) → r < 2 ^ 16 → m < 2 ^ 15 → shift (bit_xor r m) ≡ bit_xor (shift r) (m * 2)
unfolding shift
shift-bit_xor r m p q =
    let low = r % 2 ^ 15 in
    let top = r / 2 ^ 15 in
    let split : r ≡ top * 2 ^ 15 + low = omega arith in
    let part : bit_xor r m ≡ top * 2 ^ 15 + bit_xor low m =
      ap₂ bit_xor split (omega arith)
      ∙ bit_xor_parts 15 top 0 low m (omega arith) q
      ∙ ap (λ h. h * 2 ^ 15 + bit_xor low m) (bit_xor_zero_right top) in
    let small : bit_xor low m < 2 ^ 15 = bit_xor-lt 15 low m (omega arith) q in
    let rest : r * 2 % 2 ^ 16 ≡ low * 2 = omega arith in
    let rest' : bit_xor r m * 2 % 2 ^ 16 ≡ bit_xor low m * 2 = omega (arith, part, small) in
    rw (rest, rest')
      (ground (
        arith,
        part,
        small,
        bit_xor_double low m,
        bit_xor_double r m,
        bit_xor_swap (low * 2) (m * 2) polynomial,
      ))

scaled_byte : (k m : ℕ) → m < 2 ^ 8 → m * 2 ^ k < 2 ^ (k + 8)
scaled_byte zero m h = omega arith
scaled_byte (suc k) m h =
    let count : suc k + 8 ≡ suc (k + 8) = omega arith in
    omega (arith, ap (λ (n : ℕ). 2 ^ n) count, twice-pow m k, pow-suc 2 (k + 8), scaled_byte k m h)

-- A byte at the bottom of the register comes to the top unchanged.
shifts-bit_xor :
    (k r m : ℕ)
    → k ≤ 8
    → r < 2 ^ 16
    → m < 2 ^ 8
    → shifts k (bit_xor r m) ≡ bit_xor (shifts k r) (m * 2 ^ k)
unfolding shifts
shifts-bit_xor zero r m h p q = ap (bit_xor r) (omega arith)
shifts-bit_xor (suc k) r m h p q =
    let small : m * 2 ^ k < 2 ^ 15 = omega (
      arith,
      scaled_byte k m q,
      pow-le-pow_right {n = 2} (omega arith) {i = k + 8} {j = 15} (omega arith),
    ) in
    ap shift (shifts-bit_xor k r m (omega arith) p q)
    ∙ shift-bit_xor (shifts k r) (m * 2 ^ k) (shifts-lt k r p) small
    ∙ ap (bit_xor (shift (shifts k r))) (omega (arith, twice-pow m k))

table_entry : (i : ℕ) → i < 2 ^ 8 → shifts 8 (i * 2 ^ 8) ≡ get_or crc16_table i 0
unfolding shifts shift all_below
table_entry i h =
    (==_iff _ _).0
      (all_below_sound (2 ^ 8) (λ i. shifts 8 (i * 2 ^ 8) == get_or crc16_table i 0) i refl h)

crc16_byte_lem :
    (dx al : ℕ) → dx < 2 ^ 16 → al < 2 ^ 8 → crc16_byte dx al ≡ shifts 8 (bit_xor dx (al <<< 8))
unfolding crc16_byte
crc16_byte_lem dx al p q =
    let high = dx / 2 ^ 8 in
    let low = dx % 2 ^ 8 in
    let top = bit_xor high al in
    let split : dx ≡ high * 2 ^ 8 + low = omega arith in
    let top_small : top < 2 ^ 8 = bit_xor-lt 8 high al (omega arith) q in
    let enter : bit_xor dx (al <<< 8) ≡ bit_xor (top * 2 ^ 8) low =
      ap₂ bit_xor split (omega arith)
      ∙ bit_xor_parts 8 high al low 0 (omega arith) (omega arith)
      ∙ ap (λ x. top * 2 ^ 8 + x) (bit_xor_zero_right low)
      ∙ sym (
          ap₂ bit_xor (omega arith) (omega arith)
          ∙ bit_xor_parts 8 top 0 0 low (omega arith) (omega arith)
          ∙ ap₂ (λ x y. x * 2 ^ 8 + y) (bit_xor_zero_right top) (bit_xor-zero low)) in
    bit_xor_comm (low <<< 8) (get_or crc16_table top 0)
    ∙ ap (λ x. bit_xor x (low <<< 8)) (sym (table_entry top top_small))
    ∙ sym (
        ap (shifts 8) enter
        ∙ shifts-bit_xor 8 (top * 2 ^ 8) low (omega arith) (omega arith) (omega arith))

crc16_loop-remainder :
    (bs : List ℕ) (r : ℕ) → AllBytes bs → r < 2 ^ 16 → crc16_loop bs r ≡ remainder bs r
unfolding crc16_loop remainder
crc16_loop-remainder [] r h p = refl
crc16_loop-remainder (b ∷ bs) r h p =
    let entered : bit_xor r (b <<< 8) < 2 ^ 16 =
      bit_xor-lt 16 r (b <<< 8) p (let small = h.0 in omega arith) in
    ap (crc16_loop bs) (crc16_byte_lem r b p h.0)
    ∙ crc16_loop-remainder bs (shifts 8 (bit_xor r (b <<< 8))) h.1 (shifts-lt 8 _ entered)

-- The table-driven checksum of bytes is the remainder that a 16-bit shift register with the
-- polynomial 0x1021 leaves, over as many bytes as the length says, or 65536 when it is 0.
pub crc16-remainder :
    (bs : List ℕ) (len r : ℕ)
    → AllBytes bs
    → r < 2 ^ 16
    → crc16 bs len r ≡ remainder (take (loop_count len) bs) r
unfolding crc16
crc16-remainder bs len r h p = crc16_loop-remainder _ r (take-AllBytes (loop_count len) bs h) p
