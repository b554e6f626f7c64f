-- ===== src/Vwf8/Pixels.antt =====
-- The bits that vwf8_draw_char of software/userland/src/shared/vwf8.c sets in a row.
use native.Mathlib.Nat.{pow-le-pow_right, div-eq_of_lt}
use nileswan.Base.{
  ℕ, zero, suc, ◌+◌, ◌-◌, ◌/◌, ◌%◌, ◌^◌, ◌≤◌, ◌<◌, ◌≡◌, refl, ap, ap₂, sym, ◌∙◌, arith,
}
use nileswan.Base.{Bool, false, not, ◌&&◌, ◌||◌, Bool-cases, inl, inr, bit_and, bit_or}
use nileswan.Base.{◌!=◌, ltb, leb, if◌then◌else◌, u8, u16, ◌<<<◌, ◌>>>◌, test_bit, get_or}
use nileswan.Base.Bits.{
  test_bit-bit_and, test_bit-bit_or, half-pow, twice-pow, all_below, all_below_sound, bit_and_mask,
}
use nileswan.Base.Bits.Words.{test_bit-not16}
use nileswan.Vwf8.{clear_mask, left_byte, right_byte, font_width_mask}

test_bit_low : (v k : ℕ) → k < 8 → test_bit (u8 v) k ≡ test_bit v k
unfolding all_below
test_bit_low v k low =
    let ones = all_below_sound 8 (test_bit 255) k refl low in
    ap (λ x. test_bit x k) (sym (bit_and_mask 8 v))
    ∙ test_bit-bit_and k v 255
    ∙ ground (arith, ones)

test_bit_word : (v k : ℕ) → k < 16 → test_bit (u16 v) k ≡ test_bit v k
unfolding all_below
test_bit_word v k low =
    let ones = all_below_sound 16 (test_bit 65535) k refl low in
    ap (λ x. test_bit x k) (sym (bit_and_mask 16 v))
    ∙ test_bit-bit_and k v 65535
    ∙ ground (arith, ones)

test_bit_half : (v k : ℕ) → test_bit v (suc k) ≡ test_bit (v / 2) k
test_bit_half v k = ap (λ x. x % 2 != 0) (half-pow v k)

-- Shifts move the bits.
test_bit_right : (s v k : ℕ) → test_bit (v >>> s) k ≡ test_bit v (s + k)
test_bit_right zero v k = ap₂ test_bit (omega arith) (omega arith)
test_bit_right (suc s) v k =
    ap (λ x. test_bit x k) (half-pow v s)
    ∙ test_bit_right s (v / 2) k
    ∙ sym (test_bit_half v (s + k))
    ∙ ap (test_bit v) (omega arith)

test_bit_left : (s v k : ℕ) → test_bit (v <<< s) k ≡ (leb s k && test_bit v (k - s))
test_bit_left zero v k = ground arith
test_bit_left (suc s) v zero = ground (arith, twice-pow v s)
test_bit_left (suc s) v (suc k) =
    test_bit_half (v <<< suc s) k
    ∙ ap (λ x. test_bit x k) (omega (arith, twice-pow v s))
    ∙ test_bit_left s v k
    ∙ ground arith

-- A number below 2^w has no bits from there on.
test_bit_high : (w v k : ℕ) → v < 2 ^ w → w ≤ k → test_bit v k ≡ false
test_bit_high w v k small high =
    let below : v < 2 ^ k =
      omega (arith, pow-le-pow_right {n = 2} (omega arith) {i = w} {j = k} high) in
    let none_left = div-eq_of_lt below in ground (arith, none_left)

-- The entry for a width has the lowest bits, as many as it says.
same : Bool → Bool → Bool
same a b = if a then b else not b

width_test : ℕ → Bool
width_test w = all_below 16 (λ k. same (test_bit (get_or font_width_mask w 0) k) (ltb k w))

font_width_mask_bit : (w k : ℕ) → w ≤ 8 → k < 16 → test_bit (get_or font_width_mask w 0) k ≡ ltb k w
unfolding all_below width_test same
font_width_mask_bit w k small low =
    let row = all_below_sound 9 width_test w refl (omega arith) in
    let bit =
      all_below_sound 16 (λ j. same (test_bit (get_or font_width_mask w 0) j) (ltb j w)) k row
        low in
    ground (arith, bit)

-- Whether a bit of the word of a row belongs to the character
abbrev pub covered : ℕ → ℕ → ℕ → Bool
covered w fine k = leb fine k && ltb (k - fine) w

clear_mask_bit :
    (w fine k : ℕ) → w ≤ 8 → k < 16 → test_bit (clear_mask w fine) k ≡ not (covered w fine k)
clear_mask_bit w fine k small low =
    test_bit-not16 k (u16 (get_or font_width_mask w 0 <<< fine)) (omega arith) low
    ∙ ap not (
        test_bit_word (get_or font_width_mask w 0 <<< fine) k low
        ∙ test_bit_left fine (get_or font_width_mask w 0) k
        ∙ ap (λ b. leb fine k && b) (font_width_mask_bit w (k - fine) small (omega arith)))

-- What a bit of the word of a row becomes
abbrev pub drawn_bit : ℕ → ℕ → ℕ → ℕ → Bool → Bool
drawn_bit byte w fine k old = if covered w fine k then test_bit byte (k - fine) else old

row_bit :
    (byte w fine k : ℕ) (old : Bool)
    → byte < 2 ^ w
    → ((old && not (covered w fine k)) || (leb fine k && test_bit byte (k - fine)))
      ≡ drawn_bit byte w fine k old
row_bit byte w fine k old small = elim (Bool-cases (leb fine k)) [
  | inr before ↦ rw before (ground arith)
  | inl from ↦ elim (Bool-cases (ltb (k - fine) w)) [
    | inl inner ↦ rw (from, inner) (ground arith)
    | inr outer ↦
        rw (from, outer)
          (let high = test_bit_high w byte (k - fine) small (ground (arith, outer)) in
            ground (arith, high))
  ]
]

-- The two bytes of a row: the bits of the character, and beside them what was there.
pub left_byte_bit :
    (byte w fine old j : ℕ)
    → w ≤ 8
    → byte < 2 ^ w
    → j < 8
    → test_bit (left_byte byte (clear_mask w fine) fine old) j
      ≡ drawn_bit byte w fine (8 + j) (test_bit old j)
left_byte_bit byte w fine old j narrow small low =
    let mask = clear_mask w fine in
    let shift = u16 (byte <<< fine) in
    test_bit_low (bit_or (bit_and old (mask >>> 8)) (shift >>> 8)) j low
    ∙ test_bit-bit_or j (bit_and old (mask >>> 8)) (shift >>> 8)
    ∙ ap₂ (λ a b. a || b)
        (test_bit-bit_and j old (mask >>> 8)
          ∙ ap (λ b. test_bit old j && b)
              (test_bit_right 8 mask j ∙ clear_mask_bit w fine (8 + j) narrow (omega arith)))
        (test_bit_right 8 shift j
          ∙ test_bit_word (byte <<< fine) (8 + j) (omega arith)
          ∙ test_bit_left fine byte (8 + j))
    ∙ row_bit byte w fine (8 + j) (test_bit old j) small

pub right_byte_bit :
    (byte w fine old j : ℕ)
    → w ≤ 8
    → byte < 2 ^ w
    → j < 8
    → test_bit (right_byte byte (clear_mask w fine) fine old) j
      ≡ drawn_bit byte w fine j (test_bit old j)
right_byte_bit byte w fine old j narrow small low =
    let mask = clear_mask w fine in
    let shift = u16 (byte <<< fine) in
    test_bit_low (bit_or (bit_and old mask) shift) j low
    ∙ test_bit-bit_or j (bit_and old mask) shift
    ∙ ap₂ (λ a b. a || b)
        (test_bit-bit_and j old mask
          ∙ ap (λ b. test_bit old j && b) (clear_mask_bit w fine j narrow (omega arith)))
        (test_bit_word (byte <<< fine) j (omega arith) ∙ test_bit_left fine byte j)
    ∙ row_bit byte w fine j (test_bit old j) small
