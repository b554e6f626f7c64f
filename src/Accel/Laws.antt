-- ===== src/Accel/Laws.antt =====
-- The double buffer, the conversion of an axis and the timer that polls.
use nileswan.Base.{
  ℕ, ◌+◌, ◌*◌, ◌/◌, ◌<◌, ◌≡◌, refl, Bool, false, not, ◌&&◌, ◌||◌, arith, ltb, if◌then◌else◌,
  Bool-cases, inl, inr,
}
use nileswan.Accel.{
  idle, Accel, convert_axis, visible, receive, dma_irq_handler, enable_poll, adjust_i2c_timing,
}

-- A 12-bit number in two's complement, as a 16-bit one.
abbrev pub sign_extend : ℕ → ℕ
sign_extend v = if ltb v 0x800 then v else v + 0xf000

-- An axis that arrives as a byte of its upper eight bits and a byte with the lower four on top
-- is shown as that 12-bit number with its sign.
pub convert_axis_lem :
    (high low : ℕ)
    → high < 256
    → low < 256
    → convert_axis (low * 256 + high) ≡ sign_extend (high * 16 + low / 16)
unfolding convert_axis
convert_axis_lem high low p q = ground arith

-- The upper eight bits of an axis and the byte with its lower four on top, as they arrive
pub record Axis : Type 0 where
  pub high : ℕ
  pub low : ℕ

abbrev pub IsAxis : Axis → Type 0
IsAxis v = (v.high < 256) × (v.low < 256)

-- The word that the two bytes are in memory, and the number that they stand for
abbrev pub word_of : Axis → ℕ
word_of v = v.low * 256 + v.high

abbrev pub value_of : Axis → ℕ
value_of v = sign_extend (v.high * 16 + v.low / 16)

-- While a sample arrives the one that is shown stays; the interrupt at its end shows the new
-- one, whole, each axis as the 12-bit number of its two bytes with the sign copied to 16 bits, and
-- leaves the state idle. Each axis arrives as two bytes, the upper eight bits first.
pub dma_irq_handler_lem :
    (x y z : Axis) (a : Accel)
    → IsAxis x
    → IsAxis y
    → IsAxis z
    → let arriving = receive (record { x = word_of x; y = word_of y; z = word_of z }) a in
      (visible arriving ≡ visible a)
      × ((visible (dma_irq_handler arriving)).x ≡ value_of x)
      × ((visible (dma_irq_handler arriving)).y ≡ value_of y)
      × ((visible (dma_irq_handler arriving)).z ≡ value_of z)
      × ((dma_irq_handler arriving).state ≡ idle)
unfolding visible receive dma_irq_handler
dma_irq_handler_lem x y z a is_x is_y is_z =
    let to_x = convert_axis_lem x.high x.low is_x.0 is_x.1 in
    let to_y = convert_axis_lem y.high y.low is_y.0 is_y.1 in
    let to_z = convert_axis_lem z.high z.low is_z.0 is_z.1 in
    elim (Bool-cases a.second_visible) [
      | inl two ↦ rw two (refl, to_x, to_y, to_z, refl)
      | inr one ↦ rw one (refl, to_x, to_y, to_z, refl)
    ]

-- The timer that polls runs only while polling is on, the bus enabled and the chip there.
pub record IsValid (a : Accel) : Type 0 where
  pub polls : (a.counting && not (a.polling && a.i2c_enabled && a.chip_detected)) ≡ false

-- A call of `accel_enable_poll` and a change of the bus speed keep the timer off unless polling
-- is on, the bus enabled and the chip there; the call leaves polling as it says, and the chip
-- as there if it was, or, where polling changes, if it acknowledged.
pub enable_poll_lem :
    (acknowledged enable : Bool) (hz freq : ℕ) {a : Accel}
    → IsValid a
    → let b = enable_poll acknowledged enable hz a in
      IsValid b
      × IsValid (adjust_i2c_timing freq a)
      × (b.polling ≡ enable)
      × (b.chip_detected ≡ (
          if (a.polling && enable) || not (a.polling || enable)
          then a.chip_detected
          else acknowledged))
unfolding enable_poll adjust_i2c_timing
enable_poll_lem acknowledged enable hz freq {a} v = (
  record { polls = ground (arith, v.polls) },
  record { polls = ground (arith, v.polls) },
  ground arith,
  ground arith,
)
