-- ===== src/Hid/Laws.antt =====
-- What the report of a game pad says of the console's buttons.
use nileswan.Base.{
  ℕ, ◌+◌, ◌*◌, ◌/◌, ◌%◌, ◌^◌, ◌<◌, ◌≡◌, Bool, true, false, arith, test_bit, if◌then◌else◌, flag,
  length, get_or,
}
use nileswan.Hid.{
  Hat, centered, up, up_right, right, down_right, down, down_left, left, up_left, button_to_hat,
  report,
}

-- One axis: -1, 0 or 1, where both of two opposite buttons are as good as none.
pub data Axis : Type 0 where
  minus none plus : Axis

abbrev pub axis : Bool → Bool → Axis
axis true false = minus
axis false true = plus
axis _ _ = none

abbrev pub direction : Axis → Axis → Hat
direction none minus = up
direction plus minus = up_right
direction plus none = right
direction plus plus = down_right
direction none plus = down
direction minus plus = down_left
direction minus none = left
direction minus minus = up_left
direction none none = centered

-- The four buttons of one pad, as bits.
abbrev pub pad : Bool → Bool → Bool → Bool → ℕ
pad u r d l = flag u 1 + flag r 2 + flag d 4 + flag l 8

-- For every combination of the four buttons, the hat points where they point together: two
-- opposite buttons cancel out, and the other axis still counts.
pub button_to_hat_lem :
    (u r d l : Bool) → button_to_hat (pad u r d l) ≡ direction (axis l r) (axis u d)
unfolding button_to_hat
button_to_hat_lem u r d l = ground arith

-- The report has three bytes, and the last two are eleven buttons: the four of a pad whose
-- buttons are disabled are released, and the others are as in the mask.
pub report_buttons :
    (number : Hat → ℕ) (mask : ℕ)
    → let r = report number mask in
      let b = get_or r 1 0 + get_or r 2 0 * 2 ^ 8 in
      (length r ≡ 3)
      × (b < 2 ^ 11)
      × (b % 2 ^ 3 ≡ mask % 2 ^ 3)
      × (b / 2 ^ 3 % 2 ^ 4 ≡ (if test_bit mask 13 then 0 else mask / 2 ^ 3 % 2 ^ 4))
      × (b / 2 ^ 7 % 2 ^ 4 ≡ (if test_bit mask 15 then 0 else mask / 2 ^ 7 % 2 ^ 4))
unfolding report
report_buttons number mask = ground arith
