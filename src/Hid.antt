-- ===== src/Hid.antt =====
-- firmware/src/hid.c: the report of a game pad, made of the console's buttons.
pub mod Laws
pub mod Tests
use nileswan.Base.{
  ℕ, ◌+◌, ◌-◌, ◌*◌, ◌/◌, ◌%◌, ◌^◌, Bool, true, false, List, [], ◌∷◌, u8, ◌<<<◌, ◌>>>◌, low_bits,
  and_field, clear_field, test_bit, ◌==◌, bit_or, if◌then◌else◌,
}

-- The directions of a hat, whose numbers are the USB stack's (GAMEPAD_HAT_*).
pub data Hat : Type 0 where
  centered up up_right right down_right : Hat
  down down_left left up_left : Hat

-- `hid_button_to_hat`, by the four buttons: up, right, down, left from bit 0 on
unfoldable pub button_to_hat : ℕ → Hat
button_to_hat b =
    if b == 1
    then up
    else if b == 2
    then right
    else if b == 3
    then up_right
    else if b == 4
    then down
    else if b == 6
    then down_right
    else if b == 7
    then right
    else if b == 8
    then left
    else if b == 9
    then up_left
    else if b == 11
    then up
    else if b == 12
    then down_left
    else if b == 13
    then left
    else if b == 14
    then down
    else centered

-- The buttons that are left of the mask.
unfoldable pub buttons : ℕ → ℕ
buttons mask =
    let without_x = if test_bit mask 13 then clear_field mask 3 4 else mask in
    if test_bit mask 15 then clear_field without_x 7 4 else without_x

-- The three bytes that `hid_send_update` sends.
unfoldable pub report : (Hat → ℕ) → ℕ → List ℕ
unfolding button_to_hat buttons
report number mask =
    let x = if test_bit mask 12 then number (button_to_hat (low_bits mask 4)) else 0 in
    let y =
      if test_bit mask 14 then number (button_to_hat (low_bits (mask >>> 4) 4)) <<< 4 else 0 in
    u8 (bit_or x y) ∷ u8 (buttons mask) ∷ low_bits (buttons mask >>> 8) 3 ∷ []
