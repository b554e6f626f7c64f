-- ===== src/Recovery/Button.antt =====
-- software/userland/src/recovery/tests/button.c: the test of the cartridge's button, whose state is
-- debounced. What it prints is left out.
pub mod Laws
use nileswan.Base.{
  ℕ, Bool, true, false, not, ◌&&◌, List, [], ◌∷◌, Option, none, some, if◌then◌else◌,
}

pub record Button : Type 0 where
  pub fetch1 : Bool
  pub fetch2 : Bool
  pub pressed : Bool

abbrev pub same_state : Bool → Bool → Bool
same_state a b = if a then b else not b

-- with the sample that is read
abbrev pub button_press_fetch : Bool → Button → Button
button_press_fetch sample s = record s { fetch1 = s.fetch2; fetch2 = sample }

abbrev pub button_press_init : Bool → Bool → Button → Button
button_press_init a b s =
    let t = button_press_fetch b (button_press_fetch a s) in
    record t { pressed = t.fetch1 && t.fetch2 }

-- The state behind it has the result in `pressed`.
abbrev pub button_is_pressed : Bool → Button → Button
button_is_pressed sample s =
    let t = button_press_fetch sample s in
    record t { pressed = if same_state t.fetch1 t.fetch2 then t.fetch2 else t.pressed }

-- A sample, and whether B is pressed in the frame after it
abbrev pub Frame : Type 0
Frame = Bool × Bool

-- The loop: the result, the state and the frames that are left, or `none` while it goes on
unfoldable pub wait_loop : Bool → List Frame → Button → Option (Bool × Button × List Frame)
wait_loop expected [] s = none
wait_loop expected ((sample, b) ∷ frames) s =
    let t = button_is_pressed sample s in
    let rest = wait_loop expected frames t in
    if same_state t.pressed expected
    then some (true, t, frames)
    else if b
    then some (false, t, frames)
    else rest

-- The key does not count before the loop.
unfoldable pub test_button_wait_for_state :
    Bool → List Frame → Button → Option (Bool × Button × List Frame)
unfolding wait_loop
test_button_wait_for_state expected [] s = none
test_button_wait_for_state expected ((sample, b) ∷ frames) s =
    let t = button_is_pressed sample s in
    let rest = wait_loop expected frames t in
    if same_state t.pressed expected then some (true, t, frames) else rest

abbrev pub then_wait :
    Option (Bool × Button × List Frame)
    → (List Frame → Button → Option (Bool × Button × List Frame))
    → Option (Bool × Button × List Frame)
then_wait none f = none
then_wait (some (true, s, frames)) f = f frames s
then_wait (some (false, s, frames)) f = some (false, s, frames)

-- Released, pressed and released
unfoldable pub test_button : Bool → Bool → List Frame → Button → Option (Bool × Button × List Frame)
unfolding test_button_wait_for_state
test_button a b frames s =
    then_wait
      (then_wait (test_button_wait_for_state false frames (button_press_init a b s))
        (test_button_wait_for_state true))
      (test_button_wait_for_state false)
