-- ===== src/Menu.antt =====
-- The menus of the recovery program: software/userland/src/recovery/menu.c and the `do_menu` functions
-- of software/userland/src/recovery/main.c.
pub mod Tree
pub mod Mfg
pub mod Laws
pub mod Nested
pub mod Bounds
mod Tests
use nileswan.Base.{
  ℕ, zero, suc, ◌+◌, ◌-◌, Bool, true, false, List, [], ◌∷◌, Option, none, some, ltb,
}
use nileswan.Base.{if◌then◌else◌}

-- The keys that one update of the input reports
pub record Keys : Type 0 where
  pub up : Bool
  pub down : Bool
  pub a : Bool
  pub b : Bool

-- The loop of `menu_run` goes on, or returns an option; `none` is -1.
pub data Round : Type 0 where
  go_on : ℕ → Round
  chosen : Option ℕ → Round

-- `if (selected_option > 0) … else …`, for a menu with at least one option
abbrev pub move_up : ℕ → ℕ → ℕ
move_up count selected = if ltb 0 selected then selected - 1 else count - 1

abbrev pub move_down : ℕ → ℕ → ℕ
move_down count selected = if ltb selected (count - 1) then selected + 1 else 0

-- One round of the loop, with the tests of the keys in their order
unfoldable pub menu_round : ℕ → Keys → ℕ → Round
menu_round count keys selected =
    let after_up = if keys.up then move_up count selected else selected in
    let after_down = if keys.down then move_down count after_up else after_up in
    if keys.a then chosen (some after_down) else if keys.b then chosen none else go_on after_down

-- `if (selected_option >= option_count || selected_option < 0) selected_option = 0`
abbrev pub first_option : ℕ → Option ℕ → ℕ
first_option count none = 0
first_option count (some selected) = if ltb selected count then selected else 0

abbrev pub next_round : (ℕ → Option (Option ℕ)) → Round → Option (Option ℕ)
next_round rest (go_on selected) = rest selected
next_round rest (chosen result) = some result

-- The loop over what the updates to come report; without an end, `none`
unfoldable pub menu_loop : ℕ → List Keys → ℕ → Option (Option ℕ)
unfolding menu_round
menu_loop count [] selected = none
menu_loop count (keys ∷ more) selected =
    next_round (menu_loop count more) (menu_round count keys selected)

unfoldable pub menu_run : ℕ → List Keys → Option ℕ → Option (Option ℕ)
unfolding menu_loop
menu_run count keys selected_option = menu_loop count keys (first_option count selected_option)
