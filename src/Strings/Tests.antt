-- ===== src/Strings/Tests.antt =====
-- Runs of the string descriptors, and the theorems at concrete inputs.
use nileswan.Base.{ℕ, ◌≡◌, refl, List, [], ◌∷◌, none, take}
use nileswan.Strings.{board_usb_get_serial, string_cb}

abbrev chip : List ℕ
chip = 0 ∷ 1 ∷ 171 ∷ 255 ∷ 16 ∷ 5 ∷ 6 ∷ 7 ∷ 8 ∷ 9 ∷ 10 ∷ 11 ∷ []

first_digits : take 8 (board_usb_get_serial chip 32) ≡ 48 ∷ 48 ∷ 48 ∷ 49 ∷ 65 ∷ 66 ∷ 70 ∷ 70 ∷ []
unfolding board_usb_get_serial
first_digits = refl

no_such_string : string_cb chip 6 ≡ none
unfolding string_cb
no_such_string = refl
