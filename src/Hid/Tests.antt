-- ===== src/Hid/Tests.antt =====
-- The game pad on concrete buttons.
use nileswan.Base.{ℕ}
use nileswan.Hid.{Hat, centered, up, up_right, right, down_right, down, down_left, left, up_left}

-- the numbers of the USB HID game pad template
abbrev pub number : Hat → ℕ
number centered = 0
number up = 1
number up_right = 2
number right = 3
number down_right = 4
number down = 5
number down_left = 6
number left = 7
number up_left = 8
