-- ===== src/Vwf8/Tests.antt =====
-- A character of 5 columns, for the laws of software/userland/src/shared/vwf8.c.
use nileswan.Base.{ℕ, zero, suc, ◌+◌, ◌-◌, ◌≡◌, arith, if◌then◌else◌, test_bit}
use nileswan.Vwf8.{Memory, vwf8_draw_char}
use nileswan.Vwf8.Rows.{pixel, in_char, vwf8_draw_char_pixels}

abbrev font : ℕ → ℕ → ℕ
font ch zero = 5
font ch (suc i) = 9

abbrev blank : Memory
blank a = 0

-- At column 6, across the border of two tiles
vwf8_draw_char_pixels_example :
    pixel 8192 (vwf8_draw_char font 8192 65 6 blank).1 3 8
    ≡ (if in_char 6 5 8 then test_bit 9 (6 + 5 - 2 - 8) else pixel 8192 blank 3 8)
vwf8_draw_char_pixels_example =
    vwf8_draw_char_pixels font 8192 65 6 3 8 blank (omega arith) (omega arith) (omega arith)
      (omega arith)
