-- ===== src/Vwf8.antt =====
-- software/userland/src/shared/vwf8.c: characters of different widths, 8 pixels high, drawn to the tiles.
pub mod Pixels
pub mod Rows
mod Tests
use nileswan.Base.{
  ℕ, zero, suc, ◌+◌, ◌-◌, ◌*◌, ◌/◌, ◌%◌, ◌^◌, bit_and, bit_or, List, [], ◌∷◌, ◌==◌, if◌then◌else◌,
}
use nileswan.Base.{u8, u16, ◌<<<◌, ◌>>>◌, not16, get_or}

-- The memory of the tiles: its bytes by their addresses of 16 bits
abbrev pub Memory : Type 0
Memory = ℕ → ℕ

abbrev pub store : ℕ → ℕ → Memory → Memory
store a v mem x = if x == a then v else mem x

abbrev pub font_width_mask : List ℕ
font_width_mask = 0 ∷ 1 ∷ 3 ∷ 7 ∷ 15 ∷ 31 ∷ 63 ∷ 127 ∷ 255 ∷ []

-- `mask` of vwf8_draw_char, for a width of at most 8
abbrev pub clear_mask : ℕ → ℕ → ℕ
clear_mask width x_fine = not16 (u16 (get_or font_width_mask width 0 <<< x_fine))

-- The two bytes of a row, in neighbouring tiles
abbrev pub left_byte : ℕ → ℕ → ℕ → ℕ → ℕ
left_byte byte mask x_fine old =
    u8 (bit_or (bit_and old (mask >>> 8)) (u16 (byte <<< x_fine) >>> 8))

abbrev pub right_byte : ℕ → ℕ → ℕ → ℕ → ℕ
right_byte byte mask x_fine old = u8 (bit_or (bit_and old mask) (u16 (byte <<< x_fine)))

abbrev pub draw_row : ℕ → ℕ → ℕ → ℕ → Memory → Memory
draw_row byte mask x_fine tile mem =
    let left = store tile (left_byte byte mask x_fine (mem tile)) mem in
    store (tile + 16) (right_byte byte mask x_fine (left (tile + 16))) left

-- `n` rows, from the row `i` on
unfoldable pub draw_rows : (ℕ → ℕ) → ℕ → ℕ → ℕ → ℕ → ℕ → Memory → Memory
draw_rows font mask x_fine zero i tile mem = mem
draw_rows font mask x_fine (suc n) i tile mem =
    draw_rows font mask x_fine n (i + 1) (tile + 2) (draw_row (font (1 + i)) mask x_fine tile mem)

-- The font, a generated table, is a parameter: the bytes of a character, the first of them its width. For a
-- character below the blank these are what the memory holds in front of the table.
module _ (font8 : ℕ → ℕ → ℕ) where
  abbrev pub vwf8_get_char_width : ℕ → ℕ
  vwf8_get_char_width chr = font8 chr 0

  -- up to the end of the line
  unfoldable pub vwf8_get_string_width : ℕ → List ℕ → ℕ
  vwf8_get_string_width w [] = w
  vwf8_get_string_width w (chr ∷ s) =
      let rest = vwf8_get_string_width (u16 (w + font8 chr 0)) s in if chr == 10 then w else rest

  -- with the column behind the character; `x` is a word of 16 bits
  unfoldable pub vwf8_draw_char : ℕ → ℕ → ℕ → Memory → ℕ × Memory
  unfolding draw_rows
  vwf8_draw_char tile chr x mem =
      let width = font8 chr 0 in
      let x_fine = 17 - width - x % 8 in
      (
        u16 (x + width),
        draw_rows (font8 chr) (clear_mask width x_fine) x_fine 8 0 (u16 (tile + (x >>> 3) * 16))
            mem,
      )

  unfoldable pub vwf8_draw_string : ℕ → List ℕ → ℕ → Memory → ℕ × Memory
  unfolding vwf8_draw_char
  vwf8_draw_string tile [] x mem = (x, mem)
  vwf8_draw_string tile (chr ∷ s) x mem =
      let (next_x, drawn) = vwf8_draw_char tile chr x mem in vwf8_draw_string tile s next_x drawn
