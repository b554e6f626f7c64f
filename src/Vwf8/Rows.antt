-- ===== src/Vwf8/Rows.antt =====
-- The pixels that vwf8_draw_char of software/userland/src/shared/vwf8.c sets.
use nileswan.Base.{
  ℕ, zero, suc, ◌+◌, ◌-◌, ◌*◌, ◌/◌, ◌%◌, ◌^◌, ◌≤◌, ◌<◌, ◌≡◌, ◌≢◌, refl, ap, ap₂, sym, ◌∙◌, arith,
}
use nileswan.Base.{Bool, true, false, ◌&&◌, ◌||◌, Bool-cases, inl, inr, ==_iff}
use nileswan.Base.{◌==◌, ◌!=◌, ltb, leb, if◌then◌else◌, u16, test_bit}
use nileswan.Vwf8.{
  Memory, store, clear_mask, left_byte, right_byte, draw_row, draw_rows, vwf8_draw_char,
}
use nileswan.Vwf8.Pixels.{left_byte_bit, right_byte_bit, drawn_bit, covered}

-- A pixel of a line of tiles, the leftmost in the highest bit
abbrev pub pixel : ℕ → Memory → ℕ → ℕ → Bool
pixel tile mem row col = test_bit (mem (tile + col / 8 * 16 + row * 2)) (7 - col % 8)

store_here : (a v : ℕ) (mem : Memory) → store a v mem a ≡ v
store_here a v mem = ground arith

store_other : (a v x : ℕ) (mem : Memory) → x ≢ a → store a v mem x ≡ mem x
store_other a v x mem other = ground arith

module _ (font : ℕ → ℕ) (mask fine : ℕ) where
  draw_row_other :
      (byte tile a : ℕ) (mem : Memory)
      → a ≢ tile
      → a ≢ tile + 16
      → draw_row byte mask fine tile mem a ≡ mem a
  draw_row_other byte tile a mem l r =
      let left = store tile (left_byte byte mask fine (mem tile)) mem in
      store_other (tile + 16) (right_byte byte mask fine (left (tile + 16))) a left r
      ∙ store_other tile (left_byte byte mask fine (mem tile)) a mem l

  draw_row_left :
      (byte tile : ℕ) (mem : Memory)
      → draw_row byte mask fine tile mem tile ≡ left_byte byte mask fine (mem tile)
  draw_row_left byte tile mem =
      let left = store tile (left_byte byte mask fine (mem tile)) mem in
      store_other (tile + 16) (right_byte byte mask fine (left (tile + 16))) tile left (omega arith)
      ∙ store_here tile (left_byte byte mask fine (mem tile)) mem

  draw_row_right :
      (byte tile : ℕ) (mem : Memory)
      → draw_row byte mask fine tile mem (tile + 16) ≡ right_byte byte mask fine (mem (tile + 16))
  draw_row_right byte tile mem =
      let left = store tile (left_byte byte mask fine (mem tile)) mem in
      store_here (tile + 16) (right_byte byte mask fine (left (tile + 16))) left
      ∙ ap (right_byte byte mask fine)
          (store_other tile (left_byte byte mask fine (mem tile)) (tile + 16) mem (omega arith))

  draw_rows_other :
      (n i tile a : ℕ) (mem : Memory)
      → ((r : ℕ) → r < n → (a ≢ tile + 2 * r) × (a ≢ tile + 2 * r + 16))
      → draw_rows font mask fine n i tile mem a ≡ mem a
  unfolding draw_rows
  draw_rows_other zero i tile a mem away = refl
  draw_rows_other (suc n) i tile a mem away =
      draw_rows_other n (i + 1) (tile + 2) a (draw_row (font (1 + i)) mask fine tile mem)
        (λ r small.
          let (l, h) = away (suc r) (omega arith) in (λ e. l (omega arith), λ e. h (omega arith)))
      ∙ (let (l, h) = away 0 (omega arith) in
          draw_row_other (font (1 + i)) tile a mem (λ e. l (omega arith)) (λ e. h (omega arith)))

  draw_rows_left :
      (n i tile r : ℕ) (mem : Memory)
      → r < n
      → n ≤ 8
      → draw_rows font mask fine n i tile mem (tile + 2 * r)
        ≡ left_byte (font (1 + i + r)) mask fine (mem (tile + 2 * r))
  unfolding draw_rows
  draw_rows_left zero i tile r mem small eight = absurd (omega arith)
  draw_rows_left (suc n) i tile zero mem small eight =
      let here : tile + 2 * 0 ≡ tile = omega arith in
      ap
        (draw_rows font mask fine n (i + 1) (tile + 2) (draw_row (font (1 + i)) mask fine tile mem))
        here
      ∙ draw_rows_other n (i + 1) (tile + 2) tile (draw_row (font (1 + i)) mask fine tile mem)
          (λ r' s. (omega arith, omega arith))
      ∙ draw_row_left (font (1 + i)) tile mem
      ∙ ap₂ (λ k a. left_byte (font k) mask fine (mem a)) (omega arith) (sym here)
  draw_rows_left (suc n) i tile (suc r) mem small eight =
      let there : tile + 2 * suc r ≡ tile + 2 + 2 * r = omega arith in
      let first = draw_row (font (1 + i)) mask fine tile mem in
      ap (draw_rows font mask fine n (i + 1) (tile + 2) first) there
      ∙ draw_rows_left n (i + 1) (tile + 2) r first (omega arith) (omega arith)
      ∙ ap₂ (λ k v. left_byte (font k) mask fine v) (omega arith)
          (draw_row_other (font (1 + i)) tile (tile + 2 + 2 * r) mem (omega arith) (omega arith)
            ∙ ap mem (sym there))

  draw_rows_right :
      (n i tile r : ℕ) (mem : Memory)
      → r < n
      → n ≤ 8
      → draw_rows font mask fine n i tile mem (tile + 2 * r + 16)
        ≡ right_byte (font (1 + i + r)) mask fine (mem (tile + 2 * r + 16))
  unfolding draw_rows
  draw_rows_right zero i tile r mem small eight = absurd (omega arith)
  draw_rows_right (suc n) i tile zero mem small eight =
      let here : tile + 2 * 0 + 16 ≡ tile + 16 = omega arith in
      ap
        (draw_rows font mask fine n (i + 1) (tile + 2) (draw_row (font (1 + i)) mask fine tile mem))
        here
      ∙ draw_rows_other n (i + 1) (tile + 2) (tile + 16)
          (draw_row (font (1 + i)) mask fine tile mem) (λ r' s. (omega arith, omega arith))
      ∙ draw_row_right (font (1 + i)) tile mem
      ∙ ap₂ (λ k a. right_byte (font k) mask fine (mem a)) (omega arith) (sym here)
  draw_rows_right (suc n) i tile (suc r) mem small eight =
      let there : tile + 2 * suc r + 16 ≡ tile + 2 + 2 * r + 16 = omega arith in
      let first = draw_row (font (1 + i)) mask fine tile mem in
      ap (draw_rows font mask fine n (i + 1) (tile + 2) first) there
      ∙ draw_rows_right n (i + 1) (tile + 2) r first (omega arith) (omega arith)
      ∙ ap₂ (λ k v. right_byte (font k) mask fine v) (omega arith)
          (draw_row_other (font (1 + i)) tile (tile + 2 + 2 * r + 16) mem (omega arith)
              (omega arith)
            ∙ ap mem (sym there))

-- Whether a column belongs to a character at `x`: it begins in the column before `x`, except where
-- that is in the tile before.
abbrev pub in_char : ℕ → ℕ → ℕ → Bool
in_char x w col = (leb x col || (col + 1 == x && x % 8 != 0)) && ltb (col + 1) (x + w)

-- The bit of a column, in the first and in the second of the two tiles
left_covered :
    (w x col : ℕ)
    → w ≤ 8
    → col / 8 ≡ x / 8
    → covered w (17 - w - x % 8) (8 + (7 - col % 8)) ≡ in_char x w col
left_covered w x col narrow same = ground arith

right_covered :
    (w x col : ℕ)
    → w ≤ 8
    → col / 8 ≡ x / 8 + 1
    → covered w (17 - w - x % 8) (7 - col % 8) ≡ in_char x w col
right_covered w x col narrow next = ground arith

outside : (w x col : ℕ) → w ≤ 8 → col / 8 ≢ x / 8 → col / 8 ≢ x / 8 + 1 → in_char x w col ≡ false
outside w x col narrow other after = ground arith

drawn_pixel :
    (byte w fine k index : ℕ) (inner old : Bool)
    → covered w fine k ≡ inner
    → (inner ≡ true → k - fine ≡ index)
    → drawn_bit byte w fine k old ≡ (if inner then test_bit byte index else old)
drawn_pixel byte w fine k index true old yes_inner same =
    rw yes_inner (ap (test_bit byte) (same refl))
drawn_pixel byte w fine k index false old not_inner same = rw not_inner refl

module _ (font8 : ℕ → ℕ → ℕ) where
  -- The pixels behind the rows of a character whose tile is at `at`
  pixel_drawn :
      (tile chr x row col : ℕ) (mem : Memory)
      → font8 chr 0 ≤ 8
      → font8 chr (1 + row) < 2 ^ font8 chr 0
      → row < 8
      → let w = font8 chr 0 in
        let fine = 17 - w - x % 8 in
        pixel tile
          (draw_rows (font8 chr) (clear_mask w fine) fine 8 0 (tile + x / 8 * 16) mem)
          row
          col
        ≡ (if in_char x w col
            then test_bit (font8 chr (1 + row)) (x + w - 2 - col)
            else pixel tile mem row col)
  pixel_drawn tile chr x row col mem narrow small low =
      let w = font8 chr 0 in
      let byte = font8 chr (1 + row) in
      let fine = 17 - w - x % 8 in
      let mask = clear_mask w fine in
      let at = tile + x / 8 * 16 in
      let a = tile + col / 8 * 16 + row * 2 in
      let k = 7 - col % 8 in
      let drawn = draw_rows (font8 chr) mask fine 8 0 at mem in
      let font_row : 1 + 0 + row ≡ 1 + row = omega arith in
      elim (Bool-cases (col / 8 == x / 8)) [
        | inl here ↦
            let same = (==_iff (col / 8) (x / 8)).0 here in
            let place : a ≡ at + 2 * row = omega (arith, same) in
            ap (λ b. test_bit (drawn b) k) place
            ∙ ap (λ v. test_bit v k)
                (draw_rows_left (font8 chr) mask fine 8 0 at row mem low (omega arith))
            ∙ ap₂ (λ r b. test_bit (left_byte (font8 chr r) mask fine (mem b)) k) font_row
                (sym place)
            ∙ left_byte_bit byte w fine (mem a) k narrow small (omega arith)
            ∙ drawn_pixel byte w fine (8 + k) (x + w - 2 - col) (in_char x w col)
                (test_bit (mem a) k) (left_covered w x col narrow same)
                (λ inner. ground (arith, inner, same))
        | inr other ↦ elim (Bool-cases (col / 8 == x / 8 + 1)) [
          | inl after ↦
              let next = (==_iff (col / 8) (x / 8 + 1)).0 after in
              let place : a ≡ at + 2 * row + 16 = omega (arith, next) in
              ap (λ b. test_bit (drawn b) k) place
              ∙ ap (λ v. test_bit v k)
                  (draw_rows_right (font8 chr) mask fine 8 0 at row mem low (omega arith))
              ∙ ap₂ (λ r b. test_bit (right_byte (font8 chr r) mask fine (mem b)) k) font_row
                  (sym place)
              ∙ right_byte_bit byte w fine (mem a) k narrow small (omega arith)
              ∙ drawn_pixel byte w fine k (x + w - 2 - col) (in_char x w col) (test_bit (mem a) k)
                  (right_covered w x col narrow next) (λ inner. ground (arith, inner, next))
          | inr far ↦
              let no_left : col / 8 ≢ x / 8 = ground (arith, other) in
              let no_right : col / 8 ≢ x / 8 + 1 = ground (arith, far) in
              ap (λ v. test_bit v k)
                (draw_rows_other (font8 chr) mask fine 8 0 at a mem
                  (λ r s. (λ e. no_left (omega (arith, e)), λ e. no_right (omega (arith, e)))))
              ∙ sym (
                  ap (λ b. if b then test_bit byte (x + w - 2 - col) else pixel tile mem row col)
                    (outside w x col narrow no_left no_right))
        ]
      ]

  -- vwf8_draw_char sets the pixels of a row of the character's columns to the bits of the font, the
  -- highest first, and no other pixel of the line. It begins one column to the left of `x`, but drops that
  -- column where it is in the tile before. This holds for a width of at most 8, font bytes that fit in it,
  -- and tiles that end below 2^16.
  pub vwf8_draw_char_pixels :
      (tile chr x row col : ℕ) (mem : Memory)
      → font8 chr 0 ≤ 8
      → font8 chr (1 + row) < 2 ^ font8 chr 0
      → row < 8
      → tile + x / 8 * 16 + 32 ≤ 2 ^ 16
      → let w = font8 chr 0 in
        pixel tile (vwf8_draw_char font8 tile chr x mem).1 row col ≡ (
          if in_char x w col
          then test_bit (font8 chr (1 + row)) (x + w - 2 - col)
          else pixel tile mem row col)
  unfolding vwf8_draw_char
  vwf8_draw_char_pixels tile chr x row col mem narrow small low room =
      let w = font8 chr 0 in
      let fine = 17 - w - x % 8 in
      let mask = clear_mask w fine in
      let at = tile + x / 8 * 16 in
      let a = tile + col / 8 * 16 + row * 2 in
      let k = 7 - col % 8 in
      let first : u16 (tile + x / 8 * 16) ≡ at = omega arith in
      ap (λ t. test_bit (draw_rows (font8 chr) mask fine 8 0 t mem a) k) first
      ∙ pixel_drawn tile chr x row col mem narrow small low
