-- ===== src/Console/Lines.antt =====
-- The lines that software/userland/src/shared/console.c shows on the display, and where it draws.
use nileswan.Base.{ℕ, ◌+◌, ◌*◌, ◌%◌, ◌/◌, ◌<◌, ◌≡◌, refl, ap, sym, ◌∙◌, arith}
use nileswan.Base.{Bool, true, false, ◌&&◌, List, [], ◌∷◌, ◌++◌}
use nileswan.Base.{◌==◌, ltb, leb, if◌then◌else◌, u8, ◌<<<◌}
use nileswan.Console.{Event, clear, draw, clear_header, draw_header, serial, cdc}
use nileswan.Console.{Console, console_draw_newline}

-- A character of a line: whether highlighted, its code and its column
abbrev pub Glyph : Type 0
Glyph = Bool × ℕ × ℕ

-- What line `y` holds after the events: what has been drawn since it was cleared
unfoldable pub line : ℕ → List Glyph → List Event → List Glyph
line y held [] = held
line y held (draw y' h ch x ∷ es) = line y (if y == y' then held ++ ((h, ch, x) ∷ []) else held) es
line y held (clear first n ∷ es) = line y (if leb first y && ltb y (first + n) then [] else held) es
line y held (clear_header ∷ es) = line y held es
line y held (draw_header ch x ∷ es) = line y held es
line y held (serial b ∷ es) = line y held es
line y held (cdc bs ∷ es) = line y held es

-- The map of console_ui_init: the tile at a row and a column of screen 1. It has the 16 lines twice.
abbrev pub screen_1 : ℕ → ℕ → ℕ
screen_1 row ix = row % 16 * 28 + ix

-- The line of text at row `k` of those that the display shows below the header, which covers two rows
abbrev pub text_row : ℕ → Console → List Glyph
text_row k c = line (screen_1 ((2 + k + c.scrl_y / 8) % 32) 0 / 28) [] c.events

line-append :
    (y : ℕ) (held : List Glyph) (es fs : List Event)
    → line y held (es ++ fs) ≡ line y (line y held es) fs
unfolding line
line-append y held [] fs = refl
line-append y held (draw y' h ch x ∷ es) fs =
    line-append y (if y == y' then held ++ ((h, ch, x) ∷ []) else held) es fs
line-append y held (clear first n ∷ es) fs =
    line-append y (if leb first y && ltb y (first + n) then [] else held) es fs
line-append y held (clear_header ∷ es) fs = line-append y held es fs
line-append y held (draw_header ch x ∷ es) fs = line-append y held es fs
line-append y held (serial b ∷ es) fs = line-append y held es fs
line-append y held (cdc bs ∷ es) fs = line-append y held es fs

-- The line that is written to is one of the 16, and the scroll register belongs to it.
abbrev pub IsScrolled : Console → Type 0
IsScrolled c = (c.console_y < 16) × (c.scrl_y ≡ u8 (120 + (c.console_y <<< 3)))

-- The line in row `k` is the one that is `k + 1` lines behind the one that is written to.
text_row_lem :
    (k : ℕ) (c : Console)
    → IsScrolled c
    → text_row k c ≡ line ((c.console_y + k + 1) % 16) [] c.events
text_row_lem k c (small, scrolled) = ap (λ y. line y [] c.events) (rw scrolled (omega arith))

pub console_draw_newline-IsScrolled :
    (c : Console) → IsScrolled c → IsScrolled (console_draw_newline c)
console_draw_newline-IsScrolled c (small, scrolled) = (omega arith, refl)

line_after_newline :
    (y : ℕ) (c : Console)
    → line y [] (console_draw_newline c).events ≡ (
        if leb ((c.console_y + 1) % 16) y && ltb y ((c.console_y + 1) % 16 + 1)
        then []
        else line y [] c.events)
unfolding line
line_after_newline y c = line-append y [] c.events (clear ((c.console_y + 1) % 16) 1 ∷ [])

-- A new line moves the text on the display up by one row, and nothing else of it changes; the row that comes
-- in at the bottom is blank, and is the line that is written to. This holds of a console that is in one of
-- its 16 lines with the scroll register set for it, which it then is again.
pub console_draw_newline_scrolls :
    (c : Console) (k : ℕ)
    → IsScrolled c
    → k < 15
    → let d = console_draw_newline c in
      (text_row k d ≡ text_row (k + 1) c)
      × (text_row 15 d ≡ [])
      × (text_row 15 d ≡ line d.console_y [] d.events)
      × IsScrolled d
console_draw_newline_scrolls c k ok small =
    let d = console_draw_newline c in
    let e = (c.console_y + 1) % 16 in
    let y = (c.console_y + (k + 1) + 1) % 16 in
    let other : (leb e y && ltb y (e + 1)) ≡ false = ground (arith, ok.0) in
    let same : (leb e e && ltb e (e + 1)) ≡ true = ground arith in
    let ok' = console_draw_newline-IsScrolled c ok in
    (
      text_row_lem k d ok'
          ∙ ap (λ z. line z [] d.events) (omega (arith, ok.0))
          ∙ line_after_newline y c
          ∙ ap (λ b. if b then [] else line y [] c.events) other
          ∙ sym (text_row_lem (k + 1) c ok),
      text_row_lem 15 d ok'
          ∙ ap (λ z. line z [] d.events) (omega (arith, ok.0))
          ∙ line_after_newline e c
          ∙ ap (λ b. if b then [] else line e [] c.events) same,
      text_row_lem 15 d ok' ∙ ap (λ y. line y [] d.events) (omega (arith, ok'.0)),
      ok',
    )
