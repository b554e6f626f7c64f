-- ===== src/Console/Columns.antt =====
-- That console_print of software/userland/src/shared/console.c stays within the display.
use nileswan.Base.{ℕ, ◌+◌, ◌*◌, ◌%◌, ◌≤◌, ◌<◌, ◌≡◌, refl, ap, ap₂, sym, ◌∙◌, arith}
use nileswan.Base.{
  Bool, true, false, not, ◌&&◌, ◌||◌, Bool-cases, inl, inr, List, [], ◌∷◌, ◌++◌, some,
}
use nileswan.Base.{◌==◌, ltb, leb, if◌then◌else◌, u16, length, &&-split}
use nileswan.Console.{
  Event, clear, draw, clear_header, draw_header, serial, cdc, Console, emit, cdc_newline,
  serial_newline,
}
use nileswan.Console.{console_draw_newline, console_print_newline, display_width_px}
use nileswan.Console.{console_flag_center, console_flag_right, console_flag_highlight}
use nileswan.Console.{console_flag_mcu_serial, console_flag_monospace}
use nileswan.Console.Print.{
  Cursor, clear_right, serial_if, beyond, finish, new_line, cell_width, print_char, console_print,
}
use nileswan.Console.Loop.{
  print_char_cases, print_loop_rule, clear_right_lem, rounds_most, new_line_str,
}
use nileswan.Console.Lines.{IsScrolled, console_draw_newline-IsScrolled}

unfoldable pub has_tab : List ℕ → Bool
has_tab [] = false
has_tab (ch ∷ str) = ch == 9 || has_tab str

module _ (font8 : ℕ → ℕ → ℕ) where
  -- Every character is drawn to one of the 16 lines, and between the columns 1 and 224.
  unfoldable pub inside : List Event → Bool
  inside [] = true
  inside (draw y h ch x ∷ es) =
      (ltb y 16 && (leb 1 x && leb (x + font8 ch 0) display_width_px)) && inside es
  inside (clear y n ∷ es) = inside es
  inside (clear_header ∷ es) = inside es
  inside (draw_header ch x ∷ es) = inside es
  inside (serial b ∷ es) = inside es
  inside (cdc bs ∷ es) = inside es

  inside-append :
      (es fs : List Event) → inside es ≡ true → inside fs ≡ true → inside (es ++ fs) ≡ true
  unfolding inside
  inside-append [] fs h k = k
  inside-append (draw y h ch x ∷ es) fs ok k =
      let (here, rest) =
        &&-split (ltb y 16 && (leb 1 x && leb (x + font8 ch 0) display_width_px)) (inside es) ok in
      ap₂ (λ a b. a && b) here (inside-append es fs rest k)
  inside-append (clear y n ∷ es) fs h k = inside-append es fs h k
  inside-append (clear_header ∷ es) fs h k = inside-append es fs h k
  inside-append (draw_header ch x ∷ es) fs h k = inside-append es fs h k
  inside-append (serial b ∷ es) fs h k = inside-append es fs h k
  inside-append (cdc bs ∷ es) fs h k = inside-append es fs h k

  -- A console whose next character is in its display, as all before it are
  abbrev pub IsConsole : Console → Type 0
  IsConsole c = IsScrolled c × (1 ≤ c.console_x) × (c.console_x ≤ 224) × (inside c.events ≡ true)

  -- Neither CONSOLE_FLAG_CENTER nor CONSOLE_FLAG_RIGHT nor CONSOLE_FLAG_MONOSPACE
  abbrev pub IsPlain : ℕ → Type 0
  IsPlain flags =
      (console_flag_center flags ≡ false)
      × (console_flag_right flags ≡ false)
      × (console_flag_monospace flags ≡ false)

  -- What the loop keeps
  abbrev InPlace : Cursor → Type 0
  InPlace t =
      IsPlain t.flags
      × (1 ≤ t.x)
      × (t.x ≤ 224)
      × (has_tab t.str ≡ false)
      × IsScrolled t.console
      × (inside t.console.events ≡ true)

  new_line-InPlace :
      (flags : ℕ) (str : List ℕ) (c : Console)
      → IsPlain flags
      → has_tab str ≡ false
      → IsConsole c
      → InPlace (new_line font8 flags str c)
  new_line-InPlace flags str c (middle, left, mono) tabless (scrolled, least, most, ok) =
      rw (middle, left) ((middle, left, mono), least, most, tabless, scrolled, ok)

  clear_right-IsPlain : (flags : ℕ) → IsPlain flags → IsPlain (clear_right flags)
  clear_right-IsPlain flags (middle, left, mono) =
      let (left', middle', mono', quiet) = clear_right_lem flags in
      (middle' ∙ middle, left', mono' ∙ mono)

  serial_if-inside : (flags b : ℕ) → inside (serial_if flags b) ≡ true
  unfolding inside
  serial_if-inside flags b = ground arith

  draw_newline-IsConsole :
      (c : Console) → IsScrolled c → inside c.events ≡ true → IsConsole (console_draw_newline c)
  unfolding inside
  draw_newline-IsConsole c scrolled ok = (
    console_draw_newline-IsScrolled c scrolled,
    omega arith,
    omega arith,
    inside-append c.events (clear ((c.console_y + 1) % 16) 1 ∷ []) ok refl,
  )

  print_newline-IsConsole :
      (flags : ℕ) (c : Console)
      → IsScrolled c
      → inside c.events ≡ true
      → IsConsole (console_print_newline flags c)
  unfolding inside
  print_newline-IsConsole flags c scrolled ok =
      let copied = emit (cdc_newline flags) c in
      let (scrolled', least, most, ok') =
        draw_newline-IsConsole copied scrolled
          (inside-append c.events (cdc_newline flags) ok (ground arith)) in
      (
        scrolled',
        least,
        most,
        inside-append (console_draw_newline copied).events (serial_newline flags) ok'
            (ground arith),
      )

  -- A character that does not reach beyond the display
  fits :
      (x w : ℕ)
      → x ≤ 224
      → w ≤ 8
      → beyond (u16 (x + w)) ≡ false
      → (u16 (x + w) ≡ x + w) × (x + w ≤ 224)
  fits x w most narrow near = (omega arith, ground (arith, near))

  print_char-InPlace :
      ((ch : ℕ) → font8 ch 0 ≤ 8)
      → (t : Cursor) (ch : ℕ) (str : List ℕ) → t.str ≡ ch ∷ str
      → InPlace t
      → InPlace (print_char font8 t.flags t.x ch str t.console)
  unfolding has_tab inside
  print_char-InPlace narrow t ch str more (plain, least, most, tabless, scrolled, ok) =
      let c = t.console in
      let no_tab : has_tab (ch ∷ str) ≡ false = ap has_tab (sym more) ∙ tabless in
      print_char_cases font8 t.flags t.x ch str c InPlace
        (λ line.
          new_line-InPlace (clear_right t.flags) str (console_print_newline t.flags c)
            (clear_right-IsPlain t.flags plain) (ground (arith, no_tab))
            (print_newline-IsConsole t.flags c scrolled ok))
        (λ tab. absurd (ground (arith, no_tab)))
        (λ other glyph far.
          new_line-InPlace (clear_right t.flags) (ch ∷ str) (console_draw_newline c)
            (clear_right-IsPlain t.flags plain) no_tab (draw_newline-IsConsole c scrolled ok))
        (λ other glyph near.
          let w = cell_width font8 t.flags ch in
          let cell : w ≡ font8 ch 0 = ap (λ b. if b then 5 else font8 ch 0) plain.2 in
          let (sum, room) = fits t.x w most (omega (arith, cell, narrow ch)) near in
          let here : (ltb c.console_y 16 && (leb 1 t.x && leb (t.x + font8 ch 0) display_width_px))
              ≡ true =
            ground (arith, scrolled.0, cell, room, least) in
          (
            plain,
            omega (arith, sum, least),
            omega (arith, sum, room),
            ground (arith, no_tab),
            scrolled,
            inside-append c.events
                (draw c.console_y (console_flag_highlight t.flags) ch t.x ∷ serial_if t.flags ch) ok
                (ap₂ (λ a b. a && b) here (serial_if-inside t.flags ch)),
          ))

  finish-IsConsole : (t : Cursor) → InPlace t → IsConsole (finish t)
  finish-IsConsole t (plain, least, most, tabless, scrolled, ok) =
      let no_flag : not (console_flag_center t.flags || console_flag_right t.flags) ≡ true =
        ground (arith, plain.0, plain.1) in
      rw no_flag (scrolled, omega arith, omega arith, ok)

  -- A text without tabs that is neither centred nor set to the right nor in cells of 5 columns is drawn
  -- within the 16 lines and within the columns 1 to 224 of its lines, and the next will be:
  -- console_print keeps the invariant of the console, for texts of fewer than 4096 characters of at most
  -- 8 columns each.
  pub console_print-IsConsole :
      ((ch : ℕ) → font8 ch 0 ≤ 8)
      → (flags : ℕ) (str : List ℕ) (c : Console) → length str < 4096
      → IsPlain flags
      → has_tab str ≡ false
      → IsConsole c
      → (d : Console) × (console_print font8 flags str c ≡ some d) × IsConsole d
  unfolding console_print inside
  console_print-IsConsole narrow flags str c short plain tabless (scrolled, least, most, ok) =
      let copied = if console_flag_mcu_serial flags then emit (cdc str ∷ []) c else c in
      let ready : IsConsole copied = elim (Bool-cases (console_flag_mcu_serial flags)) [
        | inl sends ↦
            rw sends (scrolled, least, most, inside-append c.events (cdc str ∷ []) ok refl)
        | inr silent ↦ rw silent (scrolled, least, most, ok)
      ] in
      let start = new_line font8 flags str copied in
      let size : length start.str ≡ length str = ap length (new_line_str font8 flags str copied) in
      let (u, ends, over, place) =
        print_loop_rule font8 InPlace narrow
          (λ t ch rest more there. print_char-InPlace narrow t ch rest more there)
          (1 + 2 * length str) start (omega (arith, size))
          (omega (arith, size, rounds_most font8 start))
          (new_line-InPlace flags str copied plain tabless ready) in
      (finish u, ends, finish-IsConsole u place)
