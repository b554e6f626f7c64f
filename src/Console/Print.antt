-- ===== src/Console/Print.antt =====
-- console_print of software/userland/src/shared/console.c, and what calls it.
use nileswan.Base.{ℕ, zero, suc, ◌+◌, ◌-◌, ◌*◌, ◌^◌, Bool, true, false, not, ◌&&◌, ◌||◌}
use nileswan.Base.{List, [], ◌∷◌, Option, none, some, ◌==◌, ltb, if◌then◌else◌, u8, u16}
use nileswan.Base.{clear_field, take, length}
use nileswan.Vwf8.{vwf8_get_char_width, vwf8_get_string_width}
use nileswan.Console.{
  Event, draw, serial, cdc, Console, emit, display_width_px, center, console_draw_newline,
}
use nileswan.Console.{
  console_print_newline, console_flag_center, console_flag_right, console_flag_highlight,
}
use nileswan.Console.{console_flag_monospace, console_flag_no_serial, console_flag_mcu_serial}

-- The variables of console_print: `flags`, `x`, `str`
pub record Cursor : Type 0 where
  pub flags : ℕ
  pub x : ℕ
  pub str : List ℕ
  pub console : Console

-- `flags &= ~(CONSOLE_FLAG_RIGHT)`
abbrev pub clear_right : ℕ → ℕ
clear_right flags = clear_field flags 1 1

-- x > DISPLAY_WIDTH_PX, of a 16-bit `int`
abbrev pub beyond : ℕ → Bool
beyond x = ltb x (2 ^ 15) && ltb display_width_px x

abbrev pub serial_if : ℕ → ℕ → List Event
serial_if flags b = if not (console_flag_no_serial flags) then serial b ∷ [] else []

-- Behind the loop
abbrev pub finish : Cursor → Console
finish t =
    if not (console_flag_center t.flags || console_flag_right t.flags)
    then record (t.console) { console_x = u8 t.x }
    else t.console

abbrev pub at_end : List ℕ → Bool
at_end [] = true
at_end (ch ∷ str) = false

module _ (font8 : ℕ → ℕ → ℕ) where
  -- From `new_line` to the loop
  abbrev pub new_line : ℕ → List ℕ → Console → Cursor
  new_line flags str c =
      if console_flag_center flags
      then record { flags = flags; x = center font8 str; str = str; console = c }
      else if console_flag_right flags
      then record {
        flags = flags;
        x = u16 (display_width_px + 2 ^ 16 - vwf8_get_string_width font8 0 str);
        str = str;
        console = emit (serial_if flags 32) c;
      }
      else record { flags = flags; x = c.console_x; str = str; console = c }

  abbrev pub cell_width : ℕ → ℕ → ℕ
  cell_width flags ch = if console_flag_monospace flags then 5 else vwf8_get_char_width font8 ch

  -- One round for the character `ch`, with `str` behind it
  abbrev pub print_char : ℕ → ℕ → ℕ → List ℕ → Console → Cursor
  print_char flags x ch str c =
      if ch == 10
      then new_line (clear_right flags) str (console_print_newline flags c)
      else if ch == 9
      then record {
        flags = flags;
        x = u16 (x + 10);
        str = str;
        console = emit (serial_if flags ch) c;
      }
      else if beyond (u16 (x + cell_width flags ch))
      then new_line (clear_right flags) (ch ∷ str) (console_draw_newline c)
      else record {
        flags = flags;
        x = u16 (x + cell_width flags ch);
        str = str;
        console =
            emit (draw c.console_y (console_flag_highlight flags) ch x ∷ serial_if flags ch) c;
      }

  unfoldable pub print_step : Cursor → List ℕ → Cursor
  print_step t [] = t
  print_step t (ch ∷ str) = print_char t.flags t.x ch str t.console

  unfoldable pub print_loop : ℕ → Cursor → Option Console
  unfolding print_step
  print_loop zero t = if at_end t.str then some (finish t) else none
  print_loop (suc n) t = elim (at_end t.str) [
    | true ↦ some (finish t)
    | false ↦ print_loop n (print_step t t.str)
  ]

  -- A character is printed in one round, before which the line may be broken in another.
  unfoldable pub console_print : ℕ → List ℕ → Console → Option Console
  unfolding print_loop
  console_print flags str c =
      let copied = if console_flag_mcu_serial flags then emit (cdc str ∷ []) c else c in
      print_loop (1 + 2 * length str) (new_line flags str copied)

  unfoldable pub console_putc : ℕ → ℕ → Console → Option Console
  unfolding console_print
  console_putc flags ch =
      let byte = u8 ch in console_print flags (if byte == 0 then [] else byte ∷ [])

  -- `vsnprintf` to a buffer of 81 characters is a parameter's: the text that it makes, cut off.
  unfoldable pub console_printf : ℕ → List ℕ → Console → Option Console
  unfolding console_print
  console_printf flags text = console_print flags (take 80 text)

  -- CONSOLE_FLAG_RIGHT | CONSOLE_FLAG_HIGHLIGHT, with CONSOLE_FLAG_NO_SERIAL where all is well
  unfoldable pub console_print_status : Bool → Console → Option Console
  unfolding console_print
  console_print_status true = console_print 22 (91 ∷ 79 ∷ 75 ∷ 93 ∷ [])
  console_print_status false = console_print 6 (91 ∷ 70 ∷ 65 ∷ 73 ∷ 76 ∷ 93 ∷ [])
