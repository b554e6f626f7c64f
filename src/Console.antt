-- ===== src/Console.antt =====
-- software/userland/src/shared/console.c: the lines of text of the userland programs, with their copies to
-- the serial ports.
pub mod Print
pub mod Loop
pub mod Text
pub mod Order
pub mod Lines
pub mod Columns
mod Tests
use nileswan.Base.{ℕ, zero, suc, ◌+◌, ◌-◌, ◌*◌, ◌%◌, ◌/◌, ◌^◌, Bool, true, false, not, ◌&&◌, ◌||◌}
use nileswan.Base.{
  List, [], ◌∷◌, ◌++◌, ◌==◌, ◌!=◌, ltb, leb, if◌then◌else◌, u8, u16, ◌<<<◌, test_bit,
}
use nileswan.Vwf8.{vwf8_get_char_width, vwf8_get_string_width}

-- What the console does to the tiles and to the ports, in order: lines that are cleared (the number of the
-- first is a word of 16 bits), a character that is drawn (its line, whether highlighted, its column), a
-- character in the header, a byte to the serial port, bytes to the USB port.
pub data Event : Type 0 where
  clear : ℕ → ℕ → Event
  draw : ℕ → Bool → ℕ → ℕ → Event
  clear_header : Event
  draw_header : ℕ → ℕ → Event
  serial : ℕ → Event
  cdc : List ℕ → Event

-- `console_x`, `console_y` and IO_SCR1_SCRL_Y, with the events
pub record Console : Type 0 where
  pub console_x : ℕ
  pub console_y : ℕ
  pub scrl_y : ℕ
  pub events : List Event

abbrev pub display_width_px : ℕ
display_width_px = 224

abbrev pub console_flag_center : ℕ → Bool
console_flag_center flags = test_bit flags 0

abbrev pub console_flag_right : ℕ → Bool
console_flag_right flags = test_bit flags 1

abbrev pub console_flag_highlight : ℕ → Bool
console_flag_highlight flags = test_bit flags 2

abbrev pub console_flag_monospace : ℕ → Bool
console_flag_monospace flags = test_bit flags 3

abbrev pub console_flag_no_serial : ℕ → Bool
console_flag_no_serial flags = test_bit flags 4

abbrev pub console_flag_mcu_serial : ℕ → Bool
console_flag_mcu_serial flags = test_bit flags 5

abbrev pub emit : List Event → Console → Console
emit es c = record c { events = c.events ++ es }

unfoldable pub serial_puts : List ℕ → List Event
serial_puts [] = []
serial_puts (b ∷ bs) = serial b ∷ serial_puts bs

abbrev pub console_set_y : ℕ → Console → Console
console_set_y y c = record c {
  console_x = 1;
  console_y = y % 16;
  scrl_y = u8 (120 + ((y % 16) <<< 3));
}

abbrev pub console_clear : Console → Console
console_clear c = console_set_y 15 (emit (clear 0 16 ∷ []) c)

abbrev pub console_clear_lines : ℕ → ℕ → Console → Console
console_clear_lines y count c = emit (clear (u16 (c.console_y + 2 ^ 16 - 15 + y)) count ∷ []) c

abbrev pub cdc_newline : ℕ → List Event
cdc_newline flags = if console_flag_mcu_serial flags then cdc (13 ∷ 10 ∷ []) ∷ [] else []

abbrev pub serial_newline : ℕ → List Event
serial_newline flags = if not (console_flag_no_serial flags) then serial 13 ∷ serial 10 ∷ [] else []

abbrev pub console_clear_current_line : ℕ → Console → Console
console_clear_current_line flags c =
    let cleared = emit (cdc_newline flags ++ (clear c.console_y 1 ∷ [])) c in
    emit (serial_newline flags) (record cleared { console_x = 1 })

abbrev pub console_draw_newline : Console → Console
console_draw_newline c =
    console_set_y (u8 (c.console_y + 1)) (emit (clear ((c.console_y + 1) % 16) 1 ∷ []) c)

abbrev pub console_print_newline : ℕ → Console → Console
console_print_newline flags c =
    emit (serial_newline flags) (console_draw_newline (emit (cdc_newline flags) c))

-- A 16-bit `int` that is halved by `>> 1`
abbrev pub halved : ℕ → ℕ
halved x = if leb (2 ^ 15) x then x / 2 + 2 ^ 15 else x / 2

module _ (font8 : ℕ → ℕ → ℕ) where
  -- Where a text begins that is centred
  abbrev pub center : List ℕ → ℕ
  center str = halved (u16 (display_width_px + 2 ^ 16 - vwf8_get_string_width font8 0 str))

  -- `vwf8_draw_string` to a line: the characters with their columns, and the column behind them
  unfoldable pub draw_string : (ℕ → ℕ → Event) → List ℕ → ℕ → List Event × ℕ
  draw_string to [] x = ([], x)
  draw_string to (ch ∷ str) x =
      let (es, end) = draw_string to str (u16 (x + vwf8_get_char_width font8 ch)) in
      (to ch x ∷ es, end)

  unfoldable pub console_draw_header : List ℕ → Console → Console
  unfolding draw_string
  console_draw_header str c = emit (clear_header ∷ (draw_string draw_header str (center str)).0) c

  unfoldable pub console_print_header : List ℕ → Console → Console
  unfolding console_draw_header serial_puts
  console_print_header str c =
      emit
        (serial_puts (61 ∷ 61 ∷ 32 ∷ [])
          ++ (serial_puts str ++ serial_puts (32 ∷ 61 ∷ 61 ∷ 13 ∷ 10 ∷ [])))
        (console_draw_header str c)

  -- The column at which console_draw begins
  abbrev pub draw_x : ℕ → ℕ → List ℕ → ℕ
  draw_x x flags str =
      if console_flag_center flags
      then center str
      else if console_flag_right flags
      then u16 (display_width_px + 2 ^ 17 - x - vwf8_get_string_width font8 0 str)
      else x

  -- with its result
  unfoldable pub console_draw : ℕ → ℕ → ℕ → List ℕ → Console → ℕ × Console
  unfolding draw_string
  console_draw x y flags str c =
      let (es, end) =
        draw_string (draw y (console_flag_highlight flags)) str (draw_x x flags str) in
      (end, emit es c)
