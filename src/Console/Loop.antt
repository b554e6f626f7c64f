-- ===== src/Console/Loop.antt =====
-- The loop of console_print in software/userland/src/shared/console.c: that it ends, and a rule for what
-- it keeps.
use nileswan.Base.{ℕ, zero, suc, ◌+◌, ◌*◌, ◌^◌, ◌≤◌, ◌<◌, ◌≡◌, ◌≢◌, refl, ap, subst, ◌∙◌, arith}
use nileswan.Base.{
  Bool, true, false, ◌&&◌, Bool-cases, inl, inr, ◌⊎◌, ==_iff, List, [], ◌∷◌, none, some,
}
use nileswan.Base.{◌==◌, ◌!=◌, if◌then◌else◌, u16, length}
use nileswan.Vwf8.{vwf8_get_string_width}
use nileswan.Console.{Console, emit, draw, console_draw_newline, console_print_newline}
use nileswan.Console.{
  console_flag_center, console_flag_right, console_flag_highlight, console_flag_monospace,
  console_flag_no_serial,
}
use nileswan.Console.Print.{
  Cursor, clear_right, beyond, serial_if, finish, at_end, new_line, cell_width, print_char,
}
use nileswan.Console.Print.{print_step, print_loop}

pub clear_right_lem :
    (flags : ℕ)
    → (console_flag_right (clear_right flags) ≡ false)
      × (console_flag_center (clear_right flags) ≡ console_flag_center flags)
      × (console_flag_monospace (clear_right flags) ≡ console_flag_monospace flags)
      × (console_flag_no_serial (clear_right flags) ≡ console_flag_no_serial flags)
clear_right_lem flags = (
  ground arith,
  ap (λ d. d != 0) (omega arith),
  ap (λ d. d != 0) (omega arith),
  ap (λ d. d != 0) (omega arith),
)

text_cases : (str : List ℕ) → (str ≡ []) ⊎ ((ch : ℕ) × (rest : List ℕ) × (str ≡ ch ∷ rest))
text_cases [] = inl refl
text_cases (ch ∷ rest) = inr (ch, rest, refl)

module _ (font8 : ℕ → ℕ → ℕ) where
  -- One round breaks the line, goes on, breaks it before the character, or prints it.
  pub print_char_cases :
      (flags x ch : ℕ) (str : List ℕ) (c : Console) (Q : Cursor → Type 0)
      → (ch ≡ 10 → Q (new_line font8 (clear_right flags) str (console_print_newline flags c)))
      → (ch ≡ 9
          → Q (record {
            flags = flags;
            x = u16 (x + 10);
            str = str;
            console = emit (serial_if flags ch) c;
          }))
      → (ch ≢ 10
          → ch ≢ 9
          → beyond (u16 (x + cell_width font8 flags ch)) ≡ true
          → Q (new_line font8 (clear_right flags) (ch ∷ str) (console_draw_newline c)))
      → (ch ≢ 10
          → ch ≢ 9
          → beyond (u16 (x + cell_width font8 flags ch)) ≡ false
          → Q (record {
            flags = flags;
            x = u16 (x + cell_width font8 flags ch);
            str = str;
            console =
                emit (draw c.console_y (console_flag_highlight flags) ch x ∷ serial_if flags ch) c;
          }))
      → Q (print_char font8 flags x ch str c)
  print_char_cases flags x ch str c Q q1 q2 q3 q4 = elim (Bool-cases (ch == 10)) [
    | inl line ↦ rw line (q1 ((==_iff ch 10).0 line))
    | inr other ↦ elim (Bool-cases (ch == 9)) [
      | inl tab ↦ rw (other, tab) (q2 ((==_iff ch 9).0 tab))
      | inr glyph ↦ elim (Bool-cases (beyond (u16 (x + cell_width font8 flags ch)))) [
        | inl far ↦ rw (other, glyph, far) (q3 (ground arith) (ground arith) far)
        | inr near ↦ rw (other, glyph, near) (q4 (ground arith) (ground arith) near)
      ]
    ]
  ]

  string_width_bounds :
      ((ch : ℕ) → font8 ch 0 ≤ 8)
      → (w : ℕ) (str : List ℕ) → w + 8 * length str < 2 ^ 15
      → (w ≤ vwf8_get_string_width font8 w str)
        × (vwf8_get_string_width font8 w str ≤ w + 8 * length str)
  unfolding vwf8_get_string_width
  string_width_bounds narrow w [] small = (omega arith, omega arith)
  string_width_bounds narrow w (ch ∷ str) small =
      let one = narrow ch in
      let step : u16 (w + font8 ch 0) ≡ w + font8 ch 0 = omega arith in
      let rest = string_width_bounds narrow (u16 (w + font8 ch 0)) str (omega arith) in
      elim (Bool-cases (ch == 10)) [
        | inl line ↦ rw line (omega arith, omega arith)
        | inr other ↦ rw other (omega arith, omega arith)
      ]

  -- A text is as wide as its first character at least.
  string_width_first :
      ((ch : ℕ) → font8 ch 0 ≤ 8)
      → (ch : ℕ) (str : List ℕ) → ch ≢ 10
      → 8 * length (ch ∷ str) < 2 ^ 15
      → font8 ch 0 ≤ vwf8_get_string_width font8 0 (ch ∷ str)
  unfolding vwf8_get_string_width
  string_width_first narrow ch str other small =
      let one = narrow ch in
      let rest = (string_width_bounds narrow (u16 (0 + font8 ch 0)) str (omega arith)).0 in
      let first : (ch == 10) ≡ false = ground arith in rw first (omega arith)

  -- The column of a new line leaves room for a character.
  new_line_room :
      ((ch : ℕ) → font8 ch 0 ≤ 8)
      → (flags ch : ℕ) (str : List ℕ) (c : Console) → ch ≢ 10
      → 8 * length (ch ∷ str) < 2 ^ 15
      → c.console_x ≡ 1
      → console_flag_right flags ≡ false
      → beyond (u16 ((new_line font8 flags (ch ∷ str) c).x + cell_width font8 flags ch)) ≡ false
  new_line_room narrow flags ch str c other small first left =
      let one = narrow ch in
      let whole = string_width_first narrow ch str other small in
      let most = (string_width_bounds narrow 0 (ch ∷ str) (omega arith)).1 in
      elim (Bool-cases (console_flag_center flags)) [
        | inl centred ↦ rw centred (ground arith)
        | inr plain ↦ rw (plain, left, first) (ground arith)
      ]

  -- Whether the first character has to wait for a new line
  abbrev waits : ℕ → ℕ → List ℕ → Bool
  waits flags x [] = false
  waits flags x (ch ∷ str) = ch != 10 && ch != 9 && beyond (u16 (x + cell_width font8 flags ch))

  abbrev rounds_of : ℕ → ℕ → List ℕ → ℕ
  rounds_of flags x str = 2 * length str + (if waits flags x str then 1 else 0)

  -- How many rounds are left at most
  abbrev pub rounds : Cursor → ℕ
  rounds t = rounds_of t.flags t.x t.str

  abbrev pub Short : List ℕ → Type 0
  Short str = 8 * length str < 2 ^ 15

  pub new_line_str :
      (flags : ℕ) (str : List ℕ) (c : Console) → (new_line font8 flags str c).str ≡ str
  new_line_str flags str c = elim (Bool-cases (console_flag_center flags)) [
    | inl centred ↦ rw centred refl
    | inr other ↦ elim (Bool-cases (console_flag_right flags)) [
      | inl right ↦ rw (other, right) refl
      | inr plain ↦ rw (other, plain) refl
    ]
  ]

  pub new_line_flags :
      (flags : ℕ) (str : List ℕ) (c : Console) → (new_line font8 flags str c).flags ≡ flags
  new_line_flags flags str c = elim (Bool-cases (console_flag_center flags)) [
    | inl centred ↦ rw centred refl
    | inr other ↦ elim (Bool-cases (console_flag_right flags)) [
      | inl right ↦ rw (other, right) refl
      | inr plain ↦ rw (other, plain) refl
    ]
  ]

  one_at_most : (b : Bool) → (if b then 1 else 0) ≤ 1
  one_at_most true = omega arith
  one_at_most false = omega arith

  pub rounds_most : (t : Cursor) → rounds t ≤ 2 * length t.str + 1
  rounds_most t = omega (arith, one_at_most (waits t.flags t.x t.str))

  rounds_after_break :
      ((ch : ℕ) → font8 ch 0 ≤ 8)
      → (flags ch : ℕ) (str : List ℕ) (c : Console) → Short (ch ∷ str)
      → ch ≢ 10
      → ch ≢ 9
      → c.console_x ≡ 1
      → rounds (new_line font8 (clear_right flags) (ch ∷ str) c) ≡ 2 * length (ch ∷ str)
  rounds_after_break narrow flags ch str c short other glyph first =
      let t = new_line font8 (clear_right flags) (ch ∷ str) c in
      let room =
        new_line_room narrow (clear_right flags) ch str c other short first
          (clear_right_lem flags).0 in
      ap (λ f. rounds_of f t.x t.str) (new_line_flags (clear_right flags) (ch ∷ str) c)
      ∙ ap (λ l. rounds_of (clear_right flags) t.x l)
          (new_line_str (clear_right flags) (ch ∷ str) c)
      ∙ ground (arith, room)

  print_char_progress :
      ((ch : ℕ) → font8 ch 0 ≤ 8)
      → (flags x ch : ℕ) (str : List ℕ) (c : Console) → Short (ch ∷ str)
      → let t = print_char font8 flags x ch str c in
        Short (t.str) × (rounds t < rounds_of flags x (ch ∷ str))
  print_char_progress narrow flags x ch str c short =
      print_char_cases flags x ch str c
        (λ t. Short (t.str) × (rounds t < rounds_of flags x (ch ∷ str)))
        (λ line.
          let t = new_line font8 (clear_right flags) str (console_print_newline flags c) in
          let l =
            ap length (new_line_str (clear_right flags) str (console_print_newline flags c)) in
          (omega (arith, l), omega (arith, l, rounds_most t)))
        (λ tab. (omega arith, omega (arith, one_at_most (waits flags (u16 (x + 10)) str))))
        (λ other glyph far.
          let l =
            ap length (new_line_str (clear_right flags) (ch ∷ str) (console_draw_newline c)) in
          let r =
            rounds_after_break narrow flags ch str (console_draw_newline c) short other glyph
              refl in
          (omega (arith, l), ground (arith, r, far)))
        (λ other glyph near. (
          omega arith,
          omega (arith, one_at_most (waits flags (u16 (x + cell_width font8 flags ch)) str)),
        ))

  loop_over : (n : ℕ) (t : Cursor) → t.str ≡ [] → print_loop font8 (suc n) t ≡ some (finish t)
  unfolding print_loop
  loop_over n t over = rw (print_loop, over) refl

  loop_more :
      (n : ℕ) (t : Cursor) (ch : ℕ) (str : List ℕ)
      → t.str ≡ ch ∷ str
      → print_loop font8 (suc n) t
        ≡ print_loop font8 n (print_char font8 t.flags t.x ch str t.console)
  unfolding print_loop print_step
  loop_more n t ch str more =
      rw (print_loop, more) (ap (λ l. print_loop font8 n (print_step font8 t l)) more)

  -- The loop ends in a cursor without text for which all holds that its rounds keep.
  pub print_loop_rule :
      (P : Cursor → Type 0)
      → ((ch : ℕ) → font8 ch 0 ≤ 8)
      → ((t : Cursor) (ch : ℕ) (str : List ℕ)
          → t.str ≡ ch ∷ str
          → P t
          → P (print_char font8 t.flags t.x ch str t.console))
      → (n : ℕ) (t : Cursor) → Short (t.str)
      → rounds t ≤ n
      → P t
      → (u : Cursor) × (print_loop font8 n t ≡ some (finish u)) × (u.str ≡ []) × P u
  unfolding print_loop print_step
  print_loop_rule P narrow keeps zero t short enough holds = elim (text_cases t.str) [
    | inl over ↦ (t, ap (λ b. if b then some (finish t) else none) (ap at_end over), over, holds)
    | inr (ch, str, more) ↦ absurd (omega (arith, ap length more))
  ]
  print_loop_rule P narrow keeps (suc n) t short enough holds = elim (text_cases t.str) [
    | inl over ↦ (t, loop_over n t over, over, holds)
    | inr (ch, str, more) ↦
        let next = print_char font8 t.flags t.x ch str t.console in
        let progress =
          print_char_progress narrow t.flags t.x ch str t.console (subst Short more short) in
        let now = ap (rounds_of t.flags t.x) more in
        let (u, ends, over, kept) =
          print_loop_rule P narrow keeps n next progress.0 (omega (arith, progress.1, now))
            (keeps t ch str more holds) in
        (u, loop_more n t ch str more ∙ ends, over, kept)
  ]
