-- ===== src/Console/Order.antt =====
-- What console_print of software/userland/src/shared/console.c draws and sends, in what order.
use nileswan.Base.{ℕ, ◌+◌, ◌*◌, ◌≤◌, ◌<◌, ◌≡◌, refl, ap, ap₂, sym, ◌∙◌, arith}
use nileswan.Base.{Bool, not, ◌||◌, Bool-cases, inl, inr, List, [], ◌∷◌, ◌++◌, some}
use nileswan.Base.{if◌then◌else◌, u16, length, append_assoc, append-nil}
use nileswan.Console.{draw, cdc, Console, emit, console_draw_newline, console_print_newline}
use nileswan.Console.{
  console_flag_center, console_flag_right, console_flag_highlight, console_flag_no_serial,
}
use nileswan.Console.{console_flag_mcu_serial}
use nileswan.Console.Print.{
  Cursor, clear_right, serial_if, finish, new_line, cell_width, print_char, console_print,
}
use nileswan.Console.Loop.{
  print_char_cases, print_loop_rule, clear_right_lem, rounds_most, new_line_str, new_line_flags,
}
use nileswan.Console.Text.{
  drawn, sent, printed, crlf, Grown, Grown-by, Grown-none, unless, unless-append,
}
use nileswan.Console.Text.{
  serial_if_lem, print_newline_lem, draw_newline_lem, printed_line, printed_tab, printed_other,
}
use nileswan.Console.Text.{crlf_line, crlf_other, blank_right, Grown-emit}

unless-nil : (flags : ℕ) → unless flags [] ≡ []
unless-nil flags = elim (Bool-cases (console_flag_no_serial flags)) [
  | inl quiet ↦ rw quiet refl
  | inr loud ↦ rw loud refl
]

draw_char_lem :
    (y : ℕ) (h : Bool) (ch x flags : ℕ)
    → (drawn (draw y h ch x ∷ serial_if flags ch) ≡ ch ∷ [])
      × (sent (draw y h ch x ∷ serial_if flags ch) ≡ unless flags (ch ∷ []))
unfolding drawn sent
draw_char_lem y h ch x flags = let (d, s) = serial_if_lem flags ch in (ap (λ l. ch ∷ l) d, s)

module _ (font8 : ℕ → ℕ → ℕ) where
  new_line_lem :
      (flags : ℕ) (str : List ℕ) (c : Console)
      → Grown c.events
          (new_line font8 flags str c).console.events
          []
          (unless flags (blank_right flags))
  new_line_lem flags str c = elim (Bool-cases (console_flag_center flags)) [
    | inl centred ↦ rw centred (Grown-none c.events flags)
    | inr other ↦ elim (Bool-cases (console_flag_right flags)) [
      | inl right ↦
          rw (other, right) (Grown-by c.events (serial_if flags 32) (serial_if_lem flags 32))
      | inr plain ↦ rw (other, plain) (Grown-none c.events flags)
    ]
  ]

  -- What is drawn and sent when all that is left has been printed
  abbrev Left : List ℕ → List ℕ → ℕ → Cursor → Type 0
  Left ds ss flags t =
      (drawn t.console.events ++ printed t.str ≡ ds)
      × (sent t.console.events ++ unless flags (crlf t.str) ≡ ss)
      × (console_flag_no_serial t.flags ≡ console_flag_no_serial flags)

  Left-step :
      (ds ss : List ℕ) (flags : ℕ) (t u : Cursor) (ds' ss' : List ℕ)
      → Left ds ss flags t
      → Grown t.console.events u.console.events ds' (unless t.flags ss')
      → printed t.str ≡ ds' ++ printed u.str
      → crlf t.str ≡ ss' ++ crlf u.str
      → console_flag_no_serial u.flags ≡ console_flag_no_serial t.flags
      → Left ds ss flags u
  Left-step ds ss flags t u ds' ss' (d, s, f) (gd, gs) v k same = (
    ap (λ l. l ++ printed u.str) gd
        ∙ append_assoc (drawn t.console.events) ds' (printed u.str)
        ∙ ap (λ l. drawn t.console.events ++ l) (sym v)
        ∙ d,
    ap (λ l. l ++ unless flags (crlf u.str))
          (gs ∙ ap (λ b. sent t.console.events ++ (if b then [] else ss')) f)
        ∙ append_assoc (sent t.console.events) (unless flags ss') (unless flags (crlf u.str))
        ∙ ap (λ l. sent t.console.events ++ l)
            (unless-append flags ss' (crlf u.str) ∙ ap (unless flags) (sym k))
        ∙ s,
    same ∙ f,
  )

  -- A break of the line sets nothing to the right.
  new_line_plain :
      (flags : ℕ) (str : List ℕ) (c b : Console) (ss : List ℕ)
      → Grown c.events b.events [] ss
      → Grown c.events (new_line font8 (clear_right flags) str b).console.events [] ss
  new_line_plain flags str c b ss grown =
      elim (Bool-cases (console_flag_center (clear_right flags))) [
        | inl centred ↦ rw centred grown
        | inr other ↦ rw (other, (clear_right_lem flags).0) grown
      ]

  -- The cursor behind a break of the line
  new_line_step :
      (flags : ℕ) (str : List ℕ) (c b : Console) (ss : List ℕ)
      → Grown c.events b.events [] ss
      → let u = new_line font8 (clear_right flags) str b in
        Grown c.events u.console.events [] ss
        × (u.str ≡ str)
        × (console_flag_no_serial u.flags ≡ console_flag_no_serial flags)
  new_line_step flags str c b ss grown =
      let u = new_line font8 (clear_right flags) str b in
      let (left, centre, mono, quiet) = clear_right_lem flags in
      (
        new_line_plain flags str c b ss grown,
        new_line_str font8 (clear_right flags) str b,
        ap console_flag_no_serial (new_line_flags font8 (clear_right flags) str b) ∙ quiet,
      )

  print_char-Left :
      (ds ss : List ℕ) (flags : ℕ) (t : Cursor) (ch : ℕ) (str : List ℕ)
      → t.str ≡ ch ∷ str
      → Left ds ss flags t
      → Left ds ss flags (print_char font8 t.flags t.x ch str t.console)
  print_char-Left ds ss flags t ch str more left =
      let c = t.console in
      let es = c.events in
      let width = cell_width font8 t.flags ch in
      print_char_cases font8 t.flags t.x ch str c (Left ds ss flags)
        (λ line.
          let b = console_print_newline t.flags c in
          let u = new_line font8 (clear_right t.flags) str b in
          let (g, rest, same) =
            new_line_step t.flags str c b (unless t.flags (13 ∷ 10 ∷ []))
              (print_newline_lem t.flags c) in
          Left-step ds ss flags t u [] (13 ∷ 10 ∷ []) left g
            (ap printed more ∙ printed_line ch str line ∙ ap printed (sym rest))
            (ap crlf more ∙ crlf_line ch str line ∙ ap (λ l. 13 ∷ 10 ∷ crlf l) (sym rest)) same)
        (λ tab.
          let u : Cursor = record {
            flags = t.flags;
            x = u16 (t.x + 10);
            str = str;
            console = emit (serial_if t.flags ch) c;
          } in
          Left-step ds ss flags t u [] (ch ∷ []) left
            (Grown-by es (serial_if t.flags ch) (serial_if_lem t.flags ch))
            (ap printed more ∙ printed_tab ch str tab)
            (ap crlf more ∙ crlf_other ch str (omega arith)) refl)
        (λ other glyph far.
          let b = console_draw_newline c in
          let u = new_line font8 (clear_right t.flags) (ch ∷ str) b in
          let (g, rest, same) = new_line_step t.flags (ch ∷ str) c b [] (draw_newline_lem c) in
          let none_sent = sym (unless-nil t.flags) in
          Left-step ds ss flags t u [] [] left (g.0, g.1 ∙ ap (λ l. sent es ++ l) none_sent)
            (ap printed (more ∙ sym rest)) (ap crlf (more ∙ sym rest)) same)
        (λ other glyph near.
          let drawing = draw c.console_y (console_flag_highlight t.flags) ch t.x in
          let u : Cursor = record {
            flags = t.flags;
            x = u16 (t.x + width);
            str = str;
            console = emit (drawing ∷ serial_if t.flags ch) c;
          } in
          Left-step ds ss flags t u (ch ∷ []) (ch ∷ []) left
            (Grown-by es (drawing ∷ serial_if t.flags ch)
              (draw_char_lem c.console_y (console_flag_highlight t.flags) ch t.x t.flags))
            (ap printed more ∙ printed_other ch str other glyph)
            (ap crlf more ∙ crlf_other ch str other) refl)

  new_line-Left :
      (flags : ℕ) (str : List ℕ) (c : Console)
      → Left
          (drawn c.events ++ printed str)
          (sent c.events ++ unless flags (blank_right flags ++ crlf str))
          flags
          (new_line font8 flags str c)
  new_line-Left flags str c =
      let u = new_line font8 flags str c in
      let (d, s) = new_line_lem flags str c in
      (
        ap₂ (λ l t. l ++ printed t) (d ∙ append-nil _) (new_line_str font8 flags str c),
        ap₂ (λ l t. l ++ unless flags (crlf t)) s (new_line_str font8 flags str c)
            ∙ append_assoc (sent c.events) (unless flags (blank_right flags))
                (unless flags (crlf str))
            ∙ ap (λ l. sent c.events ++ l) (unless-append flags (blank_right flags) (crlf str)),
        ap console_flag_no_serial (new_line_flags font8 flags str c),
      )

  copied_same :
      (flags : ℕ) (str : List ℕ) (c : Console)
      → let copied = if console_flag_mcu_serial flags then emit (cdc str ∷ []) c else c in
        (drawn copied.events ≡ drawn c.events) × (sent copied.events ≡ sent c.events)
  unfolding drawn sent
  copied_same flags str c = elim (Bool-cases (console_flag_mcu_serial flags)) [
    | inl copied ↦ rw copied (
      (Grown-emit c.events (cdc str ∷ [])).0 ∙ append-nil _,
      (Grown-emit c.events (cdc str ∷ [])).1 ∙ append-nil _,
    )
    | inr not_copied ↦ rw not_copied (refl, refl)
  ]

  finish_events : (t : Cursor) → (finish t).events ≡ t.console.events
  finish_events t =
      elim (Bool-cases (not (console_flag_center t.flags || console_flag_right t.flags))) [
        | inl plain ↦ rw plain refl
        | inr other ↦ rw other refl
      ]

  -- console_print ends for every text of fewer than 4096 characters, provided that no character is wider
  -- than 8 columns. Wherever it breaks the lines, it draws the text without its tabs and ends of lines, in
  -- order, and sends the text once to the serial port, with CR LF for the ends of lines and
  -- a blank in front of what is set to the right, or nothing where the flags say so.
  pub console_print_lem :
      ((ch : ℕ) → font8 ch 0 ≤ 8)
      → (flags : ℕ) (str : List ℕ) (c : Console) → length str < 4096
      → (d : Console) × (console_print font8 flags str c ≡ some d)
        × (drawn d.events ≡ drawn c.events ++ printed str)
        × (sent d.events ≡ sent c.events ++ unless flags (blank_right flags ++ crlf str))
  unfolding console_print printed crlf
  console_print_lem narrow flags str c short =
      let copied = if console_flag_mcu_serial flags then emit (cdc str ∷ []) c else c in
      let start = new_line font8 flags str copied in
      let all = drawn copied.events ++ printed str in
      let bytes = sent copied.events ++ unless flags (blank_right flags ++ crlf str) in
      let size : length start.str ≡ length str = ap length (new_line_str font8 flags str copied) in
      let (u, ends, over, (ds, ss, same)) =
        print_loop_rule font8 (Left all bytes flags) narrow
          (λ t ch rest more left. print_char-Left all bytes flags t ch rest more left)
          (1 + 2 * length str) start (omega (arith, size))
          (omega (arith, size, rounds_most font8 start)) (new_line-Left flags str copied) in
      let (d0, s0) = copied_same flags str c in
      (
        finish u,
        ends,
        ap drawn (finish_events u)
            ∙ sym (append-nil _)
            ∙ ap (λ t. drawn u.console.events ++ printed t) (sym over)
            ∙ ds
            ∙ ap (λ l. l ++ printed str) d0,
        ap sent (finish_events u)
            ∙ sym (append-nil _)
            ∙ ap (λ l. sent u.console.events ++ l) (sym (unless-nil flags))
            ∙ ap (λ t. sent u.console.events ++ unless flags (crlf t)) (sym over)
            ∙ ss
            ∙ ap (λ l. l ++ unless flags (blank_right flags ++ crlf str)) s0,
      )
