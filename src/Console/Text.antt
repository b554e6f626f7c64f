-- ===== src/Console/Text.antt =====
-- What console_print of software/userland/src/shared/console.c draws and sends.
use nileswan.Base.{ℕ, ◌+◌, ◌%◌, ◌≡◌, ◌≢◌, refl, ap, sym, ◌∙◌, arith}
use nileswan.Base.{true, false, ◌||◌, Bool-cases, inl, inr, List, [], ◌∷◌, ◌++◌}
use nileswan.Base.{◌==◌, if◌then◌else◌, append_assoc, append-nil}
use nileswan.Console.{Event, clear, draw, clear_header, draw_header, serial, cdc}
use nileswan.Console.{
  Console, emit, console_draw_newline, console_print_newline, cdc_newline, serial_newline,
}
use nileswan.Console.{console_flag_center, console_flag_right}
use nileswan.Console.{console_flag_no_serial, console_flag_mcu_serial}
use nileswan.Console.Print.{serial_if}

-- The characters that are drawn to the lines, and the bytes to the serial port
unfoldable pub drawn : List Event → List ℕ
drawn [] = []
drawn (draw y h ch x ∷ es) = ch ∷ drawn es
drawn (clear y n ∷ es) = drawn es
drawn (clear_header ∷ es) = drawn es
drawn (draw_header ch x ∷ es) = drawn es
drawn (serial b ∷ es) = drawn es
drawn (cdc bs ∷ es) = drawn es

unfoldable pub sent : List Event → List ℕ
sent [] = []
sent (serial b ∷ es) = b ∷ sent es
sent (draw y h ch x ∷ es) = sent es
sent (clear y n ∷ es) = sent es
sent (clear_header ∷ es) = sent es
sent (draw_header ch x ∷ es) = sent es
sent (cdc bs ∷ es) = sent es

-- A text without its tabs and ends of lines, and one with CR LF for the ends of lines
unfoldable pub printed : List ℕ → List ℕ
printed [] = []
printed (ch ∷ str) = if ch == 10 || ch == 9 then printed str else ch ∷ printed str

unfoldable pub crlf : List ℕ → List ℕ
crlf [] = []
crlf (ch ∷ str) = if ch == 10 then 13 ∷ 10 ∷ crlf str else ch ∷ crlf str

drawn-append : (es fs : List Event) → drawn (es ++ fs) ≡ drawn es ++ drawn fs
unfolding drawn
drawn-append [] fs = refl
drawn-append (draw y h ch x ∷ es) fs = ap (λ l. ch ∷ l) (drawn-append es fs)
drawn-append (clear y n ∷ es) fs = drawn-append es fs
drawn-append (clear_header ∷ es) fs = drawn-append es fs
drawn-append (draw_header ch x ∷ es) fs = drawn-append es fs
drawn-append (serial b ∷ es) fs = drawn-append es fs
drawn-append (cdc bs ∷ es) fs = drawn-append es fs

sent-append : (es fs : List Event) → sent (es ++ fs) ≡ sent es ++ sent fs
unfolding sent
sent-append [] fs = refl
sent-append (serial b ∷ es) fs = ap (λ l. b ∷ l) (sent-append es fs)
sent-append (draw y h ch x ∷ es) fs = sent-append es fs
sent-append (clear y n ∷ es) fs = sent-append es fs
sent-append (clear_header ∷ es) fs = sent-append es fs
sent-append (draw_header ch x ∷ es) fs = sent-append es fs
sent-append (cdc bs ∷ es) fs = sent-append es fs

-- Events after which what is drawn and sent has grown by these
abbrev pub Grown : List Event → List Event → List ℕ → List ℕ → Type 0
Grown old new ds ss = (drawn new ≡ drawn old ++ ds) × (sent new ≡ sent old ++ ss)

pub Grown-emit : (old es : List Event) → Grown old (old ++ es) (drawn es) (sent es)
Grown-emit old es = (drawn-append old es, sent-append old es)

pub Grown-trans :
    (a b c : List Event) (ds ss ds' ss' : List ℕ)
    → Grown a b ds ss
    → Grown b c ds' ss'
    → Grown a c (ds ++ ds') (ss ++ ss')
Grown-trans a b c ds ss ds' ss' (d, s) (d', s') = (
  d' ∙ ap (λ l. l ++ ds') d ∙ append_assoc (drawn a) ds ds',
  s' ∙ ap (λ l. l ++ ss') s ∙ append_assoc (sent a) ss ss',
)

-- What goes to the serial port unless it is not to
abbrev pub unless : ℕ → List ℕ → List ℕ
unless flags bs = if console_flag_no_serial flags then [] else bs

pub serial_if_lem :
    (flags b : ℕ)
    → (drawn (serial_if flags b) ≡ []) × (sent (serial_if flags b) ≡ unless flags (b ∷ []))
unfolding drawn sent
serial_if_lem flags b = elim (Bool-cases (console_flag_no_serial flags)) [
  | inl quiet ↦ rw quiet (refl, refl)
  | inr loud ↦ rw loud (refl, refl)
]

pub Grown-by :
    (old es : List Event) {ds ss : List ℕ}
    → (drawn es ≡ ds) × (sent es ≡ ss)
    → Grown old (old ++ es) ds ss
Grown-by old es (d, s) = (
  drawn-append old es ∙ ap (λ l. drawn old ++ l) d,
  sent-append old es ∙ ap (λ l. sent old ++ l) s,
)

serial_newline_lem :
    (flags : ℕ)
    → (drawn (serial_newline flags) ≡ [])
      × (sent (serial_newline flags) ≡ unless flags (13 ∷ 10 ∷ []))
unfolding drawn sent
serial_newline_lem flags = elim (Bool-cases (console_flag_no_serial flags)) [
  | inl quiet ↦ rw quiet (refl, refl)
  | inr loud ↦ rw loud (refl, refl)
]

cdc_newline_lem : (flags : ℕ) → (drawn (cdc_newline flags) ≡ []) × (sent (cdc_newline flags) ≡ [])
unfolding drawn sent
cdc_newline_lem flags = elim (Bool-cases (console_flag_mcu_serial flags)) [
  | inl copied ↦ rw copied (refl, refl)
  | inr not_copied ↦ rw not_copied (refl, refl)
]

pub draw_newline_lem : (c : Console) → Grown c.events (console_draw_newline c).events [] []
unfolding drawn sent
draw_newline_lem c = Grown-emit c.events (clear ((c.console_y + 1) % 16) 1 ∷ [])

pub print_newline_lem :
    (flags : ℕ) (c : Console)
    → Grown c.events (console_print_newline flags c).events [] (unless flags (13 ∷ 10 ∷ []))
print_newline_lem flags c =
    let copied = emit (cdc_newline flags) c in
    let broken = console_draw_newline copied in
    Grown-trans c.events broken.events (broken.events ++ serial_newline flags) [] [] []
      (unless flags (13 ∷ 10 ∷ []))
      (Grown-trans c.events copied.events broken.events [] [] [] []
        (Grown-by c.events (cdc_newline flags) (cdc_newline_lem flags)) (draw_newline_lem copied))
      (Grown-by broken.events (serial_newline flags) (serial_newline_lem flags))

pub unless-append :
    (flags : ℕ) (a b : List ℕ) → unless flags a ++ unless flags b ≡ unless flags (a ++ b)
unless-append flags a b = elim (Bool-cases (console_flag_no_serial flags)) [
  | inl quiet ↦ rw quiet refl
  | inr loud ↦ rw loud refl
]

pub Grown-same : (es : List Event) → Grown es es [] []
Grown-same es = (sym (append-nil (drawn es)), sym (append-nil (sent es)))

pub Grown-none : (es : List Event) (flags : ℕ) → Grown es es [] (unless flags [])
Grown-none es flags = elim (Bool-cases (console_flag_no_serial flags)) [
  | inl quiet ↦ rw quiet (Grown-same es)
  | inr loud ↦ rw loud (Grown-same es)
]

-- The blank in front of what is set to the right
abbrev pub blank_right : ℕ → List ℕ
blank_right flags =
    if console_flag_center flags then [] else if console_flag_right flags then 32 ∷ [] else []

-- The first character of a text
pub printed_line : (ch : ℕ) (str : List ℕ) → ch ≡ 10 → printed (ch ∷ str) ≡ printed str
unfolding printed
printed_line ch str line = let l : (ch == 10) ≡ true = ground arith in rw l refl

pub crlf_line : (ch : ℕ) (str : List ℕ) → ch ≡ 10 → crlf (ch ∷ str) ≡ 13 ∷ 10 ∷ crlf str
unfolding crlf
crlf_line ch str line = let l : (ch == 10) ≡ true = ground arith in rw l refl

pub printed_tab : (ch : ℕ) (str : List ℕ) → ch ≡ 9 → printed (ch ∷ str) ≡ printed str
unfolding printed
printed_tab ch str tab = let l : (ch == 10 || ch == 9) ≡ true = ground arith in rw l refl

pub crlf_other : (ch : ℕ) (str : List ℕ) → ch ≢ 10 → crlf (ch ∷ str) ≡ ch ∷ crlf str
unfolding crlf
crlf_other ch str other = let l : (ch == 10) ≡ false = ground arith in rw l refl

pub printed_other :
    (ch : ℕ) (str : List ℕ) → ch ≢ 10 → ch ≢ 9 → printed (ch ∷ str) ≡ ch ∷ printed str
unfolding printed
printed_other ch str other glyph = let l : (ch == 10 || ch == 9) ≡ false = ground arith in rw l refl
