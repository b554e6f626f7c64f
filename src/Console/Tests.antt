-- ===== src/Console/Tests.antt =====
-- A console and a text, for the laws of software/userland/src/shared/console.c.
use nileswan.Base.{ℕ, ◌≡◌, refl, arith, false, List, [], ◌∷◌, ◌++◌, some}
use nileswan.Console.{Console, draw, console_clear, console_draw_newline}
use nileswan.Console.Print.{console_print}
use nileswan.Console.Text.{drawn, sent, printed, crlf, unless, blank_right}
use nileswan.Console.Order.{console_print_lem}
use nileswan.Console.Lines.{line, text_row, IsScrolled, console_draw_newline_scrolls}
use nileswan.Console.Columns.{IsConsole, inside, has_tab, console_print-IsConsole}

-- Characters of 6 columns
abbrev font : ℕ → ℕ → ℕ
font ch i = 6

abbrev fresh : Console
fresh = console_clear (record { console_x = 0; console_y = 0; scrl_y = 0; events = [] })

-- "Hi", a new line, "no"
abbrev text : List ℕ
text = 72 ∷ 105 ∷ 10 ∷ 110 ∷ 111 ∷ []

console_print_lem_example :
    (d : Console) × (console_print font 2 text fresh ≡ some d)
    × (drawn d.events ≡ drawn fresh.events ++ printed text)
    × (sent d.events ≡ sent fresh.events ++ unless 2 (blank_right 2 ++ crlf text))
console_print_lem_example = console_print_lem font (λ ch. omega arith) 2 text fresh (omega arith)

-- A letter in the line that is written to
abbrev written : Console
written = record fresh { events = fresh.events ++ (draw 15 false 72 1 ∷ []) }

console_draw_newline_scrolls_example :
    let d = console_draw_newline written in
    (text_row 14 d ≡ text_row 15 written)
    × (text_row 15 d ≡ [])
    × (text_row 15 d ≡ line d.console_y [] d.events)
    × IsScrolled d
console_draw_newline_scrolls_example =
    console_draw_newline_scrolls written 14 (omega arith, refl) (omega arith)

fresh-IsConsole : IsConsole font fresh
unfolding inside
fresh-IsConsole = ((omega arith, refl), omega arith, omega arith, refl)

no_tab : has_tab text ≡ false
unfolding has_tab
no_tab = refl

console_print-IsConsole_example :
    (d : Console) × (console_print font 0 text fresh ≡ some d) × IsConsole font d
console_print-IsConsole_example =
    console_print-IsConsole font (λ ch. omega arith) 0 text fresh (omega arith) (refl, refl, refl)
      no_tab fresh-IsConsole
