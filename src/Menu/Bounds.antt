-- ===== src/Menu/Bounds.antt =====
-- What menu_run of software/userland/src/recovery/menu.c returns.
use nileswan.Base.{ℕ, ◌<◌, ◌≡◌, List, [], ◌∷◌}
use nileswan.Base.{Option, none, some, arith}
use nileswan.Menu.{Keys, Round, go_on, chosen, menu_round, menu_loop, menu_run, next_round}
use nileswan.Menu.{first_option}

-- Within a menu of `count` options
abbrev WithinMenu : ℕ → Round → Type 0
WithinMenu count (go_on next) = next < count
WithinMenu count (chosen none) = Unit
WithinMenu count (chosen (some option)) = option < count

menu_round-WithinMenu :
    (count : ℕ) (keys : Keys) (selected : ℕ)
    → selected < count
    → WithinMenu count (menu_round count keys selected)
unfolding menu_round
menu_round-WithinMenu count keys selected h = ground arith

next_round_bounded :
    (count : ℕ) (rest : ℕ → Option (Option ℕ)) (r : Round) (i : ℕ)
    → ((k : ℕ) → k < count → rest k ≡ some (some i) → i < count)
    → WithinMenu count r
    → next_round rest r ≡ some (some i)
    → i < count
next_round_bounded count rest (go_on next) i later w e = later next w e
next_round_bounded count rest (chosen none) i later w e = cc
next_round_bounded count rest (chosen (some option)) i later w e =
    let same : option ≡ i = cc in omega arith

menu_loop_bounded :
    (count : ℕ) (keys : List Keys) (selected i : ℕ)
    → selected < count
    → menu_loop count keys selected ≡ some (some i)
    → i < count
unfolding menu_loop
menu_loop_bounded count [] selected i h e = cc
menu_loop_bounded count (k ∷ ks) selected i h e =
    next_round_bounded count (menu_loop count ks) (menu_round count k selected) i
      (λ next. menu_loop_bounded count ks next i) (menu_round-WithinMenu count k selected h) e

-- Whatever was selected before, also -1 or an option that is not there, and whatever keys are pressed,
-- a menu with options returns one of them or -1.
pub menu_run_bounded :
    (count : ℕ) (keys : List Keys) (selected : Option ℕ) {i : ℕ}
    → 0 < count
    → menu_run count keys selected ≡ some (some i)
    → i < count
unfolding menu_run
menu_run_bounded count keys none h e = menu_loop_bounded count keys 0 _ h e
menu_run_bounded count keys (some k) h e =
    menu_loop_bounded count keys (first_option count (some k)) _ (ground arith) e
