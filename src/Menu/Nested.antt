-- ===== src/Menu/Nested.antt =====
-- How deep the menus of software/userland/src/recovery/main.c go.
use nileswan.Base.{ℕ, zero, suc, ◌+◌, ◌≤◌, ◌≡◌, refl, Bool, true, false, List, [], ◌∷◌}
use nileswan.Base.{Option, none, some, arith, length, get_elem?, ◌==◌, ◌&&◌}
use nileswan.Menu.Tree.{main_menu, console_recovery, tf_card_mgmt}
use nileswan.Menu.Tree.{cartridge_diagnostics, cartridge_recovery, retention_tests}
use nileswan.Menu.Tree.{endurance_tests, fpga_tests, mcu_tests, dev_features}
use nileswan.Menu.Tree.{Menu, Action, cases, action}
use nileswan.Menu.Tree.{Frame, submenu_of, obey_action, obey}
use nileswan.Menu.Tree.{choose}

-- The levels of the menus
abbrev pub level : Menu → ℕ
level main_menu = 0
level retention_tests = 2
level endurance_tests = 2
level fpga_tests = 2
level mcu_tests = 2
level _ = 1

abbrev goes_down_to : Menu → Option Menu → Bool
goes_down_to m none = true
goes_down_to m (some m') = level m' == level m + 1

abbrev goes_down : Menu → Action → Bool
goes_down m a = goes_down_to m (submenu_of a)

unfoldable all_pass : (Action → Bool) → List Action → Bool
all_pass test [] = true
all_pass test (x ∷ xs) = test x && all_pass test xs

get_elem?-passes :
    (test : Action → Bool) (xs : List Action) (i : ℕ) {x : Action}
    → all_pass test xs ≡ true
    → get_elem? xs i ≡ some x
    → test x ≡ true
unfolding all_pass
get_elem?-passes test [] i p e = cc
get_elem?-passes test (y ∷ ys) zero p e = ground arith
get_elem?-passes test (y ∷ ys) (suc i) p e = get_elem?-passes test ys i (ground arith) e

cases_go_down : (dev : Bool) (m : Menu) → all_pass (goes_down m) (cases dev m) ≡ true
unfolding all_pass cases
cases_go_down true main_menu = refl
cases_go_down false main_menu = refl
cases_go_down dev console_recovery = refl
cases_go_down dev tf_card_mgmt = refl
cases_go_down dev cartridge_diagnostics = refl
cases_go_down dev cartridge_recovery = refl
cases_go_down dev retention_tests = refl
cases_go_down dev endurance_tests = refl
cases_go_down dev fpga_tests = refl
cases_go_down dev mcu_tests = refl
cases_go_down dev dev_features = refl

-- Each menu that runs was opened from one a level above it, the outermost being the main menu.
abbrev pub AreNested : List Frame → Type 0
AreNested [] = Unit
AreNested (f ∷ rest) = (level f.menu ≡ length rest) × AreNested rest

obey_action-AreNested :
    (f : Frame) (rest : List Frame) (a : Action) (m : Option Menu)
    → AreNested (f ∷ rest)
    → goes_down_to f.menu m ≡ true
    → AreNested (obey_action f rest a m).0
obey_action-AreNested f rest a none h down = h
obey_action-AreNested f rest a (some m) h down =
    let here = h.0 in let deeper : level m ≡ suc (length rest) = ground arith in (deeper, h)

obey-AreNested :
    (f : Frame) (rest : List Frame) (a : Option Action)
    → AreNested (f ∷ rest)
    → ((b : Action) → a ≡ some b → goes_down f.menu b ≡ true)
    → AreNested (obey f rest a).0
obey-AreNested f [] none h down = h
obey-AreNested f (g ∷ rest) none h down = h.1
obey-AreNested f rest (some a) h down =
    obey_action-AreNested f rest a (submenu_of a) h (down a refl)

action-goes_down :
    (dev : Bool) (m : Menu) (result : Option ℕ) (b : Action)
    → action dev m result ≡ some b
    → goes_down m b ≡ true
action-goes_down dev m none b e = cc
action-goes_down dev m (some i) b e =
    get_elem?-passes (goes_down m) (cases dev m) i (cases_go_down dev m) e

choose-AreNested :
    (dev : Bool) (result : Option ℕ) (frames : List Frame)
    → AreNested frames
    → AreNested (choose dev result frames).0
unfolding choose
choose-AreNested dev result [] h = tt
choose-AreNested dev result (f ∷ rest) h =
    obey-AreNested (record f { option = result }) rest (action dev f.menu result) h
      (action-goes_down dev f.menu result)

-- The frames after any sequence of choices
unfoldable pub choose_all : Bool → List (Option ℕ) → List Frame → List Frame
choose_all dev [] frames = frames
choose_all dev (r ∷ rs) frames = choose_all dev rs (choose dev r frames).0

level-le : (m : Menu) → level m ≤ 2
level-le main_menu = omega arith
level-le retention_tests = omega arith
level-le endurance_tests = omega arith
level-le fpga_tests = omega arith
level-le mcu_tests = omega arith
level-le console_recovery = omega arith
level-le tf_card_mgmt = omega arith
level-le cartridge_diagnostics = omega arith
level-le cartridge_recovery = omega arith
level-le dev_features = omega arith

-- Whatever is chosen, from the main menu on, at most three menus run at a time, and each was opened
-- from one a level above.
pub choose_all_nested :
    (dev : Bool) (rs : List (Option ℕ)) (frames : List Frame)
    → AreNested frames
    → AreNested (choose_all dev rs frames) × (length (choose_all dev rs frames) ≤ 3)
unfolding choose_all
choose_all_nested dev [] [] h = (h, omega arith)
choose_all_nested dev [] (f ∷ rest) h =
    let low = level-le f.menu in let here = h.0 in (h, omega arith)
choose_all_nested dev (r ∷ rs) frames h =
    choose_all_nested dev rs (choose dev r frames).0 (choose-AreNested dev r frames h)
