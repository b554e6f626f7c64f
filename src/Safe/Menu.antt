-- ===== src/Safe/Menu.antt =====
-- The menus of the safe mode: run_menu and the choices of main in software/ipl1/src/safe/main.c, with
-- try_boot_rom and run_manufacturing_test. What they draw is left out.
pub mod Laws
pub mod Reach
use nileswan.Base.{
  ℕ, zero, suc, ◌+◌, ◌-◌, ◌*◌, ◌^◌, Bool, true, false, not, ◌&&◌, ◌||◌, List, [], ◌∷◌, ◌++◌, Option,
  none, some,
}
use nileswan.Base.{◌==◌, ◌!=◌, ltb, leb, if◌then◌else◌, bit_and, bit_xor, not16, ◌>>>◌}
use nileswan.Safe.{Memories, load_spi_flash}

-- The masks of the four keys, which are others on a PCV2: parameters
pub record Keys : Type 0 where
  pub up : ℕ
  pub down : ℕ
  pub accept : ℕ
  pub back : ℕ

-- `menu_pos` and `keys_held`
pub record MenuState : Type 0 where
  pub menu_pos : ℕ
  pub keys_held : ℕ

pub data MenuResult : Type 0 where
  waiting cancelled : MenuResult
  chosen : ℕ → MenuResult

-- `while(ws_keypad_scan());` over the scans to come: those behind the first without a key
unfoldable pub release : List ℕ → Option (List ℕ)
release [] = none
release (keys ∷ scans) = if keys == 0 then some scans else release scans

abbrev pub after_release :
    MenuResult → MenuState → Option (List ℕ) → MenuResult × MenuState × List ℕ
after_release r s none = (waiting, s, [])
after_release r s (some scans) = (r, s, scans)

-- The keys that are new in a frame
abbrev pub keys_pressed : ℕ → ℕ → ℕ
keys_pressed keys held = bit_and keys (not16 held)

module _ (k : Keys) (menu_count : ℕ) where
  abbrev pub move_up : ℕ → ℕ
  move_up pos = if pos == 0 then menu_count - 1 else pos - 1

  abbrev pub move_down : ℕ → ℕ
  move_down pos = if leb menu_count (pos + 1) then 0 else pos + 1

  -- Where they move the menu
  abbrev pub moved : ℕ → ℕ → ℕ
  moved pressed pos =
      let raised = if bit_and pressed k.up != 0 then move_up pos else pos in
      if bit_and pressed k.down != 0 then move_down raised else raised

  -- The loop, a frame for each scan until a key ends it; the scans that are left are those of the next menu.
  unfoldable pub menu_frames : List ℕ → MenuState → MenuResult × MenuState × List ℕ
  unfolding release
  menu_frames [] s = (waiting, s, [])
  menu_frames (keys ∷ scans) s =
      let pressed = keys_pressed keys s.keys_held in
      let t : MenuState = record { menu_pos = moved pressed s.menu_pos; keys_held = keys } in
      let rest = menu_frames scans t in
      if bit_and pressed k.accept != 0
      then after_release (chosen t.menu_pos) t (release scans)
      else if bit_and pressed k.back != 0
      then after_release cancelled t (release scans)
      else rest

  unfoldable pub run_menu : List ℕ → MenuState → MenuResult × MenuState × List ℕ
  unfolding menu_frames
  run_menu scans s =
      menu_frames scans (if leb menu_count s.menu_pos then record s { menu_pos = 0 } else s)

-- What a choice makes the program do
pub data Task : Type 0 where
  quick_test manufacturing_test sram_readout : Task
  deep_test : Bool → Task
  launch : ℕ → ℕ → Task
  sram_wait : Bool → Task
  slow_spi : Bool → Task

pub data Screen : Type 0 where
  main_menu config_menu advanced_menu : Screen

-- The menu that is shown, and the settings
pub record SafeMode : Type 0 where
  pub screen : Screen
  pub psram_max_bank : ℕ
  pub sram_io_speed_limit : Bool
  pub spi_speed_limit : Bool

abbrev pub goes : Screen → SafeMode → SafeMode
goes screen s = record s { screen = screen }

-- A choice in the main menu; no choice starts the loop anew, which sets the clock of the SPI bus.
unfoldable pub choose_main : Option ℕ → SafeMode → List Task × SafeMode
choose_main none s = ([], s)
choose_main (some item) s =
    if item == 0
    then (quick_test ∷ deep_test false ∷ manufacturing_test ∷ [], s)
    else if item == 1
    then (launch 0x40000 4 ∷ [], s)
    else if item == 2
    then (quick_test ∷ [], s)
    else if item == 3
    then ([], goes config_menu s)
    else if item == 4
    then ([], goes advanced_menu s)
    else ([], s)

-- `sram_io_speed_limit`, which only a console in its color mode has
abbrev pub switch_sram_speed : Bool → SafeMode → List Task × SafeMode
switch_sram_speed color s =
    let slow = not s.sram_io_speed_limit in
    if color then (sram_wait slow ∷ [], record s { sram_io_speed_limit = slow }) else ([], s)

unfoldable pub choose_config : Bool → Option ℕ → SafeMode → List Task × SafeMode
choose_config color none s = ([], goes main_menu s)
choose_config color (some item) s =
    if item == 0
    then ([], record s { psram_max_bank = bit_xor s.psram_max_bank 128 })
    else if item == 2
    then switch_sram_speed color s
    else if item == 1
    then ([], record s { spi_speed_limit = not s.spi_speed_limit })
    else ([], goes main_menu s)

unfoldable pub choose_advanced : Option ℕ → SafeMode → List Task × SafeMode
choose_advanced none s = ([], goes main_menu s)
choose_advanced (some item) s =
    if item == 0
    then (deep_test true ∷ [], s)
    else if item == 1
    then (launch 0x10000 3 ∷ [], s)
    else if item == 2
    then (sram_readout ∷ [], s)
    else ([], goes main_menu s)

abbrev pub choose_at : Screen → Bool → Option ℕ → SafeMode → List Task × SafeMode
choose_at main_menu color item s = choose_main item s
choose_at config_menu color item s = choose_config color item s
choose_at advanced_menu color item s = choose_advanced item s

-- Back in the main menu, the loop sets the clock of the SPI bus.
abbrev pub clock_tasks : Screen → Bool → List Task
clock_tasks main_menu slow = slow_spi slow ∷ []
clock_tasks config_menu slow = []
clock_tasks advanced_menu slow = []

abbrev pub with_clock : List Task × SafeMode → List Task × SafeMode
with_clock r = (r.0 ++ clock_tasks r.1.screen r.1.spi_speed_limit, r.1)

unfoldable pub choose : Bool → Option ℕ → SafeMode → List Task × SafeMode
unfolding choose_main choose_config choose_advanced
choose color item s = with_clock (choose_at s.screen color item s)

-- The start, of a console in its color mode or not
abbrev pub start : Bool → SafeMode
start color = record {
  screen = main_menu;
  psram_max_bank = 255;
  sram_io_speed_limit = not color;
  spi_speed_limit = false;
}

-- The program is started, its loading failed, or what was loaded has no reset vector: the PSRAM
pub data Launch : Type 0 where
  booted no_header load_failed : (ℕ → ℕ) → Launch

-- `try_boot_rom`: the top of the linear bank of the cartridge's ROM
abbrev pub try_boot_rom : ℕ → (ℕ → ℕ) → Launch
try_boot_rom psram_max_bank psram =
    let header = (psram_max_bank >>> 4) * 2 ^ 20 + 0xffff0 in
    if psram header != 0xea then no_header psram else booted psram

abbrev pub launched : ℕ → Bool × (ℕ → ℕ) → Launch
launched max (true, psram) = try_boot_rom max psram
launched max (false, psram) = load_failed psram

unfoldable pub launch_rom : Memories → ℕ → ℕ → ℕ → (ℕ → ℕ) → Launch
launch_rom m max offset banks psram = launched max (load_spi_flash m max offset banks psram)

-- `run_manufacturing_test`, with the result of the test of the IPC buffer; the magic word for the program is
-- left out.
unfoldable pub run_manufacturing_test : Bool → Memories → ℕ → (ℕ → ℕ) → Option Launch
unfolding launch_rom
run_manufacturing_test ipc_ok m max psram =
    if ipc_ok then some (launch_rom m max 0x10000 3 psram) else none
