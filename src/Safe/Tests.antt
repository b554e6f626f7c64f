-- ===== src/Safe/Tests.antt =====
-- A program in a flash memory without faults, and keys, for the laws of software/ipl1/src/safe/main.c.
use nileswan.Base.{ℕ, ◌+◌, ◌-◌, ◌*◌, ◌%◌, ◌<◌, true, List, [], ◌∷◌, none, some, ◌≡◌, refl, arith}
use nileswan.Base.{◌==◌, ltb, if◌then◌else◌}
use nileswan.Safe.Menu.{Keys, MenuState, run_menu, chosen, choose, start, launch_rom, booted}
use nileswan.Safe.Menu.{run_manufacturing_test}
use nileswan.Safe.Menu.Laws.{shifts, run_menu_position}
use nileswan.Safe.Menu.Reach.{
  Reach, at_start, after, launches, IsProgram, IsSize, choose_boots, launched-booted,
}
use nileswan.Safe.{Memories, load_spi_flash}
use nileswan.Safe.Laws.{Holds, load_spi_flash-Holds}
use nileswan.Safe.Healthy.{IsLoaded, load_spi_flash-IsLoaded}

abbrev sound : Memories
sound = record { read = λ offset count. true; byte = λ offset. offset % 251; cell = λ address v. v }

abbrev empty : ℕ → ℕ
empty address = 255

-- The recovery program: four banks from 0x40000 on, in a PSRAM of 16 MiB
load_spi_flash-IsLoaded_example :
    IsLoaded sound 4 252 0x40000 empty (load_spi_flash sound 255 0x40000 4 empty)
load_spi_flash-IsLoaded_example =
    load_spi_flash-IsLoaded sound (λ a v. refl) (λ o n. refl) 255 0x40000 4 empty (omega arith)
      (omega arith) (omega arith)

succeeds : (load_spi_flash sound 255 0x40000 4 empty).0 ≡ true
succeeds =
    (load_spi_flash-IsLoaded sound (λ a v. refl) (λ o n. refl) 255 0x40000 4 empty (omega arith)
      (omega arith) (omega arith)).0

load_spi_flash-Holds_example :
    Holds sound (4 * 65536) (252 * 65536) 0x40000 (load_spi_flash sound 255 0x40000 4 empty).1
load_spi_flash-Holds_example =
    load_spi_flash-Holds sound 255 0x40000 4 empty (omega arith) (omega arith) (omega arith)
      succeeds

-- A flash memory in which each bank ends with a jump
abbrev bootable : Memories
bootable = record {
  read = λ offset count. true;
  byte = λ offset. if offset % 65536 == 65520 then 0xea else offset % 251;
  cell = λ address v. v;
}

bootable_starts :
    launch_rom bootable 255 0x40000 4 empty ≡ booted (load_spi_flash bootable 255 0x40000 4 empty).1
unfolding launch_rom
bootable_starts =
    let (ok, kept, held) =
      load_spi_flash-IsLoaded bootable (λ a v. refl) (λ o n. refl) 255 0x40000 4 empty (omega arith)
        (omega arith) (omega arith) in
    launched-booted 255 (load_spi_flash bootable 255 0x40000 4 empty) ok (held 262128 (omega arith))

-- "launch recovery", after a visit to the settings
settled : Reach true (choose true none (choose true (some 3) (start true)).1).1
settled = after none (after (some 3) at_start)

launches_recovery :
    launches 0x40000 4
      (choose true (some 1) (choose true none (choose true (some 3) (start true)).1).1).0
    ≡ true
unfolding launches choose
launches_recovery = refl

choose_boots_example :
    IsProgram 0x40000 4
    × IsSize 255
    × Holds bootable
        (4 * 65536)
        ((255 + 1 - 4) * 65536)
        0x40000
        (load_spi_flash bootable 255 0x40000 4 empty).1
    × (bootable.byte (0x40000 + 4 * 65536 - 16) ≡ 0xea)
    × (run_manufacturing_test true bootable 255 empty
        ≡ some (launch_rom bootable 255 0x10000 3 empty))
unfolding choose
choose_boots_example =
    choose_boots bootable true settled (some 1) 0x40000 4 launches_recovery empty bootable_starts

abbrev keys : Keys
keys = record { up = 1; down = 4; accept = 16; back = 32 }

-- Up, a frame without a key, and A with its release, in a menu of five items
abbrev scans : List ℕ
scans = 1 ∷ 1 ∷ 0 ∷ 16 ∷ 0 ∷ []

abbrev first_item : MenuState
first_item = record { menu_pos = 0; keys_held = 0 }

picks_last : (run_menu keys 5 scans first_item).0 ≡ chosen 4
unfolding run_menu
picks_last = refl

run_menu_position_example : (4 < 5) × (4 ≡ ((if ltb 0 5 then 0 else 0) + shifts keys 5 0 scans) % 5)
run_menu_position_example = run_menu_position keys 5 scans first_item (omega arith) picks_last
