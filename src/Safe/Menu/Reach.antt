-- ===== src/Safe/Menu/Reach.antt =====
-- What the safe mode of software/ipl1/src/safe/main.c can launch, whatever is chosen in its menus.
use nileswan.Base.{
  ℕ, ◌+◌, ◌-◌, ◌*◌, ◌^◌, ◌≤◌, ◌<◌, ◌≡◌, ◌⊎◌, inl, inr, refl, ap, sym, subst, ◌∙◌, arith,
}
use nileswan.Base.{
  Bool, true, false, ◌&&◌, ◌||◌, Bool-cases, List, [], ◌∷◌, ◌++◌, Option, none, some,
}
use nileswan.Base.{◌==◌, ◌!=◌, bit_xor, ◌>>>◌}
use nileswan.Safe.{Memories, load_spi_flash}
use nileswan.Safe.Laws.{Holds, load_spi_flash-Holds}
use nileswan.Safe.Menu.{
  Task, launch, quick_test, manufacturing_test, sram_readout, deep_test, sram_wait, slow_spi,
  SafeMode,
}
use nileswan.Safe.Menu.{
  Screen, main_menu, config_menu, advanced_menu, choose, choose_at, choose_main, choose_config,
}
use nileswan.Safe.Menu.{
  choose_advanced, clock_tasks, start, Launch, booted, no_header, load_failed, launched, launch_rom,
  run_manufacturing_test,
}

-- The states that choices lead to
pub data Reach (color : Bool) : SafeMode → Type 0 where
  at_start : Reach color (start color)
  after : {s : SafeMode} (item : Option ℕ) → Reach color s → Reach color ((choose color item s).1)

-- Whether so many banks at an offset of the flash memory are among the programs to launch, the one at the
-- end of the manufacturing test included
unfoldable pub launches : ℕ → ℕ → List Task → Bool
launches offset banks [] = false
launches offset banks (launch o b ∷ tasks) =
    (o == offset && b == banks) || launches offset banks tasks
launches offset banks (quick_test ∷ tasks) = launches offset banks tasks
launches offset banks (manufacturing_test ∷ tasks) =
    (0x10000 == offset && 3 == banks) || launches offset banks tasks
launches offset banks (sram_readout ∷ tasks) = launches offset banks tasks
launches offset banks (deep_test full ∷ tasks) = launches offset banks tasks
launches offset banks (sram_wait slow ∷ tasks) = launches offset banks tasks
launches offset banks (slow_spi slow ∷ tasks) = launches offset banks tasks

-- Either of the two sizes of the PSRAM
abbrev pub IsSize : ℕ → Type 0
IsSize max = (max ≡ 255) ⊎ (max ≡ 127)

choose_main-IsSize :
    (item : Option ℕ) (s : SafeMode)
    → IsSize s.psram_max_bank
    → IsSize (choose_main item s).1.psram_max_bank
unfolding choose_main
choose_main-IsSize none s size = size
choose_main-IsSize (some item) s size = ground (arith, size)

choose_advanced-IsSize :
    (item : Option ℕ) (s : SafeMode)
    → IsSize s.psram_max_bank
    → IsSize (choose_advanced item s).1.psram_max_bank
unfolding choose_advanced
choose_advanced-IsSize none s size = size
choose_advanced-IsSize (some item) s size = ground (arith, size)

flipped : (max : ℕ) → IsSize max → IsSize (bit_xor max 128)
flipped max (inl large) = inr (ap (λ m. bit_xor m 128) large)
flipped max (inr small) = inl (ap (λ m. bit_xor m 128) small)

choose_config-IsSize :
    (color : Bool) (item : Option ℕ) (s : SafeMode)
    → IsSize s.psram_max_bank
    → IsSize (choose_config color item s).1.psram_max_bank
unfolding choose_config
choose_config-IsSize color none s size = size
choose_config-IsSize true (some item) s size =
    let other = flipped s.psram_max_bank size in ground (arith, size, other)
choose_config-IsSize false (some item) s size =
    let other = flipped s.psram_max_bank size in ground (arith, size, other)

choose-IsSize :
    (color : Bool) (item : Option ℕ) (s : SafeMode)
    → IsSize s.psram_max_bank
    → IsSize (choose color item s).1.psram_max_bank
unfolding choose
choose-IsSize color item s size =
    elim (s.screen) as (λ x. IsSize (choose_at x color item s).1.psram_max_bank) [
      | main_menu ↦ choose_main-IsSize item s size
      | config_menu ↦ choose_config-IsSize color item s size
      | advanced_menu ↦ choose_advanced-IsSize item s size
    ]

Reach-IsSize : (color : Bool) {s : SafeMode} → Reach color s → IsSize s.psram_max_bank
Reach-IsSize color at_start = inl refl
Reach-IsSize color (after {s} item r) = choose-IsSize color item s (Reach-IsSize color r)

-- The recovery program or the one of the factory, by their offset and number of banks
abbrev pub IsProgram : ℕ → ℕ → Type 0
IsProgram offset banks = ((offset ≡ 0x40000) × (banks ≡ 4)) ⊎ ((offset ≡ 0x10000) × (banks ≡ 3))

launches-append :
    (offset banks : ℕ) (ts us : List Task)
    → launches offset banks (ts ++ us) ≡ (launches offset banks ts || launches offset banks us)
unfolding launches
launches-append offset banks [] us = refl
launches-append offset banks (launch o b ∷ ts) us =
    ground (arith, launches-append offset banks ts us)
launches-append offset banks (quick_test ∷ ts) us = launches-append offset banks ts us
launches-append offset banks (manufacturing_test ∷ ts) us =
    ground (arith, launches-append offset banks ts us)
launches-append offset banks (sram_readout ∷ ts) us = launches-append offset banks ts us
launches-append offset banks (deep_test full ∷ ts) us = launches-append offset banks ts us
launches-append offset banks (sram_wait slow ∷ ts) us = launches-append offset banks ts us
launches-append offset banks (slow_spi slow ∷ ts) us = launches-append offset banks ts us

main_launches :
    (item : Option ℕ) (s : SafeMode) (offset banks : ℕ)
    → launches offset banks (choose_main item s).0 ≡ true
    → IsProgram offset banks
unfolding choose_main launches
main_launches none s offset banks h = absurd cc
main_launches (some item) s offset banks h = ground (arith, h)

advanced_launches :
    (item : Option ℕ) (s : SafeMode) (offset banks : ℕ)
    → launches offset banks (choose_advanced item s).0 ≡ true
    → IsProgram offset banks
unfolding choose_advanced launches
advanced_launches none s offset banks h = absurd cc
advanced_launches (some item) s offset banks h = ground (arith, h)

config_launches :
    (color : Bool) (item : Option ℕ) (s : SafeMode) (offset banks : ℕ)
    → launches offset banks (choose_config color item s).0 ≡ true
    → ⊥
unfolding choose_config launches
config_launches color none s offset banks h = absurd cc
config_launches true (some item) s offset banks h = ground (arith, h)
config_launches false (some item) s offset banks h = ground (arith, h)

clock_launches :
    (screen : Screen) (slow : Bool) (offset banks : ℕ)
    → launches offset banks (clock_tasks screen slow) ≡ false
unfolding launches
clock_launches main_menu slow offset banks = refl
clock_launches config_menu slow offset banks = refl
clock_launches advanced_menu slow offset banks = refl

choose-launches :
    (color : Bool) (item : Option ℕ) (s : SafeMode) (offset banks : ℕ)
    → launches offset banks (choose color item s).0 ≡ true
    → IsProgram offset banks
unfolding choose
choose-launches color item s offset banks h =
    let r = choose_at s.screen color item s in
    let asked : launches offset banks r.0 ≡ true = ground (
      arith,
      h,
      launches-append offset banks r.0 (clock_tasks r.1.screen r.1.spi_speed_limit),
      clock_launches r.1.screen r.1.spi_speed_limit offset banks,
    ) in
    (elim (s.screen)
        as (λ x.
          launches offset banks (choose_at x color item s).0 ≡ true → IsProgram offset banks) [
            | main_menu ↦ main_launches item s offset banks
            | config_menu ↦ λ k. absurd (config_launches color item s offset banks k)
            | advanced_menu ↦ advanced_launches item s offset banks
          ])
      asked

not_booted : (psram final : ℕ → ℕ) → no_header psram ≡ booted final → ⊥
not_booted psram final h = cc

memory_of : Launch → ℕ → ℕ
memory_of (booted psram) = psram
memory_of (no_header psram) = psram
memory_of (load_failed psram) = psram

booted_same : {psram final : ℕ → ℕ} → booted psram ≡ booted final → psram ≡ final
unfolding memory_of
booted_same h = ap memory_of h

launched_some :
    (max : ℕ) (r : Bool × (ℕ → ℕ)) {final : ℕ → ℕ}
    → launched max r ≡ booted final
    → (r.0 ≡ true) × (r.1 ≡ final) × (final ((max >>> 4) * 2 ^ 20 + 0xffff0) ≡ 0xea)
launched_some max (false, psram) h = absurd cc
launched_some max (true, psram) {final} h =
    elim (Bool-cases (psram ((max >>> 4) * 2 ^ 20 + 0xffff0) != 0xea)) [
      | inl other ↦ absurd (not_booted psram final (rw other at h))
      | inr jump ↦
          let same : psram ≡ final = booted_same (rw jump at h) in
          (
            refl,
            same,
            ap (λ f. f ((max >>> 4) * 2 ^ 20 + 0xffff0)) (sym same) ∙ ground (arith, jump),
          )
    ]

boot_some :
    (m : Memories) (max offset banks : ℕ) (psram : ℕ → ℕ) {final : ℕ → ℕ}
    → launch_rom m max offset banks psram ≡ booted final
    → let r = load_spi_flash m max offset banks psram in
      (r.0 ≡ true) × (r.1 ≡ final) × (final ((max >>> 4) * 2 ^ 20 + 0xffff0) ≡ 0xea)
unfolding launch_rom
boot_some m max offset banks psram h = launched_some max (load_spi_flash m max offset banks psram) h

-- A program with a reset vector is started once it is loaded.
pub launched-booted :
    (max : ℕ) (r : Bool × (ℕ → ℕ))
    → r.0 ≡ true
    → r.1 ((max >>> 4) * 2 ^ 20 + 0xffff0) ≡ 0xea
    → launched max r ≡ booted r.1
launched-booted max (false, psram) ok jump = absurd cc
launched-booted max (true, psram) ok jump =
    let no_other : (psram ((max >>> 4) * 2 ^ 20 + 0xffff0) != 0xea) ≡ false =
      ground (arith, jump) in
    rw no_other refl

-- Whatever has been chosen in the menus, what is launched is the recovery program or that of the factory,
-- with one of the two sizes of the PSRAM; and where a launch starts the program, the last banks of the PSRAM
-- hold it as it stands in the flash memory, byte for byte, with a far jump as the reset vector. The
-- manufacturing test launches the program of the factory, once the IPC buffer has passed its test.
pub choose_boots :
    (m : Memories) (color : Bool) {s : SafeMode}
    → Reach color s
    → (item : Option ℕ) (offset banks : ℕ) → launches offset banks (choose color item s).0 ≡ true
    → (psram : ℕ → ℕ) {final : ℕ → ℕ}
    → launch_rom m s.psram_max_bank offset banks psram ≡ booted final
    → IsProgram offset banks
      × IsSize s.psram_max_bank
      × Holds m (banks * 65536) ((s.psram_max_bank + 1 - banks) * 65536) offset final
      × (m.byte (offset + banks * 65536 - 16) ≡ 0xea)
      × (run_manufacturing_test true m s.psram_max_bank psram
          ≡ some (launch_rom m s.psram_max_bank 0x10000 3 psram))
unfolding run_manufacturing_test
choose_boots m color {s} reach item offset banks asked psram {final} started =
    let program = choose-launches color item s offset banks asked in
    let size = Reach-IsSize color reach in
    let (loaded, same, jump) = boot_some m s.psram_max_bank offset banks psram started in
    let small : offset + banks * 65536 < 2 ^ 32 = ground (arith, program) in
    let there : banks ≤ s.psram_max_bank + 1 = ground (arith, program, size) in
    let narrow : s.psram_max_bank < 65535 = ground (arith, size) in
    let held : Holds m (banks * 65536) ((s.psram_max_bank + 1 - banks) * 65536) offset final =
      subst (Holds m (banks * 65536) ((s.psram_max_bank + 1 - banks) * 65536) offset) same
        (load_spi_flash-Holds m s.psram_max_bank offset banks psram there narrow small loaded) in
    let last = held (banks * 65536 - 16) (ground (arith, program)) in
    let top : (s.psram_max_bank + 1 - banks) * 65536 + (banks * 65536 - 16)
        ≡ (s.psram_max_bank >>> 4) * 2 ^ 20 + 0xffff0 =
      ground (arith, program, size) in
    let end : offset + (banks * 65536 - 16) ≡ offset + banks * 65536 - 16 =
      ground (arith, program) in
    (program, size, held, ap m.byte (sym end) ∙ sym last ∙ ap final top ∙ jump, refl)
