-- ===== src/Updater/Mcu.antt =====
-- run_um_cmd_mcu_flash of software/userland/src/updater/main.c: the firmware of the microcontroller,
-- written through its boot loader.
use nileswan.Base.{ℕ, zero, suc, ◌+◌, ◌-◌, ◌/◌, ◌^◌, min, true, false, List, []}
use nileswan.Base.{◌∷◌, ◌==◌, ltb, if◌then◌else◌, get_or, u16, u32, set_bit, clear_field}
use nileswan.Base.{bit_and}
use nileswan.Updater.{Hardware, Updater, Outcome, done, stuck, ◌>>=◌, require}
use nileswan.Updater.{early_error, flash_error, corrupt_data, fatal_error_mcu, error_mcu_reset}
use nileswan.Updater.Command.{FlashCommand}
use nileswan.Updater.Flash.{same_bytes, slice, other_board, extract}

-- MCU_FLASH_OPTR_ADDR, 0x40022020
abbrev pub mcu_flash_optr_addr : ℕ
mcu_flash_optr_addr = 1073881120

-- The option bytes with NBOOT_SEL clear, BKPSRAM_HW_ERASE_DISABLE set and the BOR level 0
unfoldable pub option_bytes : List ℕ → List ℕ
option_bytes old =
    get_or old 0 0
    ∷ clear_field (get_or old 1 0) 0 3
    ∷ set_bit (get_or old 2 0) 7
    ∷ clear_field (get_or old 3 0) 0 1
    ∷ []

module _ (H : Hardware) where
  abbrev pub mcu_erase : ℕ → ℕ → ℕ → Updater H → Outcome (Updater H)
  mcu_erase code page_start page_count u =
      let (s, ok) = H.mcu_erase page_start page_count u.hardware in
      require ok (flash_error fatal_error_mcu code) (record u { hardware = s })

  abbrev pub mcu_write : ℕ → ℕ → List ℕ → Updater H → Outcome (Updater H)
  mcu_write code address page u =
      let (s, ok) = H.mcu_write address page u.hardware in
      require ok (flash_error fatal_error_mcu code) (record u { hardware = s })

  abbrev pub mcu_check : ℕ → List ℕ → ℕ → Updater H → Outcome (Updater H)
  mcu_check len page address u =
      let (s, ok, verify_buffer) = H.mcu_read address len u.hardware in
      do
        u' ← require ok (flash_error fatal_error_mcu 3) (record u { hardware = s })
        require (same_bytes verify_buffer page) (flash_error fatal_error_mcu 4) u'

  -- The `while` that writes blocks of 128 bytes and reads them back
  unfoldable pub mcu_blocks : ℕ → ℕ → ℕ → ℕ → Updater H → Outcome (Updater H)
  mcu_blocks zero start_address end_address i u =
      if ltb start_address end_address then stuck else done u
  mcu_blocks (suc n) start_address end_address i u = elim (ltb start_address end_address) [
    | false ↦ done u
    | true ↦
        let len = min (end_address - start_address) 128 in
        let page = slice i len u.unpack_buffer in
        do
          u' ← mcu_write 2 start_address page u
          u'' ← mcu_check len page start_address u'
          mcu_blocks n (start_address + len) end_address (i + len) u''
  ]

  -- The reset into the boot loader, once per run of the program
  unfoldable pub enter_boot_loader : Updater H → Outcome (Updater H)
  enter_boot_loader u =
      if u.mcu_restarted
      then done u
      else let (s, ok) = H.mcu_reset true u.hardware in
        do
          u' ← require ok (flash_error error_mcu_reset 0) (record u { hardware = s })
          done (record u' { mcu_restarted = true })

  -- The option bytes are written when they change.
  unfoldable pub write_options : List ℕ → Updater H → Outcome (Updater H)
  unfolding same_bytes
  write_options flash_optr_old u =
      let flash_optr = option_bytes flash_optr_old in
      if same_bytes flash_optr_old flash_optr
      then done u
      else mcu_write 6 mcu_flash_optr_addr flash_optr u

  unfoldable pub configure_mcu : Updater H → Outcome (Updater H)
  unfolding write_options
  configure_mcu u =
      let (s, ok, flash_optr) = H.mcu_read mcu_flash_optr_addr 4 u.hardware in
      do
        u' ← require ok (flash_error fatal_error_mcu 5) (record u { hardware = s })
        write_options flash_optr u'

  -- The last reset takes the microcontroller out of the boot loader. `mcu_restarted` stays set.
  abbrev pub leave_boot_loader : Updater H → Outcome (Updater H)
  leave_boot_loader u = done (record u { hardware = (H.mcu_reset false u.hardware).0 })

  -- Erase, write and configure. 512 blocks of 128 bytes are the 64 KiB that a part is shorter than.
  unfoldable pub mcu_part : FlashCommand → Updater H → Outcome (Updater H)
  unfolding mcu_blocks configure_mcu
  mcu_part c u =
      let start_address = c.flash_address in
      let end_address = u32 (start_address + c.unpacked_length) in
      let page_start = u16 (start_address / H.mcu_page_size) in
      let page_count =
        u16 (u32 (end_address + H.mcu_page_size + 2 ^ 32 - 1 - start_address) / H.mcu_page_size) in
      if u.update_verify then done u else do
        u1 ← mcu_erase 1 page_start page_count u
        u2 ←
            mcu_blocks 512 (u32 (start_address + H.mcu_flash_start))
              (u32 (end_address + H.mcu_flash_start)) 0 u1
        u3 ← configure_mcu u2
        leave_boot_loader u3

  unfoldable pub run_um_cmd_mcu_flash : FlashCommand → Updater H → Outcome (Updater H)
  unfolding enter_boot_loader mcu_part
  run_um_cmd_mcu_flash c u =
      let offset = bit_and c.flash_address (H.mcu_page_size - 1) in
      if other_board H c then done u else do
        u1 ← extract H c u
        u2 ← require (offset == 0) (early_error corrupt_data (u16 offset)) u1
        u3 ← enter_boot_loader u2
        mcu_part c u3
