-- ===== src/Updater/Flash.antt =====
-- extract_um_cmd_flash, run_um_cmd_flash, run_um_cmd_start_manifest and run_um_cmd_finish_manifest
-- of software/userland/src/updater/main.c.
use nileswan.Base.{ℕ, zero, suc, ◌+◌, ◌-◌, min, Bool, true, false, List, [], ◌∷◌}
use nileswan.Base.{◌&&◌, ◌==◌, ◌!=◌, ltb, if◌then◌else◌, take, drop, set, splice, u32}
use nileswan.Base.{low_bits, clear_field}
use nileswan.Crc.{crc16}
use nileswan.Updater.{Hardware, Updater, Outcome, done, stuck, ◌>>=◌, require}
use nileswan.Updater.{early_error, flash_error, crc_error, corrupt_data, fatal_error_spi}
use nileswan.Updater.Command.{FlashCommand, um_cmd_packed_flash}

-- `memcmp` of two buffers of one length, as a test that they are equal
unfoldable pub same_bytes : List ℕ → List ℕ → Bool
same_bytes [] [] = true
same_bytes [] (b ∷ ys) = false
same_bytes (a ∷ xs) [] = false
same_bytes (a ∷ xs) (b ∷ ys) = a == b && same_bytes xs ys

abbrev pub slice : ℕ → ℕ → List ℕ → List ℕ
slice i len bytes = take len (drop i bytes)

-- sizeof(um_version_t), and the offset of `partial_install` in it
abbrev pub version_size : ℕ
version_size = 64

abbrev pub partial_install : ℕ
partial_install = 11

module _ (H : Hardware) where
  -- A flash operation whose failure ends the program
  abbrev pub erase_4k : ℕ → ℕ → Updater H → Outcome (Updater H)
  erase_4k code address u =
      let (s, ok) = H.erase_4k address u.hardware in
      require ok (flash_error fatal_error_spi code) (record u { hardware = s })

  abbrev pub write_page : ℕ → List ℕ → ℕ → Updater H → Outcome (Updater H)
  write_page code page address u =
      let (s, ok) = H.write_page page address u.hardware in
      require ok (flash_error fatal_error_spi code) (record u { hardware = s })

  -- Read back, and compare
  abbrev pub check_page : ℕ → List ℕ → ℕ → Updater H → Outcome (Updater H)
  check_page len page address u =
      let (s, ok, verify_buffer) = H.read address len u.hardware in
      do
        u' ← require ok (flash_error fatal_error_spi 3) (record u { hardware = s })
        require (same_bytes verify_buffer page) (flash_error fatal_error_spi 4) u'

  -- `inportb(IO_NILE_BOARD_REVISION) != cmd->board_revision`, for a command that names one
  abbrev pub other_board : FlashCommand → Bool
  other_board c = ltb c.board_revision 256 && (H.board_revision != c.board_revision)

  -- The bytes that the decompressor or `memcpy` writes to the start of the buffer
  abbrev pub unpacked : FlashCommand → List ℕ
  unpacked c =
      if c.cmd == um_cmd_packed_flash
      then H.decompress c.load_segment
      else take c.unpacked_length (H.rom c.load_segment)

  unfoldable pub extract : FlashCommand → Updater H → Outcome (Updater H)
  extract c u =
      let buffer = splice u.unpack_buffer 0 (unpacked c) in
      let actual_crc = crc16 buffer c.unpacked_length 0 in
      require (actual_crc == c.expected_crc) (crc_error u.update_part actual_crc c.expected_crc)
        (record u { unpack_buffer = buffer })

  -- The `while` that erases. `erase_address` wraps round at 32 bits.
  unfoldable pub erase_sectors : ℕ → ℕ → ℕ → Updater H → Outcome (Updater H)
  erase_sectors zero erase_address end_address u =
      if ltb erase_address end_address then stuck else done u
  erase_sectors (suc n) erase_address end_address u = elim (ltb erase_address end_address) [
    | false ↦ done u
    | true ↦ do
      u' ← erase_4k 1 erase_address u
      erase_sectors n (u32 (erase_address + 4096)) end_address u'
  ]

  -- The `while` that writes pages of 256 bytes and reads them back
  unfoldable pub flash_pages : ℕ → ℕ → ℕ → ℕ → Updater H → Outcome (Updater H)
  flash_pages zero start_address end_address i u =
      if ltb start_address end_address then stuck else done u
  flash_pages (suc n) start_address end_address i u = elim (ltb start_address end_address) [
    | false ↦ done u
    | true ↦
        let len = min (end_address - start_address) 256 in
        let page = slice i len u.unpack_buffer in
        do
          u' ← write_page 2 page start_address u
          u'' ← check_page len page start_address u'
          flash_pages n (start_address + len) end_address (i + len) u''
  ]

  -- Erase and flash, when this is not the pass that verifies. Both loops end within the fuel: a part
  -- has less than 64 KiB, which is 17 sectors and 256 pages.
  unfoldable pub flash_part : FlashCommand → Updater H → Outcome (Updater H)
  flash_part c u =
      let start_address = c.flash_address in
      let end_address = u32 (start_address + c.unpacked_length) in
      if u.update_verify then done u else do
        u' ← erase_sectors 17 (clear_field start_address 0 12) end_address u
        flash_pages 256 start_address end_address 0 u'

  unfoldable pub run_um_cmd_flash : FlashCommand → Updater H → Outcome (Updater H)
  unfolding extract flash_part
  run_um_cmd_flash c u = if other_board c then done u else do
    u' ← extract c u
    u'' ←
        require (low_bits c.flash_address 8 == 0)
          (early_error corrupt_data (low_bits c.flash_address 8)) u'
    flash_part c u''

  -- `version->partial_install = v`
  abbrev pub set_partial : ℕ → Updater H → Updater H
  set_partial v u = record u { update_manifest_data = set u.update_manifest_data partial_install v }

  abbrev pub version : Updater H → List ℕ
  version u = take version_size u.update_manifest_data

  unfoldable pub write_manifest : ℕ → ℕ → Updater H → Outcome (Updater H)
  write_manifest len start_address u = do
    u' ← write_page 2 (take len (version u)) start_address u
    check_page version_size (version u) start_address u'

  unfoldable pub install_version : ℕ → Updater H → Outcome (Updater H)
  unfolding write_manifest
  install_version start_address u = do
    u' ← erase_4k 1 start_address u
    write_manifest version_size start_address u'

  unfoldable pub run_um_cmd_start_manifest : ℕ → Updater H → Outcome (Updater H)
  unfolding install_version
  run_um_cmd_start_manifest start_address u =
      let u0 = set_partial 255 u in
      do
        u1 ←
            require (low_bits start_address 12 == 0)
              (early_error corrupt_data (low_bits start_address 12)) u0
        let u2 = record u1 { flash_version_address = start_address }
        if u2.update_verify then done u2 else install_version start_address u2

  unfoldable pub run_um_cmd_finish_manifest : ℕ → Updater H → Outcome (Updater H)
  unfolding write_manifest
  run_um_cmd_finish_manifest start_address u =
      let u0 = set_partial 0 u in
      do
        u1 ←
            require (low_bits start_address 12 == 0)
              (early_error corrupt_data (low_bits start_address 12)) u0
        if u1.update_verify then done u1 else write_manifest 12 start_address u1
