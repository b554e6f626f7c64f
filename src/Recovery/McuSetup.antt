-- ===== src/Recovery/McuSetup.antt =====
-- software/userland/src/recovery/ops/mcu_setup.c: the set-up of the microcontroller through its boot
-- loader, and the copies of the memories to a file.
pub mod Written
use nileswan.Base.{ℕ, zero, suc, ◌+◌, ◌-◌, ◌*◌, ◌/◌, ◌^◌, min, Bool, true, false, List, [], ◌∷◌}
use nileswan.Base.{
  Option, none, some, ◌==◌, ◌||◌, ltb, leb, if◌then◌else◌, get_or, u16, u32, splice, ◌>>>◌,
}
use nileswan.Updater.Flash.{same_bytes, slice}
use nileswan.Updater.Mcu.{option_bytes, mcu_flash_optr_addr}
use nileswan.Recovery.{
  Platform, Machine, Action, Done, ok, ◌>>=◌, require, call, call_bytes, call_fr,
}
use nileswan.Recovery.{set_spi_cnt}

-- NILE_SPI_CLOCK_CART | NILE_SPI_DEV_MCU, while the body runs; then the old value.
unfoldable pub with_mcu : {S A : Type 0} → ℕ → Action S A → Action S A
with_mcu mcu_cnt body s = let (r, t) = body (set_spi_cnt mcu_cnt s) in (r, set_spi_cnt s.spi_cnt t)

-- A first way, and where it fails the second
abbrev pub or_else : {S A : Type 0} → Option A × Machine S → Action S A → Option A × Machine S
or_else (some a, s) other = (some a, s)
or_else (none, s) other = other s

module _ {S : Type 0} (p : Platform S) where
  abbrev pub mcu_enter_bootloader_mode : Action S Done
  mcu_enter_bootloader_mode = call (p.mcu_reset true)

  -- A chip that is not configured answers at once; any other is reset.
  unfoldable pub mcu_enter_bootloader_mode_maybe_unconfigured : Action S Done
  mcu_enter_bootloader_mode_maybe_unconfigured s =
      or_else (call p.mcu_boot_start s) mcu_enter_bootloader_mode

  unfoldable pub setup_boot_flags : Action S Done
  unfolding mcu_enter_bootloader_mode_maybe_unconfigured
  setup_boot_flags = do
    _ ← mcu_enter_bootloader_mode_maybe_unconfigured
    flash_optr ← call_bytes (p.mcu_read mcu_flash_optr_addr 4)
    call (p.mcu_write mcu_flash_optr_addr (option_bytes flash_optr))

  -- A block is written and read back.
  abbrev pub write_block : ℕ → ℕ → List ℕ → Action S Done
  write_block len address block = do
    _ ← call (p.mcu_write address block)
    verify_buffer ← call_bytes (p.mcu_read address len)
    require (same_bytes verify_buffer block)

  -- The `while` over the blocks; the pointer moves on by whole paragraphs of 16 bytes.
  unfoldable pub write_blocks : ℕ → ℕ → ℕ → ℕ → List ℕ → Action S Done
  write_blocks zero start_address end_address i firmware s =
      (if ltb start_address end_address then none else some ok, s)
  write_blocks (suc n) start_address end_address i firmware s =
      elim (ltb start_address end_address) [
        | false ↦ (some ok, s)
        | true ↦
            let len = min (end_address - start_address) 128 in
            (write_block len start_address (slice i len firmware) >>= λ _.
            write_blocks n (start_address + len) end_address (i + (len >>> 4) * 16) firmware)
              s
      ]

  -- Erase and write, in the boot loader. 512 blocks are more than a size of 16 bits has.
  unfoldable pub flash_firmware : ℕ → List ℕ → Action S Done
  unfolding write_blocks
  flash_firmware size firmware = do
    _ ← mcu_enter_bootloader_mode
    _ ← call (p.mcu_erase 0 (u16 ((size + p.mcu_page_size - 1) / p.mcu_page_size)))
    write_blocks 512 (u32 p.mcu_flash_start) (u32 (size + p.mcu_flash_start)) 0 firmware

  module _ (mcu_cnt : ℕ) where
    unfoldable pub op_mcu_setup_boot_flags : Action S Done
    unfolding setup_boot_flags with_mcu
    op_mcu_setup_boot_flags = with_mcu mcu_cnt setup_boot_flags

    -- `header` is the table in front of the packed firmware: how many boards, then an offset and a size
    -- for each. The firmware is unpacked over what the memory holds.
    unfoldable pub op_mcu_setup_flash_firmware : List ℕ → List ℕ → Action S Done
    unfolding flash_firmware with_mcu
    op_mcu_setup_flash_firmware header sram s =
        let segofs = get_or header (1 + p.board_revision * 2) 0 in
        let size = get_or header (2 + p.board_revision * 2) 0 in
        if leb (get_or header 0 0) p.board_revision || segofs == 0
        then (none, s)
        else with_mcu mcu_cnt (flash_firmware size (splice sram 0 (p.decompress segofs))) s
