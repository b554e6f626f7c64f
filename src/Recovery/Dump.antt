-- ===== src/Recovery/Dump.antt =====
-- op_mcu_setup_dump_flash and op_mcu_setup_dump_spi_flash of
-- software/userland/src/recovery/ops/mcu_setup.c: copies of a memory to a file on the memory card.
pub mod Laws
use nileswan.Base.{
  ℕ, zero, suc, ◌+◌, ◌-◌, ◌*◌, min, Bool, true, false, List, Option, none, some, ltb,
}
use nileswan.Base.{if◌then◌else◌}
use nileswan.Recovery.{Platform, Machine, Action, Done, ok, ◌>>=◌, call, call_bytes, call_fr}
use nileswan.Recovery.McuSetup.{with_mcu, mcu_enter_bootloader_mode}
use nileswan.Recovery.TfCard.{write_file, op_tf_card_init}

-- `f_close`, whose error counts as well
abbrev pub both : Option Done → Option Done → Option Done
both (some ok) (some ok) = some ok
both _ _ = none

module _ {S : Type 0} (p : Platform S) where
  abbrev pub close_after : Option Done × Machine S → Option Done × Machine S
  close_after (r, s) = let (c, t) = call_fr p.f_close s in (both r c, t)

  module _ (read : ℕ → ℕ → S → Option (List ℕ) × S) where
    -- The `while` over the blocks of 128 bytes
    unfoldable pub dump_blocks : ℕ → ℕ → ℕ → Action S Done
    dump_blocks zero start_address end_address s =
        (if ltb start_address end_address then none else some ok, s)
    dump_blocks (suc n) start_address end_address s = elim (ltb start_address end_address) [
      | false ↦ (some ok, s)
      | true ↦
          let len = min (end_address - start_address) 128 in
          (call_bytes (read start_address len) >>= λ verify_buffer.
          write_file p verify_buffer >>= λ _. dump_blocks n (start_address + len) end_address)
            s
    ]

    -- The file is made, filled and closed.
    unfoldable pub dump_file : ℕ → ℕ → ℕ → Action S Done
    unfolding dump_blocks
    dump_file n start_address end_address =
        call_fr (p.f_open true) >>= λ _ s. close_after (dump_blocks n start_address end_address s)

  module _ (tf_cnt mcu_cnt : ℕ) where
    -- 256 KiB are 2048 blocks.
    unfoldable pub op_mcu_setup_dump_flash : Action S Done
    unfolding dump_file with_mcu
    op_mcu_setup_dump_flash = with_mcu mcu_cnt (
        op_tf_card_init p tf_cnt false true >>= λ _. mcu_enter_bootloader_mode p >>= λ _.
        dump_file p.mcu_read 2048 p.mcu_flash_start (p.mcu_flash_start + 256 * 1024))

    -- 2 MiB are 16384 blocks.
    unfoldable pub op_mcu_setup_dump_spi_flash : Action S Done
    unfolding dump_file with_mcu
    op_mcu_setup_dump_spi_flash =
        with_mcu mcu_cnt (call p.flash_wake >>= λ _. dump_file p.flash_read 16384 0 (2048 * 1024))
