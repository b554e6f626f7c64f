-- ===== src/Updater.antt =====
-- The updater: software/userland/src/updater/main.c and manifest.h. Its state, the libraries that it
-- calls, and the ways it ends. What it prints on the way is left out.
pub mod Command
pub mod Flash
pub mod Mcu
pub mod Run
pub mod Start
pub mod Bytes
pub mod Laws
mod Tests
use nileswan.Base.{ℕ, Bool, List, if◌then◌else◌}

-- libnile, the decompressor of libws and the cartridge: parameters. An operation gives the state of
-- the cartridge that it leaves, and whether it reported success.
pub record Hardware : Type 1 where
  pub State : Type 0
  pub board_revision : ℕ
  -- the bytes of the cartridge from a segment on, and what they decompress to
  pub rom : ℕ → List ℕ
  pub decompress : ℕ → List ℕ
  -- nile_flash_erase_part of 4 KiB, nile_flash_write_page, nile_flash_read
  pub erase_4k : ℕ → State → State × Bool
  pub write_page : List ℕ → ℕ → State → State × Bool
  pub read : ℕ → ℕ → State → State × Bool × List ℕ
  -- nile_mcu_reset, nile_mcu_boot_erase_memory, _write_memory, _read_memory
  pub mcu_reset : Bool → State → State × Bool
  pub mcu_erase : ℕ → ℕ → State → State × Bool
  pub mcu_write : ℕ → List ℕ → State → State × Bool
  pub mcu_read : ℕ → ℕ → State → State × Bool × List ℕ
  -- NILE_MCU_FLASH_PAGE_SIZE, NILE_MCU_FLASH_START
  pub mcu_page_size : ℕ
  pub mcu_flash_start : ℕ
  -- nile_flash_write_unlock_global and nile_flash_write_sr1(0), whose results are not looked at
  pub unlock : State → State

-- The texts of the fatal errors
pub data Text : Type 0 where
  corrupt_data fatal_error_spi fatal_error_mcu error_mcu_reset : Text

-- Where the program stops for good
pub data Halt : Type 0 where
  early_error : Text → ℕ → Halt
  flash_error : Text → ℕ → Halt
  -- the part, the sum found and the sum expected
  crc_error : ℕ → ℕ → ℕ → Halt
  unsupported_revision : ℕ → Halt
  unknown_flash : ℕ → Halt
  no_downgrade : Halt

-- `overrun`: the code reads on past the end of its 512 bytes; `stuck`: a loop has not ended.
pub data Outcome (S : Type 0) : Type 0 where
  done : S → Outcome S
  halted : Halt → S → Outcome S
  overrun stuck : Outcome S

infixl 5 ◌>>=◌
unfoldable pub ◌>>=◌ : {S : Type 0} → Outcome S → (S → Outcome S) → Outcome S
done s >>= f = f s
halted h s >>= f = halted h s
overrun >>= f = overrun
stuck >>= f = stuck

unfoldable pub require : {S : Type 0} → Bool → Halt → S → Outcome S
require ok h s = if ok then done s else halted h s

-- The globals of main.c
pub record Updater (H : Hardware) : Type 0 where
  pub hardware : H.State
  -- bank 0 of the SRAM, where `UNPACK_BUFFER` points
  pub unpack_buffer : List ℕ
  pub update_manifest_data : List ℕ
  pub flash_version_address : ℕ
  pub mcu_restarted : Bool
  pub update_part : ℕ
  pub update_verify : Bool
