-- ===== src/Recovery.antt =====
-- The operations and tests of the recovery program, software/userland/src/recovery: what they call, and
-- how their steps follow each other. What they print is left out.
pub mod Laws
pub mod Dump
pub mod TfCard
pub mod McuSetup
pub mod Memory
pub mod Button
mod Tests
use nileswan.Base.{ℕ, Bool, true, false, List, Option, none, some, ◌==◌, if◌then◌else◌}

-- libnile, FatFs with the driver of the memory card, and the keys, over a state of their own:
-- parameters. A FRESULT is a number, 0 being FR_OK.
pub record Platform (S : Type 0) : Type 0 where
  pub mcu_reset : Bool → S → Bool × S
  -- nile_spi_xch with the start byte of the boot loader, and nile_mcu_boot_wait_ack
  pub mcu_boot_start : S → Bool × S
  pub mcu_read : ℕ → ℕ → S → Option (List ℕ) × S
  pub mcu_write : ℕ → List ℕ → S → Bool × S
  pub mcu_erase : ℕ → ℕ → S → Bool × S
  pub mcu_page_size : ℕ
  pub mcu_flash_start : ℕ
  pub flash_wake : S → Bool × S
  pub flash_read : ℕ → ℕ → S → Option (List ℕ) × S
  pub board_revision : ℕ
  pub decompress : ℕ → List ℕ
  -- `fs.fs_type`, nilefs_eject with the memset of `fs`, and disk_initialize
  pub fs_type : S → ℕ
  pub eject : S → S
  pub disk_initialize : S → ℕ × S
  pub f_mount : S → ℕ × S
  pub f_mkfs : S → ℕ × S
  -- f_open of the one file that is used, which is made empty or not
  pub f_open : Bool → S → ℕ × S
  pub f_size : S → ℕ
  pub f_lseek : ℕ → S → ℕ × S
  pub f_truncate : S → ℕ × S
  -- with the number of bytes that were written
  pub f_write : List ℕ → S → (ℕ × ℕ) × S
  pub f_read : ℕ → S → (ℕ × List ℕ) × S
  pub f_close : S → ℕ × S
  -- whether A is among the keys that are waited for
  pub accepts : S → Bool × S

-- The libraries' state and IO_NILE_SPI_CNT, with the numbers that are written to it
pub record Machine (S : Type 0) : Type 0 where
  pub lib : S
  pub spi_cnt : ℕ

-- A step may fail, and the state comes back in any case.
abbrev pub Action : Type 0 → Type 0 → Type 0
Action S A = Machine S → Option A × Machine S

pub data Done : Type 0 where
  ok : Done

unfoldable pub next :
    {S A B : Type 0} → Option A × Machine S → (A → Action S B) → Option B × Machine S
next (none, s) f = (none, s)
next (some a, s) f = f a s

infixl 1 ◌>>=◌
unfoldable pub ◌>>=◌ : {S A B : Type 0} → Action S A → (A → Action S B) → Action S B
unfolding next
◌>>=◌ m f s = next (m s) f

abbrev pub require : {S : Type 0} → Bool → Action S Done
require b s = (if b then some ok else none, s)

-- A call that reports success, one that gives bytes, and one that gives a FRESULT
abbrev pub call : {S : Type 0} → (S → Bool × S) → Action S Done
call f s = let (b, l) = f s.lib in (if b then some ok else none, record s { lib = l })

abbrev pub call_bytes : {S : Type 0} → (S → Option (List ℕ) × S) → Action S (List ℕ)
call_bytes f s = let (o, l) = f s.lib in (o, record s { lib = l })

abbrev pub call_fr : {S : Type 0} → (S → ℕ × S) → Action S Done
call_fr f s = let (r, l) = f s.lib in (if r == 0 then some ok else none, record s { lib = l })

abbrev pub set_spi_cnt : {S : Type 0} → ℕ → Machine S → Machine S
set_spi_cnt v s = record s { spi_cnt = v }
