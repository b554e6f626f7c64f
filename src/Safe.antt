-- ===== src/Safe.antt =====
-- The copying of a program from the flash memory to the PSRAM by the safe mode of the boot loader:
-- load_spi_flash of software/ipl1/src/safe/main.c. What it draws is left out.
pub mod Laws
pub mod Healthy
pub mod Menu
mod Tests
use nileswan.Base.{
  ℕ, zero, suc, ◌+◌, ◌-◌, ◌*◌, Bool, true, false, ◌&&◌, ◌==◌, ltb, leb, if◌then◌else◌, u16, u32,
}

-- The flash memory and the PSRAM: whether libnile's read of so many bytes at an offset succeeds, the
-- bytes, and what a cell of the PSRAM gives back for a byte that is stored, which is another byte
-- where the cell is damaged.
pub record Memories : Type 0 where
  pub read : ℕ → ℕ → Bool
  pub byte : ℕ → ℕ
  pub cell : ℕ → ℕ → ℕ

-- A step after a read that may have failed
abbrev pub then_load : Bool × (ℕ → ℕ) → ((ℕ → ℕ) → Bool × (ℕ → ℕ)) → Bool × (ℕ → ℕ)
then_load (false, psram) f = (false, psram)
then_load (true, psram) f = f psram

module _ (m : Memories) where
  -- What the PSRAM gives back after a copy of `count` bytes to an address
  abbrev pub copied : ℕ → ℕ → ℕ → (ℕ → ℕ) → ℕ → ℕ
  copied address offset count psram a =
      if leb address a && ltb a (address + count)
      then m.cell a (m.byte (offset + (a - address)))
      else psram a

  -- `nile_flash_read` to half a bank
  unfoldable pub load_half : ℕ → ℕ → (ℕ → ℕ) → Bool × (ℕ → ℕ)
  load_half address offset psram =
      if m.read offset 32768 then (true, copied address offset 32768 psram) else (false, psram)

  -- The loop over the banks, with its guard and its 16-bit counter, for at most `n` turns; a loop that is
  -- not at its end after them has no success.
  unfoldable pub write_banks : ℕ → ℕ → ℕ → ℕ → (ℕ → ℕ) → Bool × (ℕ → ℕ)
  unfolding load_half
  write_banks max zero bank offset psram = (ltb max bank, psram)
  write_banks max (suc n) bank offset psram =
      if ltb max bank
      then (true, psram)
      else then_load (load_half (bank * 65536) offset psram) λ half.
        then_load (load_half (bank * 65536 + 32768) (u32 (offset + 32768)) half)
          λ whole. write_banks max n (u16 (bank + 1)) (u32 (offset + 65536)) whole

  -- `memcmp`, as a test that the bytes are equal
  unfoldable pub same : ℕ → ℕ → ℕ → (ℕ → ℕ) → Bool
  same zero address offset psram = true
  same (suc n) address offset psram =
      let rest = same n (address + 1) (offset + 1) psram in psram address == m.byte offset && rest

  -- The pages of a bank that are left
  unfoldable pub verify_pages : ℕ → ℕ → ℕ → (ℕ → ℕ) → Bool
  unfolding same
  verify_pages zero address offset psram = true
  verify_pages (suc n) address offset psram =
      let rest = verify_pages n (address + 256) (u32 (offset + 256)) psram in
      m.read offset 256 && (same 256 address offset psram && rest)

  unfoldable pub verify_banks : ℕ → ℕ → ℕ → ℕ → (ℕ → ℕ) → Bool
  unfolding verify_pages
  verify_banks max zero bank offset psram = ltb max bank
  verify_banks max (suc n) bank offset psram =
      let rest = verify_banks max n (u16 (bank + 1)) (u32 (offset + 65536)) psram in
      if ltb max bank then true else verify_pages 256 (bank * 65536) offset psram && rest

  abbrev pub then_verify : ℕ → ℕ → ℕ → ℕ → Bool × (ℕ → ℕ) → Bool × (ℕ → ℕ)
  then_verify max banks first offset (false, psram) = (false, psram)
  then_verify max banks first offset (true, psram) =
      (verify_banks max banks first offset psram, psram)

  -- `load_spi_flash`, with the number of the last bank and a number of banks below 2^16. The last
  -- `banks` banks are loaded, in as many turns; where there are not so many, the first bank wraps to one
  -- past the last, and the loops make no turn.
  unfoldable pub load_spi_flash : ℕ → ℕ → ℕ → (ℕ → ℕ) → Bool × (ℕ → ℕ)
  unfolding write_banks verify_banks
  load_spi_flash psram_max_bank offset banks psram =
      let first = u16 (psram_max_bank + 1 + 65536 - banks) in
      then_verify psram_max_bank banks first offset
        (write_banks psram_max_bank banks first offset psram)
