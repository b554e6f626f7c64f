-- ===== src/Recovery/Memory.antt =====
-- software/userland/src/recovery/tests/memory.c, with util/rand.s: the tests of what memories hold on to;
-- and test_mcu_save_id of tests/mcu.c. What they print is left out.
pub mod Sram
pub mod SramTest
pub mod Firmware
pub mod Eeprom
pub mod SaveId
use nileswan.Base.{
  ℕ, zero, suc, ◌+◌, ◌*◌, ◌-◌, ◌/◌, ◌%◌, Bool, true, false, ◌&&◌, List, [], ◌∷◌, ◌++◌, Option, none,
  some,
}
use nileswan.Base.{◌==◌, leb, ltb, if◌then◌else◌, u16, ◌<<<◌, ◌>>>◌, bit_xor, length, get_or}
use nileswan.Native.Command.{bytes_of}
use nileswan.Updater.Flash.{same_bytes}

-- The native commands as libnile sends them, over a state of their own: parameters. The last is
-- nile_mcu_reset of test_mcu_begin.
pub record McuClient (S : Type 0) : Type 0 where
  pub eeprom_write : List ℕ → ℕ → ℕ → S → Bool × S
  pub eeprom_read : ℕ → ℕ → S → Option (List ℕ) × S
  pub set_save_id : ℕ → ℕ → S → Bool × S
  pub get_save_id : ℕ → S → Option ℕ × S
  pub set_eeprom_mode : ℕ → S → Bool × S
  pub restart : S → Bool × S

-- One step of the generator
abbrev pub xorshift : ℕ → ℕ
xorshift x =
    let a = u16 (bit_xor x (u16 (x <<< 7))) in
    let b = u16 (bit_xor a (a >>> 9)) in u16 (bit_xor b (u16 (b <<< 8)))

-- So many words, and the last of them
unfoldable pub xorshift_fill : ℕ → ℕ → ℕ × List ℕ
xorshift_fill zero value = (value, [])
xorshift_fill (suc n) value =
    let x = xorshift value in let (last, words) = xorshift_fill n x in (last, x ∷ words)

abbrev pub xorshift_fill_128b : ℕ → ℕ × List ℕ
xorshift_fill_128b value = let (last, words) = xorshift_fill 64 value in (last, bytes_of words)

-- The memory that the banks of the cartridge's RAM show
abbrev pub Banks : Type 0
Banks = ℕ → ℕ → ℕ

abbrev pub store_bytes : ℕ → ℕ → List ℕ → Banks → Banks
store_bytes bank offset bs ram b x =
    if (b == bank && leb offset x) && ltb x (offset + length bs)
    then get_or bs (x - offset) 0
    else ram b x

-- A bank, in blocks of 128 bytes until the offset is 0 again, which `n` bounds
unfoldable pub write_bank : ℕ → ℕ → ℕ → ℕ → Banks → ℕ × Banks
unfolding xorshift_fill bytes_of
write_bank zero bank offset value ram = (value, ram)
write_bank (suc n) bank offset value ram =
    let (next, bs) = xorshift_fill_128b value in
    let stored = store_bytes bank offset bs ram in
    elim (u16 (offset + 128) == 0) [
      | true ↦ (next, stored)
      | false ↦ write_bank n bank (u16 (offset + 128)) next stored
    ]

-- `n` banks from `bank` on
unfoldable pub write_banks : ℕ → ℕ → ℕ → Banks → Banks
unfolding write_bank
write_banks zero bank value ram = ram
write_banks (suc n) bank value ram =
    let (next, filled) = write_bank 512 bank 0 value ram in write_banks n (bank + 1) next filled

-- CONFIG_SRAM_BANKS
abbrev pub config_sram_banks : ℕ
config_sram_banks = 8

unfoldable pub test_memory_sram_write : Banks → Banks
unfolding write_banks
test_memory_sram_write = write_banks config_sram_banks 0 1

-- The bytes of a block; the keys with which the user goes on only end the output of errors.
unfoldable pub same_block : ℕ → ℕ → List ℕ → Banks → Bool
same_block bank offset [] ram = true
same_block bank offset (b ∷ bs) ram = b == ram bank offset && same_block bank (offset + 1) bs ram

unfoldable pub read_bank : ℕ → ℕ → ℕ → ℕ → Banks → ℕ × Bool
unfolding xorshift_fill bytes_of same_block
read_bank zero bank offset value ram = (value, true)
read_bank (suc n) bank offset value ram =
    let (next, bs) = xorshift_fill_128b value in
    let same = same_block bank offset bs ram in
    elim (u16 (offset + 128) == 0) [
      | true ↦ (next, same)
      | false ↦
          let (last, rest) = read_bank n bank (u16 (offset + 128)) next ram in (last, same && rest)
    ]

unfoldable pub read_banks : ℕ → ℕ → ℕ → Banks → Bool
unfolding read_bank
read_banks zero bank value ram = true
read_banks (suc n) bank value ram =
    let (next, same) = read_bank 512 bank 0 value ram in
    let rest = read_banks n (bank + 1) next ram in same && rest

unfoldable pub test_memory_sram_read : Banks → Bool
unfolding read_banks
test_memory_sram_read = read_banks config_sram_banks 0 1

abbrev pub save_id_expected : ℕ
save_id_expected = 0x12aa5578

abbrev pub holds_save_id : Option ℕ → Bool
holds_save_id none = false
holds_save_id (some save_id) = save_id == save_id_expected

-- A step that has to succeed before the next
abbrev pub and_then : {S : Type 0} → Bool × S → (S → Bool × S) → Bool × S
and_then (true, s) f = f s
and_then (false, s) f = (false, s)

module _ {S : Type 0} (c : McuClient S) where
  -- The blocks from `pos` to the end of the 1024 words, `n` of them
  unfoldable pub write_blocks : ℕ → ℕ → ℕ → S → Bool × S
  unfolding xorshift_fill bytes_of
  write_blocks zero pos value s = (true, s)
  write_blocks (suc n) pos value s =
      let (next, buffer) = xorshift_fill_128b value in
      and_then (c.eeprom_write buffer pos 64 s) (λ t. write_blocks n (pos + 64) next t)

  unfoldable pub test_memory_eeprom_write : S → Bool × S
  unfolding write_blocks
  test_memory_eeprom_write = write_blocks 16 0 1

  abbrev pub same_answer : List ℕ → Option (List ℕ) → Bool
  same_answer buffer none = false
  same_answer buffer (some bs) = same_bytes buffer bs

  -- All blocks are read, also after an error.
  unfoldable pub read_blocks : ℕ → ℕ → ℕ → S → Bool × S
  unfolding xorshift_fill bytes_of
  read_blocks zero pos value s = (true, s)
  read_blocks (suc n) pos value s =
      let (next, buffer) = xorshift_fill_128b value in
      let (answer, t) = c.eeprom_read pos 64 s in
      let (rest, u) = read_blocks n (pos + 64) next t in (same_answer buffer answer && rest, u)

  unfoldable pub test_memory_eeprom_read : S → Bool × S
  unfolding read_blocks
  test_memory_eeprom_read = read_blocks 16 0 1

  -- The save ID is asked for by its domain.
  abbrev pub check_save_id : ℕ → S → Bool × S
  check_save_id domain s = let (answer, t) = c.get_save_id domain s in (holds_save_id answer, t)

  -- NILE_MCU_EEPROM_MODE_M93LC86 is a number of libnile's: a parameter.
  module _ (m93lc86 : ℕ) where
    -- test_eeprom_retention, with whether all steps succeeded; domain 1 is that of SRAM2.
    abbrev pub retention_write : S → Bool × S
    retention_write s =
        and_then (c.set_save_id 1 0xaa551234 s)
          (λ t. and_then (c.set_eeprom_mode m93lc86 t) test_memory_eeprom_write)

    unfoldable pub test_eeprom_retention : Bool → S → Bool × S
    unfolding test_memory_eeprom_write test_memory_eeprom_read
    test_eeprom_retention first s =
        and_then (c.restart s)
          (λ t. and_then (if first then retention_write t else (true, t)) test_memory_eeprom_read)

    unfoldable pub test_mcu_save_id : S → Bool × S
    test_mcu_save_id s = and_then (c.restart s) (λ t.
        and_then (c.set_save_id 3 save_id_expected t) (λ u.
          and_then (c.set_eeprom_mode m93lc86 u)
            (λ v. and_then (c.restart v) (λ w. and_then (check_save_id 1 w) (check_save_id 2)))))
