-- ===== src/Eeprom/Bounds.antt =====
-- The valid states of eeprom.c, and the parts of its array.
use nileswan.Base.{
  ℕ, zero, suc, ◌⊎◌, ◌≢◌, ◌∙◌, ◌+◌, ◌^◌, ◌<◌, ◌≡◌, refl, Bool, true, false, ◌&&◌, List, [], ◌∷◌,
  arith, leb, ltb, if◌then◌else◌, length, get_or, set, length-set, get_or-set, bit_and, ◌!=◌,
}
use nileswan.Base.Bits.{bit_and-le_right}
use nileswan.Nvram.{eeprom_words}
use nileswan.Eeprom.{Eeprom, fill, opcode, exch_word, exchange}

pub length-fill : (n i w : ℕ) (d : List ℕ) → length (fill n i w d) ≡ length d
unfolding fill
length-fill zero i w d = refl
length-fill (suc n) i w d = omega (arith, length-fill n (i + 1) w (set d i w), length-set d i w)

-- The loop writes the `n` words from `i` on, as far as the array goes, and no other.
pub get_or-fill :
    (n i w : ℕ) (d : List ℕ) (j : ℕ)
    → get_or (fill n i w d) j 0
      ≡ (if leb i j && ltb j (i + n) && ltb j (length d) then w else get_or d j 0)
unfolding fill
get_or-fill zero i w d j = ground arith
get_or-fill (suc n) i w d j =
    ground (arith, get_or-fill n (i + 1) w (set d i w) j, get_or-set d i j w 0, length-set d i w)

pub record IsValid (e : Eeprom) : Type 0 where
  pub words : length e.nvram.eeprom_data ≡ eeprom_words
  pub mask : e.address_mask < eeprom_words
  pub fits : (i : ℕ) → get_or e.nvram.eeprom_data i 0 < 2 ^ 16

module _ (full : Bool) where
  mask-exch_word : (w : ℕ) (e : Eeprom) → (exch_word full w e).1.address_mask ≡ e.address_mask
  unfolding exch_word
  mask-exch_word w e = ground arith

  -- A word outside the emulated size is out of every command's reach.
  pub exch_word_outside :
      (w : ℕ) (e : Eeprom) (i : ℕ)
      → e.address_mask < i
      → get_or (exch_word full w e).1.nvram.eeprom_data i 0 ≡ get_or e.nvram.eeprom_data i 0
  unfolding exch_word
  exch_word_outside w e i h = ground (
    arith,
    get_or-fill (suc e.address_mask) 0 w e.nvram.eeprom_data i,
    get_or-fill (suc e.address_mask) 0 0xffff e.nvram.eeprom_data i,
    get_or-set e.nvram.eeprom_data (bit_and e.write_command e.address_mask) i w 0,
    get_or-set e.nvram.eeprom_data (bit_and w e.address_mask) i 0xffff 0,
    bit_and-le_right e.write_command e.address_mask,
    bit_and-le_right w e.address_mask,
  )

  -- Whatever words a console sends, the words of the array beyond the emulated size keep their
  -- values.
  pub exchange_outside :
      (ws : List ℕ) (e : Eeprom) (i : ℕ)
      → e.address_mask < i
      → get_or (exchange full ws e).1.nvram.eeprom_data i 0 ≡ get_or e.nvram.eeprom_data i 0
  unfolding exchange
  exchange_outside [] e i h = refl
  exchange_outside (w ∷ ws) e i h =
      exchange_outside ws (exch_word full w e).1 i (rw (mask-exch_word w e) h)
      ∙ exch_word_outside w e i h

  -- After every word the BUSY line is high exactly when a write command waits for its data.
  pub exch_word-busy :
      (w : ℕ) (e : Eeprom)
      → (exch_word full w e).1.busy ≡ ((exch_word full w e).1.write_command != 0)
  unfolding exch_word opcode
  exch_word-busy w e = ground arith

-- With full emulation and writing disabled, a word that is the data of a pending write, or that
-- is not an erase-all instruction, leaves the array as it is.
pub exch_word_locked :
    (w : ℕ) (e : Eeprom)
    → e.write_enabled ≡ false
    → (e.write_command ≢ 0) ⊎ (opcode w e.command_bits ≢ 0x12)
    → (exch_word true w e).1.nvram.eeprom_data ≡ e.nvram.eeprom_data
unfolding exch_word
exch_word_locked w e locked h = ground arith
