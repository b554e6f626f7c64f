-- ===== src/Recovery/Memory/Firmware.antt =====
-- The commands of firmware/src/spi_cmd.c as the tests of software/userland/src/recovery/tests call them.
use nileswan.Base.{ℕ, zero, suc, ◌+◌, ◌≡◌, refl, ap, sym, ◌∙◌, arith}
use nileswan.Base.{Bool, true, false, List, [], ◌∷◌, ◌++◌, Option, none, some, length, drop, splice}
use nileswan.Updater.Flash.{same_bytes}
use nileswan.Eeprom.{Eeprom, geometry, set_type, write_data}
use nileswan.Native.State.{eeprom_write, eeprom_read, eeprom_mode, set_save_id, get_save_id}
use nileswan.Native.State.{Protocol, Stack, World, Mcu}
use nileswan.Native.Command.{
  Answer, silent, unknown, bytes, perform, word_bytes, long_bytes, read_long,
}
use nileswan.Native.Laws.{AllWords}
use nileswan.Hid.{Hat}
use nileswan.Recovery.Memory.{
  McuClient, and_then, xorshift, xorshift_fill, xorshift_fill_128b, write_blocks, read_blocks,
}

module _ {U : Type 0} where
  -- Whether a command had an answer, and the bytes of it
  abbrev pub answered : Option (Answer × Mcu U) → Mcu U → Option (List ℕ) × Mcu U
  answered none m = (none, m)
  answered (some (silent, m1)) m = (none, m1)
  answered (some (unknown, m1)) m = (none, m1)
  answered (some (bytes bs, m1)) m = (some bs, m1)

  abbrev pub succeeded : Option (List ℕ) × Mcu U → Bool × Mcu U
  succeeded (none, m) = (false, m)
  succeeded (some bs, m) = (true, m)

  abbrev pub read_answer : Option (List ℕ) × Mcu U → Option ℕ × Mcu U
  read_answer (none, m) = (none, m)
  read_answer (some bs, m) = (some (read_long bs), m)

-- A link that loses nothing between the tests and the firmware
abbrev pub firmware :
    {U : Type 0}
    → Protocol
    → Stack U
    → (Hat → ℕ)
    → World
    → Bool
    → (Mcu U → Bool × Mcu U)
    → McuClient (Mcu U)
firmware protocol stack hat w full reset = record {
  eeprom_write = λ bs address n m.
      succeeded (
        answered (perform protocol stack hat w full eeprom_write n (word_bytes address ++ bs) m) m);
  eeprom_read = λ address n m.
      answered (perform protocol stack hat w full eeprom_read n (word_bytes address) m) m;
  set_save_id = λ domain id m.
      succeeded
        (answered (perform protocol stack hat w full set_save_id domain (long_bytes id) m) m);
  get_save_id = λ domain m.
      read_answer (answered (perform protocol stack hat w full get_save_id domain [] m) m);
  set_eeprom_mode =
      λ type m. succeeded (answered (perform protocol stack hat w full eeprom_mode type [] m) m);
  restart = reset;
}

pub xorshift_fill_words :
    (n value : ℕ) → (length (xorshift_fill n value).1 ≡ n) × AllWords (xorshift_fill n value).1
unfolding xorshift_fill
xorshift_fill_words zero value = (refl, tt)
xorshift_fill_words (suc n) value =
    let (l, all) = xorshift_fill_words n (xorshift value) in (omega (arith, l), (omega arith, all))

pub same_bytes_refl : (bs : List ℕ) → same_bytes bs bs ≡ true
unfolding same_bytes
same_bytes_refl [] = refl
same_bytes_refl (b ∷ bs) = ground (arith, same_bytes_refl bs)

pub write_data-splice :
    (ws : List ℕ) (pos : ℕ) (e : Eeprom) {e1 : Eeprom}
    → write_data ws pos e ≡ some e1
    → e1.nvram.eeprom_data ≡ splice e.nvram.eeprom_data pos ws
unfolding write_data
write_data-splice ws pos e h = ground (arith, h)

drop-nil : (n : ℕ) → ◌≡◌ {A = List ℕ} (drop n []) []
drop-nil zero = refl
drop-nil (suc n) = refl

pub drop-drop : (m n : ℕ) (xs : List ℕ) → drop n (drop m xs) ≡ drop (m + n) xs
drop-drop zero n xs = ap (λ k. drop k xs) (omega arith)
drop-drop (suc m) n [] = drop-nil n ∙ sym (drop-nil (suc m + n))
drop-drop (suc m) n (x ∷ xs) =
    let count : suc m + n ≡ suc (m + n) = omega arith in
    drop-drop m n xs ∙ sym (ap (λ k. drop k (x ∷ xs)) count)

pub set_type_data :
    (full : Bool) (type : ℕ) (e : Eeprom)
    → ((set_type full type e).nvram.eeprom_data ≡ e.nvram.eeprom_data)
      × ((set_type full type e).nvram.save_id ≡ e.nvram.save_id)
unfolding set_type geometry
set_type_data full type e = ground arith

-- The words of `n` blocks
unfoldable pub written_words : ℕ → ℕ → List ℕ
written_words zero value = []
written_words (suc n) value =
    (xorshift_fill 64 value).1 ++ written_words n (xorshift_fill 64 value).0

pub and_then_some :
    {S : Type 0} (r : Bool × S) (f : S → Bool × S) {s : S} → r ≡ (true, s) → and_then r f ≡ f s
and_then_some r f done = ap (λ q. and_then q f) done

-- One round of each loop
module _ {S : Type 0} (c : McuClient S) where
  pub write_blocks_more :
      (n pos value : ℕ) (s : S) {t : S}
      → c.eeprom_write (xorshift_fill_128b value).1 pos 64 s ≡ (true, t)
      → write_blocks c (suc n) pos value s
        ≡ write_blocks c n (pos + 64) (xorshift_fill 64 value).0 t
  unfolding write_blocks
  write_blocks_more n pos value s done =
      ap (λ r. and_then r (write_blocks c n (pos + 64) (xorshift_fill 64 value).0)) done

  pub read_blocks_more :
      (n pos value : ℕ) (s : S) {t u : S} {bs : List ℕ}
      → c.eeprom_read pos 64 s ≡ (some bs, t)
      → same_bytes (xorshift_fill_128b value).1 bs ≡ true
      → read_blocks c n (pos + 64) (xorshift_fill 64 value).0 t ≡ (true, u)
      → read_blocks c (suc n) pos value s ≡ (true, u)
  unfolding read_blocks
  read_blocks_more n pos value s answer same rest = rw (read_blocks, answer, same, rest) refl
