-- ===== src/Eeprom/Tests.antt =====
-- The EEPROM on concrete words.
use nileswan.Base.{
  ℕ, ◌-◌, ◌^◌, ◌≡◌, refl, true, false, List, [], ◌∷◌, none, some, arith, get_or, replicate,
}
use nileswan.Nvram.{nvram_magic}
use nileswan.Eeprom.{Eeprom, geometry, write_data, opcode, exchange}
use nileswan.Eeprom.Device
use nileswan.Eeprom.Device.{Device}
use nileswan.Eeprom.Bounds.{exchange_outside}
use nileswan.Eeprom.Refine.State.{Represents}
use nileswan.Eeprom.Refine.{exchange_refines}

abbrev pub blank : Eeprom
blank = record {
  nvram = record {
    magic = nvram_magic;
    save_id = 7;
    eeprom_data = replicate 1024 0x1234;
    eeprom_type = 1;
  };
  address_mask = 0xf;
  command_bits = 4;
  write_enabled = false;
  write_command = 0;
  busy = false;
}

-- The chip of type 1, M93LC06, of 16 words.
abbrev chip : Device
chip = record { cell = λ i. get_or (replicate 1024 0x1234) i 0; enabled = false; pending = none }

geometry_06 : geometry 1 ≡ some (2 ^ 4 - 1, 4)
unfolding geometry
geometry_06 = refl

blank-Represents : Represents 4 4 blank chip
blank-Represents = record {
  mask = refl;
  bits = refl;
  room = omega arith;
  cells = λ i h. refl;
  enabled = refl;
  pending = refl;
}

-- enable, write 0xbeef to word 3, read word 3
abbrev session : List ℕ
session = 0x130 ∷ 0x143 ∷ 0xbeef ∷ 0x183 ∷ []

session_replies : (exchange true session blank).0 ≡ 0xffff ∷ 0xffff ∷ 0xffff ∷ 0xbeef ∷ []
unfolding exchange opcode
session_replies = refl

session_heeds : Device.run_heeds true 4 4 session chip ≡ true
unfolding Device.run_heeds
session_heeds = refl

exchange_refines_example :
    ((exchange true session blank).0 ≡ (Device.run true 4 4 session chip).0)
    × Represents 4 4 (exchange true session blank).1 (Device.run true 4 4 session chip).1
exchange_refines_example = exchange_refines true 4 4 session blank-Represents session_heeds

exchange_outside_example :
    get_or (exchange true session blank).1.nvram.eeprom_data 16 0
    ≡ get_or blank.nvram.eeprom_data 16 0
exchange_outside_example = exchange_outside true session blank 16 (omega arith)

abbrev written : Eeprom
written = record blank {
  nvram = record blank.nvram { eeprom_data = 0x1234 ∷ 5 ∷ 6 ∷ replicate 1021 0x1234 };
}

write_two : write_data (5 ∷ 6 ∷ []) 1 blank ≡ some written
unfolding write_data
write_two = refl
