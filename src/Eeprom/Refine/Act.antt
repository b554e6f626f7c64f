-- ===== src/Eeprom/Refine/Act.antt =====
-- The branches of the `switch` of `eeprom_exch_word`, each named by the chip's instruction.
use nileswan.Base.{
  ℕ, suc, ◌/◌, ◌%◌, ◌^◌, ◌<◌, ◌≡◌, Bool, true, false, not, ◌||◌, arith, ltb, ◌==◌, if◌then◌else◌,
  length, get_or, length-set, bit_and,
}
use nileswan.Base.Bits.{bit_and_mask}
use nileswan.Eeprom.{Eeprom, opcode, fill_all, store, dispatch}
use nileswan.Eeprom.Bounds.{length-fill}
use nileswan.Eeprom.Device
use nileswan.Eeprom.Device.{
  Device, Target, one, all, Instruction, disable, enable, erase_all, write_all, ignore, write, read,
  erase,
}

pub opcode_lem : (x shift : ℕ) → opcode x shift ≡ x / 2 ^ shift % 32
unfolding opcode
opcode_lem x shift = bit_and_mask 5 (x / 2 ^ shift)

-- The instruction that an opcode byte of the `switch` stands for.
abbrev pub of_opcode : ℕ → ℕ → Instruction
of_opcode c a =
    if c == 0x10
    then disable
    else if c == 0x11
    then write_all
    else if c == 0x12
    then erase_all
    else if c == 0x13
    then enable
    else if ltb c 0x10
    then ignore
    else if ltb c 0x18
    then write a
    else if ltb c 0x1c
    then read a
    else erase a

classify-of_opcode :
    (x a : ℕ) → Device.classify (x / 16 % 2) (x / 4 % 4) (x % 4) a ≡ of_opcode (x % 32) a
unfolding Device.classify
classify-of_opcode x a = ground arith

pub decode-of_opcode :
    (k shift w : ℕ) → Device.decode k shift w ≡ of_opcode (w / 2 ^ shift % 32) (w % 2 ^ k)
unfolding Device.decode
decode-of_opcode k shift w = classify-of_opcode (w / 2 ^ shift) (w % 2 ^ k)

-- The branches of the `switch`, named by the instruction.
unfoldable pub act : Bool → Instruction → ℕ → Eeprom → ℕ × Eeprom
act full disable w e = (
  0xffff,
  if full then record e { busy = false; write_enabled = false } else record e { busy = false },
)
act full enable w e = (
  0xffff,
  if full then record e { busy = false; write_enabled = true } else record e { busy = false },
)
act full erase_all w e = (0xffff, fill_all 0xffff (record e { busy = false }))
act full write_all w e = (0xffff, record e { write_command = w })
act full (write a) w e = (0xffff, record e { write_command = w })
act full (read a) w e = (
  if full then get_or e.nvram.eeprom_data (bit_and w e.address_mask) 0 else 0xffff,
  record e { busy = false },
)
act full (erase a) w e = (
  0xffff,
  if not full || e.write_enabled
      then store w 0xffff (record e { busy = false })
      else record e { busy = false },
)
act full ignore w e = (0xffff, record e { busy = false })

pub dispatch-act :
    (full : Bool) (c a w : ℕ) (e : Eeprom)
    → c < 32
    → dispatch full c w e ≡ act full (of_opcode c a) w e
unfolding dispatch act
dispatch-act true c a w e h = ground arith
dispatch-act false c a w e h = ground arith

module _ (full : Bool) (w : ℕ) (e : Eeprom) where
  pub mask-act : (i : Instruction) → (act full i w e).1.address_mask ≡ e.address_mask
  unfolding act store fill_all
  mask-act disable = ground arith
  mask-act _ = ground arith

  pub bits-act : (i : Instruction) → (act full i w e).1.command_bits ≡ e.command_bits
  unfolding act store fill_all
  bits-act disable = ground arith
  bits-act _ = ground arith

  pub length-act :
      (i : Instruction) → length (act full i w e).1.nvram.eeprom_data ≡ length e.nvram.eeprom_data
  unfolding act store fill_all
  length-act (erase a) =
      ground (arith, length-set e.nvram.eeprom_data (bit_and w e.address_mask) 0xffff)
  length-act erase_all = length-fill (suc e.address_mask) 0 0xffff e.nvram.eeprom_data
  length-act disable = ground arith
  length-act _ = ground arith
