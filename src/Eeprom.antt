-- ===== src/Eeprom.antt =====
-- firmware/src/eeprom.c and nvram.c: the emulated M93LCx6 EEPROM behind the cartridge's port.
-- `full` is the build option CONFIG_FULL_EEPROM_EMULATION, which config.h leaves off.
pub mod Device
pub mod Bounds
pub mod Refine
pub mod Transfer
pub mod Tests
use nileswan.Base.{
  ℕ, zero, suc, ◌+◌, ◌*◌, ◌/◌, ◌%◌, ◌^◌, Bool, true, false, ◌&&◌, ◌||◌, not, List, [], ◌∷◌, Option,
  none, some, bit_and, u8, u16, ◌>>>◌, ◌==◌, ◌!=◌, leb, if◌then◌else◌, length, get_or, set, take,
  drop, splice, replicate,
}
use nileswan.Nvram.{Nvram, nvram_magic, save_id_none, eeprom_words}

-- The module's statics, with the NVRAM that they index and the BUSY line to the FPGA.
pub record Eeprom : Type 0 where
  pub nvram : Nvram
  pub address_mask : ℕ
  pub command_bits : ℕ
  pub write_enabled : Bool
  pub write_command : ℕ
  pub busy : Bool

-- What the `switch` of `eeprom_set_type` stores; `none` is a type that it does not list.
unfoldable pub geometry : ℕ → Option (ℕ × ℕ)
geometry type =
    if type == 0
    then some (0, 0)
    else if type == 1
    then some (0xf, 4)
    else if type == 2
    then some (0x3f, 4)
    else if type == 3
    then some (0x7f, 6)
    else if type == 4
    then some (0xff, 6)
    else if type == 5
    then some (0x1ff, 8)
    else if type == 6
    then some (0x3ff, 8)
    else none

apply_geometry : Option (ℕ × ℕ) → Eeprom → Eeprom
apply_geometry none e = e
apply_geometry (some (mask, shift)) e = record e { address_mask = mask; command_bits = shift }

module _ (full : Bool) where
  -- The statements of `eeprom_set_type` above its `switch`. The type is stored in a byte.
  retype : ℕ → Eeprom → Eeprom
  retype type e = record e {
    nvram = record e.nvram { eeprom_type = u8 type };
    write_command = 0;
    write_enabled = if full then false else e.write_enabled;
  }

  -- `eeprom_set_type`; the `switch` reads the type before it is cut to a byte.
  unfoldable pub set_type : ℕ → Eeprom → Eeprom
  unfolding retype apply_geometry
  set_type type e = apply_geometry (geometry type) (retype type e)

  -- `nvram_init`
  unfoldable pub nvram_init : Eeprom → Eeprom
  nvram_init e =
      let n =
        if e.nvram.magic != nvram_magic
        then record e.nvram { magic = nvram_magic; save_id = save_id_none; eeprom_type = 0 }
        else e.nvram in
      set_type n.eeprom_type (record e { nvram = n })

-- `eeprom_get_type`
unfoldable pub get_type : Eeprom → ℕ
get_type e = e.nvram.eeprom_type

put_data : List ℕ → Eeprom → Eeprom
put_data d e = record e { nvram = record e.nvram { eeprom_data = d } }

-- `eeprom_erase`: every byte of the array becomes 0xFF.
unfoldable pub erase : Eeprom → Eeprom
unfolding put_data
erase e = put_data (replicate (length e.nvram.eeprom_data) 0xffff) e

-- `eeprom_read_data`. `none` is a copy that leaves the array, which C leaves undefined.
unfoldable pub read_data : ℕ → ℕ → Eeprom → Option (List ℕ)
read_data address count e =
    if leb (address + count) (length e.nvram.eeprom_data)
    then some (take count (drop address e.nvram.eeprom_data))
    else none

-- `eeprom_write_data`, of the words of `source`
unfoldable pub write_data : List ℕ → ℕ → Eeprom → Option Eeprom
unfolding put_data
write_data source address e =
    if leb (address + length source) (length e.nvram.eeprom_data)
    then some (put_data (splice e.nvram.eeprom_data address source) e)
    else none

-- `for (int i = 0; i <= address_mask; i++) eeprom_data[i] = w`, at index `i`, rounds left first
unfoldable pub fill : ℕ → ℕ → ℕ → List ℕ → List ℕ
fill zero i w d = d
fill (suc left) i w d = fill left (i + 1) w (set d i w)

-- `(x >> command_bits) & 0x1F`, stored in a byte
unfoldable pub opcode : ℕ → ℕ → ℕ
opcode x shift = bit_and (x >>> shift) 0x1f

pub fill_all : ℕ → Eeprom → Eeprom
unfolding put_data
fill_all w e = put_data (fill (suc e.address_mask) 0 w e.nvram.eeprom_data) e

pub store : ℕ → ℕ → Eeprom → Eeprom
unfolding put_data
store x w e = put_data (set e.nvram.eeprom_data (bit_and x e.address_mask) w) e

module _ (full : Bool) where
  -- The first half of `eeprom_exch_word`: a write command waits for its word `w`.
  pub finish_write : ℕ → Eeprom → Eeprom
  unfolding fill_all store
  finish_write w e =
      let done =
        if not full || e.write_enabled
        then (if opcode e.write_command e.command_bits == 0x11
            then fill_all w e
            else store e.write_command w e)
        else e in
      record done { write_command = 0; busy = false }

  -- The `switch (cmd)`: the word to send back and the new state. The index read is inside the
  -- array, so the default of `get_or` is never used.
  pub dispatch : ℕ → ℕ → Eeprom → ℕ × Eeprom
  unfolding fill_all store
  dispatch cmd w e =
      let ready = record e { busy = false } in
      if full && cmd == 0x10
      then (0xffff, record ready { write_enabled = false })
      else if cmd == 0x12
      then (0xffff, fill_all 0xffff ready)
      else if full && cmd == 0x13
      then (0xffff, record ready { write_enabled = true })
      else if cmd == 0x11 || (leb 0x14 cmd && leb cmd 0x17)
      then (0xffff, record e { write_command = w })
      else if full && (leb 0x18 cmd && leb cmd 0x1b)
      then (get_or e.nvram.eeprom_data (bit_and w e.address_mask) 0, ready)
      else if leb 0x1c cmd && leb cmd 0x1f
      then (0xffff, if not full || e.write_enabled then store w 0xffff ready else ready)
      else (0xffff, ready)

  -- `eeprom_exch_word`
  unfoldable pub exch_word : ℕ → Eeprom → ℕ × Eeprom
  unfolding finish_write dispatch
  exch_word w e =
      let started = record e { busy = true } in
      if e.write_command != 0
      then (0xffff, finish_write w started)
      else dispatch (opcode w e.command_bits) w started

  -- A session: the words that the console sends, with what the MCU sends back.
  unfoldable pub exchange : List ℕ → Eeprom → List ℕ × Eeprom
  unfolding exch_word
  exchange [] e = ([], e)
  exchange (w ∷ ws) e =
      let (out, e1) = exch_word w e in let (outs, e2) = exchange ws e1 in (out ∷ outs, e2)
