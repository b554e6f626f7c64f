-- ===== src/Eeprom/Refine/State.antt =====
-- What it means that the state of eeprom.c stands for the chip's, branch by branch.
use nileswan.Base.{
  ℕ, suc, ◌-◌, ◌/◌, ◌%◌, ◌^◌, ◌≤◌, ◌<◌, ◌≡◌, refl, ◌∙◌, ◌≢◌, Bool, true, not, ◌||◌, Option, none,
  some, arith, ◌==◌, if◌then◌else◌, length, get_or, length-set, get_or-set, bit_and,
}
use native.Mathlib.Nat.{mod-lt, one-le-pow}
use nileswan.Base.Bits.{bit_and_mask}
use nileswan.Eeprom.{Eeprom, fill_all, store, finish_write}
use nileswan.Eeprom.Bounds.{length-fill, get_or-fill}
use nileswan.Eeprom.Device
use nileswan.Eeprom.Device.{
  Device, Target, one, all, Instruction, disable, enable, erase_all, write_all, ignore, write, read,
  erase,
}
use nileswan.Eeprom.Refine.Act.{opcode_lem, of_opcode, act, mask-act, bits-act, length-act}

-- The target of the write command that the firmware remembers.
abbrev pub pending_of : ℕ → ℕ → ℕ → Option Target
pending_of k shift x =
    if x == 0 then none else if x / 2 ^ shift % 32 == 0x11 then some all else some (one (x % 2 ^ k))

-- The firmware's state stands for a device of `2 ^ k` words.
pub record Represents (k shift : ℕ) (e : Eeprom) (d : Device) : Type 0 where
  pub mask : e.address_mask ≡ 2 ^ k - 1
  pub bits : e.command_bits ≡ shift
  pub room : 2 ^ k ≤ length e.nvram.eeprom_data
  pub cells : (i : ℕ) → i < 2 ^ k → get_or e.nvram.eeprom_data i 0 ≡ d.cell i
  pub enabled : e.write_enabled ≡ d.enabled
  pub pending : pending_of k shift e.write_command ≡ d.pending

mod-lt-pow : (w k : ℕ) → w % 2 ^ k < 2 ^ k
mod-lt-pow w k = mod-lt w (one-le-pow k 2 (omega arith))

module _ (k shift : ℕ) {e : Eeprom} {d : Device} (r : Represents k shift e d) where
  masked : (x : ℕ) → bit_and x e.address_mask ≡ x % 2 ^ k
  masked x = rw r.mask (bit_and_mask k x)

  -- Storing through the mask is writing one cell.
  store_cells :
      (x w i : ℕ)
      → i < 2 ^ k
      → get_or (store x w e).nvram.eeprom_data i 0 ≡ (Device.put (one (x % 2 ^ k)) w d).cell i
  unfolding store Device.put
  store_cells x w i h = ground (
    arith,
    masked x,
    r.room,
    r.cells i,
    get_or-set e.nvram.eeprom_data (bit_and x e.address_mask) i w 0,
  )

  -- The loop over the mask is writing every cell.
  fill_all_cells :
      (w i : ℕ)
      → i < 2 ^ k
      → get_or (fill_all w e).nvram.eeprom_data i 0 ≡ (Device.put all w d).cell i
  unfolding fill_all Device.put
  fill_all_cells w i h =
      ground (arith, r.mask, r.room, get_or-fill (suc e.address_mask) 0 w e.nvram.eeprom_data i)

  module _ (full : Bool) (w : ℕ) where
    zero-shift : w ≡ 0 → w / 2 ^ shift % 32 ≡ 0
    zero-shift h = rw h (omega arith)

    pending-write :
        (a : ℕ)
        → of_opcode (w / 2 ^ shift % 32) (w % 2 ^ k) ≡ write a
        → pending_of k shift w ≡ some (one a)
    pending-write a h = ground (arith, zero-shift)

    pending-write_all :
        of_opcode (w / 2 ^ shift % 32) (w % 2 ^ k) ≡ write_all → pending_of k shift w ≡ some all
    pending-write_all h = ground (arith, zero-shift)

    pub reply-act :
        (i : Instruction)
        → of_opcode (w / 2 ^ shift % 32) (w % 2 ^ k) ≡ i
        → (act full i w e).0 ≡ (Device.perform full i d).0
    unfolding act Device.perform
    reply-act (read a) h = ground (arith, masked w, r.cells (w % 2 ^ k), mod-lt-pow w k)
    reply-act disable h = refl
    reply-act _ h = refl

    enabled-act :
        (i : Instruction) → (act full i w e).1.write_enabled ≡ (Device.perform full i d).1.enabled
    unfolding act Device.perform store fill_all
    enabled-act disable = ground (arith, r.enabled)
    enabled-act _ = ground (arith, r.enabled)

    pending-act :
        (i : Instruction)
        → e.write_command ≡ 0
        → of_opcode (w / 2 ^ shift % 32) (w % 2 ^ k) ≡ i
        → pending_of k shift (act full i w e).1.write_command ≡ (Device.perform full i d).1.pending
    unfolding act Device.perform store fill_all
    pending-act (write a) z h = pending-write a h
    pending-act write_all z h = pending-write_all h
    pending-act disable z h = ground (arith, r.pending)
    pending-act _ z h = ground (arith, r.pending)

    cells-act :
        (i : Instruction) (j : ℕ)
        → j < 2 ^ k
        → of_opcode (w / 2 ^ shift % 32) (w % 2 ^ k) ≡ i
        → Device.heeds_lock full i d ≡ true
        → get_or (act full i w e).1.nvram.eeprom_data j 0 ≡ (Device.perform full i d).1.cell j
    unfolding act Device.perform Device.heeds_lock store fill_all
    cells-act (erase a) j b h ok = ground (arith, r.cells j b, r.enabled, store_cells w 0xffff j b)
    cells-act erase_all j b h ok = rw ok (fill_all_cells 0xffff j b)
    cells-act disable j b h ok = ground (arith, r.cells j b)
    cells-act _ j b h ok = ground (arith, r.cells j b)

    pub act-Represents :
        (i : Instruction)
        → e.write_command ≡ 0
        → of_opcode (w / 2 ^ shift % 32) (w % 2 ^ k) ≡ i
        → Device.heeds_lock full i d ≡ true
        → Represents k shift (act full i w e).1 (Device.perform full i d).1
    act-Represents i z h ok = record {
      mask = mask-act full w e i ∙ r.mask;
      bits = bits-act full w e i ∙ r.bits;
      room = rw (length-act full w e i) r.room;
      cells = λ j b. cells-act i j b h ok;
      enabled = enabled-act i;
      pending = pending-act i z h;
    }

    -- The data word of a pending write.
    pub finish_write-Represents :
        (t : Target)
        → e.write_command ≢ 0
        → d.pending ≡ some t
        → Represents k shift
            (finish_write full w e)
            (record (if not full || d.enabled then Device.put t w d else d) { pending = none })
    unfolding finish_write Device.put
    finish_write-Represents t ne p = record {
      mask = ground (arith, r.mask);
      bits = ground (arith, r.bits);
      room = ground (
        arith,
        r.room,
        length-fill (suc e.address_mask) 0 w e.nvram.eeprom_data,
        length-set e.nvram.eeprom_data (bit_and e.write_command e.address_mask) w,
      );
      cells = λ j b. ground (
        arith,
        r.bits,
        r.enabled,
        r.pending,
        r.cells j b,
        opcode_lem e.write_command e.command_bits,
        store_cells e.write_command w j b,
        fill_all_cells w j b,
      );
      enabled = ground (arith, r.enabled);
      pending = refl;
    }
