-- ===== src/Input.antt =====
-- The keys of the userland programs: software/userland/src/shared/input.c. `keys & mask` for the mask
-- of bit `k` is a test of that bit, and the scan of the key pad, of libws, is an argument.
pub mod Wait
pub mod Laws
mod Tests
use nileswan.Base.{ℕ, zero, suc, ◌+◌, ◌-◌, ◌*◌, ◌/◌, ◌%◌, ◌^◌, Bool, true, false, List, ◌&&◌, ◌!=◌}
use nileswan.Base.{
  bit_and, bit_or, not16, test_bit, set_bit, clear_field, get_or, set, ltb, u8, u16,
}
use nileswan.Base.{if◌then◌else◌, not, ◌<<<◌, ◌>>>◌, and_field, join}

pub record Input : Type 0 where
  pub vbl_ticks : ℕ
  pub input_keys : ℕ
  pub input_keys_repressed : ℕ
  pub input_keys_released : ℕ
  pub input_pressed : ℕ
  pub input_held : ℕ
  pub input_vbls_next : List ℕ

-- The bits of a Pocket Challenge V2, moved to where a WonderSwan has the same key
unfoldable pub remap_pcv2 : ℕ → ℕ
remap_pcv2 keys =
    (and_field keys 11 1 >>> 8)
    + (and_field keys 10 1 >>> 8)
    + (and_field keys 8 1 <<< 4)
    + (and_field keys 7 1 >>> 2)
    + (and_field keys 6 1 >>> 5)
    + (and_field keys 4 1 <<< 4)
    + (and_field keys 3 1 <<< 1)
    + (and_field keys 2 1 <<< 4)
    + (and_field keys 0 1 <<< 7)

unfoldable pub scan_keys : Bool → ℕ → ℕ
scan_keys is_pcv2 scan = if (scan != 0) && is_pcv2 then remap_pcv2 scan else scan

unfoldable pub vblank_input_update : Bool → ℕ → Input → Input
vblank_input_update is_pcv2 scan s =
    let keys = scan_keys is_pcv2 scan in
    record s {
      input_keys = bit_or s.input_keys keys;
      input_keys_repressed = bit_or s.input_keys_repressed (bit_and keys s.input_keys_released);
      input_keys_released = bit_or s.input_keys_released (bit_and s.input_held (not16 keys));
    }

unfoldable pub vblank_int_handler : Bool → ℕ → Input → Input
unfolding vblank_input_update
vblank_int_handler is_pcv2 scan s =
    vblank_input_update is_pcv2 scan (record s { vbl_ticks = u16 (s.vbl_ticks + 1) })

abbrev pub input_reset : Input → Input
input_reset s = record s { input_keys = 0; input_keys_repressed = 0; input_keys_released = 0 }

abbrev pub joy_repeat_delay : ℕ
joy_repeat_delay = 18

abbrev pub joy_repeat_delay_next : ℕ
joy_repeat_delay_next = 5

-- The keys that the loop looks at: bits 1 to 11
abbrev pub key_count : ℕ
key_count = 11

-- Key `i` is reported, and is next reported after so many ticks.
abbrev pub report_key : ℕ → ℕ → Input → Input
report_key i delay s = record s {
  input_pressed = set_bit s.input_pressed (i + 1);
  input_vbls_next = set s.input_vbls_next i (u8 (s.vbl_ticks + delay));
}

-- The label `KeyRepressed`
abbrev pub key_repressed : ℕ → Input → Input
key_repressed i s =
    report_key i joy_repeat_delay (record s { input_held = set_bit s.input_held (i + 1) })

abbrev pub release_key : ℕ → Input → Input
release_key i s = record s { input_held = clear_field s.input_held (i + 1) 1 }

-- `((uint8_t) (input_vbls_next[i] - vbl_ticks)) < 0x80`
unfoldable pub not_due : ℕ → Input → Bool
not_due i s = ltb (u8 (get_or s.input_vbls_next i 0 + 2 ^ 16 - s.vbl_ticks)) 128

-- A key that was held already, with whether the loop goes on to the next key
unfoldable pub held_key : ℕ → Bool → Input → Input × Bool
unfolding not_due
held_key i released s =
    let s' = if released then release_key i s else s in
    if not_due i s'
    then (s', true)
    else (if released then s' else report_key i joy_repeat_delay_next s', false)

-- The body of the loop for key `i`, whose bit is `i + 1`
unfoldable pub check_key : ℕ → Input → Input × Bool
unfolding held_key
check_key i s =
    let k = i + 1 in
    let released = test_bit s.input_keys_released k in
    if test_bit s.input_keys k
    then if test_bit s.input_keys_repressed k
      then (key_repressed i s, false)
      else if test_bit s.input_held k
      then held_key i released s
      else (if released then s else key_repressed i s, false)
    else (release_key i s, true)

-- The loop, from key `i` on, with the number of keys that are left
unfoldable pub check_keys : ℕ → ℕ → Input → Input
unfolding check_key
check_keys zero i s = s
check_keys (suc n) i s =
    let (s', more) = check_key i s in
    let rest = check_keys n (i + 1) s' in if more then rest else s'

-- The update between two interrupts
unfoldable pub input_update : Input → Input
unfolding check_keys
input_update s = input_reset (check_keys key_count 0 (record s { input_pressed = 0 }))
