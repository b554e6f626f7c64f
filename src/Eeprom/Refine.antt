-- ===== src/Eeprom/Refine.antt =====
-- `eeprom_exch_word` of eeprom.c against the chip of `Eeprom.Device`.
pub mod Act
pub mod State
use nileswan.Base.{
  ℕ, zero, suc, ◌+◌, ◌-◌, ◌/◌, ◌%◌, ◌^◌, ◌≤◌, ◌<◌, ◌≡◌, refl, sym, ◌∙◌, ap, ap₂, ◌≢◌, inl, inr,
  Bool, true, false, not, ◌&&◌, ◌||◌, List, [], ◌∷◌, Option, none, some, arith, leb, ltb, ◌==◌,
  ◌!=◌, if◌then◌else◌, Bool-cases, length, get_or, set, length-set, get_or-set, bit_and, &&-split,
  ◌>>>◌,
}
use nileswan.Eeprom.{Eeprom, set_type, geometry, opcode, finish_write, exch_word, exchange}
use nileswan.Eeprom.Device
use nileswan.Eeprom.Device.{
  Device, Target, one, all, Instruction, disable, enable, erase_all, write_all, ignore, write, read,
  erase,
}
use nileswan.Eeprom.Refine.Act.{opcode_lem, of_opcode, act, dispatch-act, decode-of_opcode}
use nileswan.Eeprom.Refine.State.{
  pending_of, Represents, reply-act, act-Represents, finish_write-Represents,
}

-- One word: the firmware and the chip answer the same and stay in step.
pub record Agree (k shift : ℕ) (p : ℕ × Eeprom) (q : ℕ × Device) : Type 0 where
  pub reply : p.0 ≡ q.0
  pub state : Represents k shift p.1 q.1

set_busy-Represents :
    {k shift : ℕ} {e : Eeprom} {d : Device}
    → Represents k shift e d
    → Represents k shift (record e { busy = true }) d
set_busy-Represents r = record {
  mask = r.mask;
  bits = r.bits;
  room = r.room;
  cells = r.cells;
  enabled = r.enabled;
  pending = r.pending;
}

pending-cases : (k shift x : ℕ) → x ≢ 0 → (t : Target) × (pending_of k shift x ≡ some t)
pending-cases k shift x ne = elim (Bool-cases (x / 2 ^ shift % 32 == 0x11)) [
  | inl yes_all ↦ (all, ground arith)
  | inr no_all ↦ (one (x % 2 ^ k), ground arith)
]

exch_word-act :
    (full : Bool) (w shift a : ℕ) (e : Eeprom)
    → e.command_bits ≡ shift
    → e.write_command ≡ 0
    → exch_word full w e ≡ act full (of_opcode (w / 2 ^ shift % 32) a) w (record e { busy = true })
unfolding exch_word
exch_word-act full w shift a e b z =
    let test : (e.write_command != 0) ≡ false = ground arith in
    let c : opcode w e.command_bits ≡ w / 2 ^ shift % 32 =
      opcode_lem w e.command_bits ∙ ap (λ n. w / 2 ^ n % 32) b in
    rw (test, c) (dispatch-act full (w / 2 ^ shift % 32) a w _ (omega arith))

exch_word-finish :
    (full : Bool) (w : ℕ) (e : Eeprom)
    → e.write_command ≢ 0
    → exch_word full w e ≡ (0xffff, finish_write full w (record e { busy = true }))
unfolding exch_word
exch_word-finish full w e ne = let test : (e.write_command != 0) ≡ true = ground arith in rw test

step_instruction :
    (full : Bool) (k shift w : ℕ) (d : Device)
    → d.pending ≡ none
    → Device.step full k shift w d
      ≡ Device.perform full (of_opcode (w / 2 ^ shift % 32) (w % 2 ^ k)) d
unfolding Device.step Device.complete
step_instruction full k shift w d p =
    ap (λ o. Device.complete full o (Device.decode k shift w) w d) p
    ∙ ap (λ i. Device.perform full i d) (decode-of_opcode k shift w)

step_waiting :
    (full : Bool) (k shift w : ℕ) (t : Target) (d : Device)
    → d.pending ≡ some t
    → Device.step full k shift w d
      ≡ (0xffff, record (if not full || d.enabled then Device.put t w d else d) { pending = none })
unfolding Device.step Device.complete Device.permitted
step_waiting full k shift w t d p = ap (λ o. Device.complete full o (Device.decode k shift w) w d) p

idle :
    {k shift : ℕ} {e : Eeprom} {d : Device}
    → Represents k shift e d
    → e.write_command ≡ 0
    → d.pending ≡ none
idle {k} {shift} {e} r z = sym r.pending ∙ rw z

heeds-instruction :
    (full : Bool) (k shift w : ℕ) (d : Device)
    → d.pending ≡ none
    → Device.word_heeds full d.pending (Device.decode k shift w) d ≡ true
    → Device.heeds_lock full (of_opcode (w / 2 ^ shift % 32) (w % 2 ^ k)) d ≡ true
unfolding Device.word_heeds
heeds-instruction full k shift w d p ok =
    ap (λ i. Device.heeds_lock full i d) (sym (decode-of_opcode k shift w))
    ∙ ap (λ o. Device.word_heeds full o (Device.decode k shift w) d) (sym p)
    ∙ ok

module _ (full : Bool) (k shift w : ℕ) {e : Eeprom} {d : Device} where
  -- A word that arrives while a write waits.
  exch_word-waiting :
      (t : Target)
      → Represents k shift e d
      → e.write_command ≢ 0
      → d.pending ≡ some t
      → Agree k shift (exch_word full w e) (Device.step full k shift w d)
  exch_word-waiting t r ne p =
      rw (exch_word-finish full w e ne, step_waiting full k shift w t d p)
        (record {
          reply = refl;
          state = finish_write-Represents k shift (set_busy-Represents r) full w t ne p;
        })

  -- A word that arrives as an instruction.
  exch_word-instruction :
      Represents k shift e d
      → e.write_command ≡ 0
      → Device.heeds_lock full (of_opcode (w / 2 ^ shift % 32) (w % 2 ^ k)) d ≡ true
      → Agree k shift (exch_word full w e) (Device.step full k shift w d)
  exch_word-instruction r z ok =
      let i = of_opcode (w / 2 ^ shift % 32) (w % 2 ^ k) in
      rw
        (
          exch_word-act full w shift (w % 2 ^ k) e r.bits z,
          step_instruction full k shift w d (idle r z),
        )
        (record {
          reply = reply-act k shift (set_busy-Represents r) full w i refl;
          state = act-Represents k shift (set_busy-Represents r) full w i z refl ok;
        })

  -- One word of a session.
  pub exch_word_refines :
      Represents k shift e d
      → Device.word_heeds full d.pending (Device.decode k shift w) d ≡ true
      → Agree k shift (exch_word full w e) (Device.step full k shift w d)
  exch_word_refines r ok = elim (Bool-cases (e.write_command == 0)) [
    | inl z ↦
        let none_left : e.write_command ≡ 0 = ground arith in
        exch_word-instruction r none_left (heeds-instruction full k shift w d (idle r none_left) ok)
    | inr nz ↦
        let ne : e.write_command ≢ 0 = ground arith in
        let (t, p) = pending-cases k shift e.write_command ne in
        exch_word-waiting t r ne (sym r.pending ∙ p)
  ]

-- From a state that stands for the chip's, every session of words gets the replies of the chip,
-- and ends in a state that stands for the chip's again, provided that no erase-all arrives while the
-- chip is locked. Without full emulation it is never locked here.
pub exchange_refines :
    (full : Bool) (k shift : ℕ) (ws : List ℕ) {e : Eeprom} {d : Device}
    → Represents k shift e d
    → Device.run_heeds full k shift ws d ≡ true
    → ((exchange full ws e).0 ≡ (Device.run full k shift ws d).0)
      × Represents k shift (exchange full ws e).1 (Device.run full k shift ws d).1
unfolding exchange Device.run Device.run_heeds
exchange_refines full k shift [] r ok = (refl, r)
exchange_refines full k shift (w ∷ ws) {d = d} r ok =
    let (here, after) =
      &&-split (Device.word_heeds full d.pending (Device.decode k shift w) d) _ ok in
    let now = exch_word_refines full k shift w r here in
    let (outs, later) = exchange_refines full k shift ws now.state after in
    (ap₂ ◌∷◌ now.reply outs, later)

-- The state that `eeprom_set_type` sets up stands for the chip of that type, whatever the array
-- holds.
pub set_type-Represents :
    (full : Bool) (type k shift : ℕ) (e : Eeprom)
    → geometry type ≡ some (2 ^ k - 1, shift)
    → 2 ^ k ≤ length e.nvram.eeprom_data
    → let s = set_type full type e in
      Represents k shift s (record {
        cell = λ i. get_or e.nvram.eeprom_data i 0;
        enabled = s.write_enabled;
        pending = none;
      })
unfolding set_type
set_type-Represents full type k shift e g room = rw g (record {
  mask = refl;
  bits = refl;
  room = room;
  cells = λ i h. refl;
  enabled = refl;
  pending = refl;
})
