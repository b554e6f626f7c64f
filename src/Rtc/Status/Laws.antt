-- ===== src/Rtc/Status/Laws.antt =====
-- The status register of rtc.c: writes, reads and the reset.
use nileswan.Base.{
  ℕ, ◌+◌, ◌≡◌, ◌∙◌, ap, ap₂, Bool, true, false, not, arith, and_field, test_bit, ◌!=◌,
  if◌then◌else◌, Bool-cases, inl, inr,
}
use nileswan.Rtc.State.{no_clock, lse, lsi, Rtc, Board, is_configured}
use nileswan.Rtc.Hour.{convert}
use nileswan.Rtc.Alarm.{apply_alarm_mode}
use nileswan.Rtc.Status.{alarm_bits, enter_status, reset, write_status, read_status}

-- The registers that `rtc_apply_alarm_mode` leaves alone, and the mode that it stores.
pub apply_alarm_mode-regs :
    (mode : ℕ) (r : Rtc)
    → let s = apply_alarm_mode mode r in
      (s.regs.bkp0 ≡ mode)
      × (s.regs.fmt ≡ r.regs.fmt)
      × (s.regs.tr ≡ r.regs.tr)
      × (s.regs.dr ≡ r.regs.dr)
      × (s.regs.bkp1 ≡ r.regs.bkp1)
      × (s.regs.bkp8 ≡ r.regs.bkp8)
      × (s.regs.clock_source ≡ r.regs.clock_source)
      × (s.write_protected ≡ r.write_protected)
      × (s.init_mode ≡ r.init_mode)
      × (s.curr_cmd ≡ r.curr_cmd)
      × (s.regs.alarm_enable ≡ (mode != 0))
unfolding apply_alarm_mode
apply_alarm_mode-regs mode r = ground arith

-- Out of the initialisation mode, a write of the status sets the format and the alarm mode,
-- converts the time to the new format, keeps the date, the alarm value, the save ID and the
-- clock source, and leaves the registers protected and out of that mode.
pub write_status_lem :
    (value : ℕ) (r : Rtc)
    → r.init_mode ≡ false
    → let s = write_status value r in
      (s.regs.fmt ≡ not (test_bit value 6))
      × (s.regs.bkp0 ≡ alarm_bits value)
      × (s.regs.tr ≡ convert r.regs.fmt (not (test_bit value 6)) r.regs.tr)
      × (s.regs.dr ≡ r.regs.dr)
      × (s.regs.bkp1 ≡ r.regs.bkp1)
      × (s.regs.bkp8 ≡ r.regs.bkp8)
      × (s.regs.clock_source ≡ r.regs.clock_source)
      × (s.write_protected ≡ true)
      × (s.init_mode ≡ false)
unfolding write_status
write_status_lem value r i = elim (Bool-cases (r.regs.bkp0 != alarm_bits value)) [
  | inl changed ↦
      rw changed (ground (arith, apply_alarm_mode-regs (alarm_bits value) (enter_status value r)))
  | inr same ↦ rw same (ground (arith, i))
]

pub write_status-curr_cmd : (value : ℕ) (r : Rtc) → (write_status value r).curr_cmd ≡ r.curr_cmd
unfolding write_status
write_status-curr_cmd value r = elim (Bool-cases (r.regs.bkp0 != alarm_bits value)) [
  | inl changed ↦
      rw changed (ground (arith, apply_alarm_mode-regs (alarm_bits value) (enter_status value r)))
  | inr same ↦ rw same (ground arith)
]

-- The reset of the clock: a source is chosen by whether the external oscillator starts, the
-- format is 12 hours, the time noon without the PM flag (midnight), the alarm is off, and of the
-- backup domain only the save ID survives.
pub reset_lem :
    (b : Board) (r : Rtc)
    → let s = reset b r in
      (s.regs.clock_source ≡ (if b.lse_ready then lse else lsi))
      × (is_configured s ≡ true)
      × (s.regs.fmt ≡ true)
      × (s.regs.tr ≡ 0x120000)
      × (s.regs.bkp0 ≡ 0)
      × (s.regs.bkp1 ≡ 0)
      × (s.regs.alarm_enable ≡ false)
      × (s.regs.bkp8 ≡ r.regs.bkp8)
      × (s.write_protected ≡ true)
      × (s.init_mode ≡ false)
unfolding reset is_configured
reset_lem b r = elim (Bool-cases b.lse_ready) [
  | inl on ↦ rw on (ground arith)
  | inr off ↦ rw off (ground arith)
]

is_configured-source :
    (r s : Rtc) → r.regs.clock_source ≡ s.regs.clock_source → is_configured r ≡ is_configured s
unfolding is_configured
is_configured-source r s e = ap (λ c. elim c as (λ _. Bool) [ no_clock ↦ false | _ ↦ true ]) e

pub read_status_configured :
    (b : Board) (r : Rtc)
    → is_configured r ≡ true
    → read_status b r ≡ ((if r.regs.fmt then 0 else 0x40) + alarm_bits r.regs.bkp0, r)
unfolding read_status
read_status_configured b r c = rw c (ground arith)

pub read_status_unset :
    (b : Board) (r : Rtc)
    → is_configured r ≡ false
    → read_status b r ≡ (
      0x80 + (if (reset b r).regs.fmt then 0 else 0x40) + alarm_bits (reset b r).regs.bkp0,
      reset b r,
    )
unfolding read_status
read_status_unset b r c = rw c

status_byte :
    (value : ℕ)
    → (if not (test_bit value 6) then 0 else 0x40) + alarm_bits (alarm_bits value)
      ≡ and_field value 6 1 + alarm_bits value
status_byte value = ground arith

-- On a clock that has a source and is out of the initialisation mode, a status read gives back
-- what a status write stored: the format bit and the three alarm bits, with no loss of power;
-- the read changes nothing.
pub read_status-write_status :
    (b : Board) (value : ℕ) (r : Rtc)
    → r.init_mode ≡ false
    → is_configured r ≡ true
    → read_status b (write_status value r)
      ≡ (and_field value 6 1 + alarm_bits value, write_status value r)
read_status-write_status b value r i c =
    let s = write_status value r in
    let w = write_status_lem value r i in
    read_status_configured b s (is_configured-source s r w.6 ∙ c)
    ∙ ap₂ (λ f m. ((if f then 0 else 0x40) + alarm_bits m, s)) w.0 w.1
    ∙ ap (λ n. (n, s)) (status_byte value)

-- A status read of a clock that has no source resets it and reports the loss of power once: the
-- next read reports none, and finds 12-hour format and no alarm.
pub read_status_power_lost :
    (b : Board) (r : Rtc)
    → is_configured r ≡ false
    → (read_status b r ≡ (0x80, reset b r)) × (read_status b (reset b r) ≡ (0, reset b r))
read_status_power_lost b r c =
    let z = reset_lem b r in
    (
      read_status_unset b r c
          ∙ ap₂ (λ f m. (0x80 + (if f then 0 else 0x40) + alarm_bits m, reset b r)) z.2 z.4,
      read_status_configured b (reset b r) z.1
          ∙ ap₂ (λ f m. ((if f then 0 else 0x40) + alarm_bits m, reset b r)) z.2 z.4,
    )
