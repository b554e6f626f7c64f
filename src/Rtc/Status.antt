-- ===== src/Rtc/Status.antt =====
-- The status register of the S-3511A, and the reset of the clock.
pub mod Laws
use nileswan.Base.{
  ℕ, ◌+◌, ◌*◌, ◌/◌, ◌%◌, ◌^◌, Bool, true, false, ◌&&◌, ◌||◌, not, and_field, join, test_bit, flag,
  ◌==◌, ◌!=◌, if◌then◌else◌,
}
use nileswan.Rtc.State.{
  ClockSource, no_clock, lse, lsi, Registers, Rtc, Board, set_regs, write_start, write_end,
  init_start, init_end, is_configured, reset_backup_domain,
}
use nileswan.Rtc.Hour.{convert}
use nileswan.Rtc.Alarm.{apply_alarm_mode}

-- `value & (S3511A_INTAE | S3511A_INTFE | S3511A_INTME)`
abbrev pub alarm_bits : ℕ → ℕ
alarm_bits value = join (join (and_field value 5 1) (and_field value 3 1)) (and_field value 1 1)

bool_eq : Bool → Bool → Bool
bool_eq true b = b
bool_eq false b = not b

-- `rtc_reset`. The second reset of the backup domain, on the LSI branch, undoes the start of the
-- external oscillator.
unfoldable pub reset : Board → Rtc → Rtc
unfolding reset_backup_domain apply_alarm_mode
reset b r =
    let first = reset_backup_domain b r in
    let clocked =
      if b.lse_ready
      then set_regs (record first.regs { clock_source = lse }) first
      else (let second = reset_backup_domain b first in
          set_regs (record second.regs { clock_source = lsi }) second) in
    let started = init_start (write_start clocked) in
    let set =
      set_regs
        (record started.regs {
          fmt = true;
          alarm_enable = false;
          bypshad = true;
          lpcal = true;
          dr = 0x00e101;
          tr = 0x120000;
          prer = 0x7f00ff;
          bkp1 = 0;
        })
        started in
    write_end (init_end (apply_alarm_mode 0 set))

-- `init_required`: the format bit is the only bit of the low byte of RTC->CR that changes.
init_required : ℕ → Rtc → Bool
unfolding bool_eq
init_required value r = not (bool_eq r.regs.fmt (not (test_bit value 6)))

-- `rtc_write_status` up to the alarm mode: the new RTC->CR, and RTC->TR in the new format.
enter_status : ℕ → Rtc → Rtc
unfolding init_required
enter_status value r =
    let new = not (test_bit value 6) in
    set_regs (record r.regs { fmt = new; tr = convert r.regs.fmt new r.regs.tr })
      (record r { write_protected = false; init_mode = init_required value r || r.init_mode })

-- `rtc_write_status`
unfoldable pub write_status : ℕ → Rtc → Rtc
unfolding enter_status apply_alarm_mode
write_status value r =
    let set = enter_status value r in
    let moded =
      if r.regs.bkp0 != alarm_bits value then apply_alarm_mode (alarm_bits value) set else set in
    write_end
      (record moded { init_mode = if init_required value r then false else moded.init_mode })

-- `rtc_read_status`: the byte, and the state after a reset if the clock had none.
unfoldable pub read_status : Board → Rtc → ℕ × Rtc
read_status b r =
    let r1 = if is_configured r then r else reset b r in
    (
      join (join (flag (not (is_configured r)) 0x80) (if r1.regs.fmt then 0 else 0x40))
          (alarm_bits r1.regs.bkp0),
      r1,
    )
