-- ===== src/Rtc/Calendar.antt =====
-- Date and time: the bytes of the S-3511A and the registers of the MCU.
pub mod Correct
pub mod Laws
pub mod RoundTrip
use nileswan.Base.{
  ℕ, zero, suc, ◌+◌, ◌-◌, ◌*◌, ◌/◌, ◌%◌, ◌^◌, Bool, true, false, ◌&&◌, ◌||◌, not, List, [], ◌∷◌,
  Option, none, some, bit_and, bit_or, u8, ◌<<<◌, ◌>>>◌, low_bits, and_field, join, ◌==◌, ◌!=◌, ltb,
  leb, if◌then◌else◌,
}
use nileswan.Rtc.State.{Rtc, set_regs, write_start, write_end, init_start, init_end}
use nileswan.Rtc.Hour.{hour_mcu_to_rtc}
use nileswan.Rtc.Alarm.{tamp_irq_handler}

-- The bytes of a date and of a time, in the order of the buffer.
pub record Date : Type 0 where
  pub year : ℕ
  pub month : ℕ
  pub day : ℕ
  pub weekday : ℕ

pub record Time : Type 0 where
  pub hour : ℕ
  pub minute : ℕ
  pub second : ℕ

-- `rtc_range_correct`; `v & ~mask` is `v - (v & mask)`.
unfoldable pub range_correct : ℕ → ℕ → ℕ → ℕ → ℕ
range_correct v min max mask =
    if ltb max (bit_and v mask)
      || (min != 0 && ltb (bit_and v mask) min)
      || (leb 0xf mask && ltb 0x9 (bit_and v 0xf))
    then u8 (bit_or (v - bit_and v mask) min)
    else v

pub correct_date : Date → Date
unfolding range_correct
correct_date d = record {
  year = range_correct d.year 0x00 0x99 0xff;
  month = range_correct d.month 0x01 0x12 0x1f;
  day = range_correct d.day 0x01 0x31 0x3f;
  weekday = range_correct d.weekday 0x00 0x06 0x07;
}

-- The hour, by the format; the PM flag is bit 7 of the byte.
correct_hour : Bool → ℕ → ℕ
unfolding range_correct
correct_hour fmt h =
    if fmt
    then (if low_bits h 5 == 0 then bit_or h 0x12 else range_correct h 0x00 0x11 0x1f)
    else range_correct h 0x00 0x23 0x3f

pub correct_second : ℕ → ℕ
correct_second s =
    if (low_bits s 7 != 0x7f) && (leb 0x60 (low_bits s 7) || ltb 0x9 (low_bits s 4))
    then 0x59
    else s

pub correct_time : Bool → Time → Time
unfolding correct_hour correct_second range_correct
correct_time fmt t = record {
  hour = correct_hour fmt t.hour;
  minute = range_correct t.minute 0x00 0x59 0x7f;
  second = correct_second t.second;
}

-- The value put into RTC->DR; Sunday is 7 there.
pub pack_date : Date → ℕ
pack_date d =
    let dow = low_bits d.weekday 3 in
    join (join (join (d.year <<< 16) (low_bits d.month 5 <<< 8)) (low_bits d.day 6))
      ((if dow == 0 then 7 else dow) <<< 13)

-- The value put into RTC->TR.
pub pack_time : Time → ℕ
pack_time t =
    join
      (join (join (low_bits t.hour 6 <<< 16) (and_field t.hour 7 1 <<< 15))
        (low_bits t.minute 7 <<< 8))
      (low_bits t.second 7)

write_date : Date → Rtc → Rtc
unfolding correct_date pack_date
write_date d r = set_regs (record r.regs { dr = pack_date (correct_date d) }) r

-- `rtc_write_datetime`, of a date and a time or of a time alone
unfoldable pub write_datetime : Option Date → Time → Rtc → Rtc
unfolding write_date correct_time pack_time tamp_irq_handler
write_datetime date t r =
    let entered = init_start (write_start r) in
    let dated : Rtc = elim date [ none ↦ entered | some d ↦ write_date d entered ] in
    let timed =
      set_regs (record dated.regs { tr = pack_time (correct_time dated.regs.fmt t) }) dated in
    write_end (init_end (tamp_irq_handler timed))

-- The loop of `rtc_read_datetime`: the registers may tick while they are read, so the pair is
-- read until it comes out the same twice. The list is what the reads see, after the first;
-- `none` means that the list ended before that.
unfoldable pub read_stable : ℕ × ℕ → List (ℕ × ℕ) → Option (ℕ × ℕ)
read_stable now [] = none
read_stable (tr2, dr2) ((tr, dr) ∷ later) =
    if tr == tr2 && dr == dr2 then some (tr, dr) else read_stable (tr, dr) later

-- The bytes that `rtc_read_datetime` makes of the registers.
unfoldable pub unpack_date : ℕ → Date
unpack_date dr =
    let dow = low_bits (dr >>> 13) 3 in
    record {
      year = u8 (dr >>> 16);
      month = low_bits (dr >>> 8) 5;
      day = low_bits dr 6;
      weekday = if dow == 7 then 0 else dow;
    }

unfoldable pub unpack_time : Bool → ℕ → Time
unpack_time fmt tr = record {
  hour = hour_mcu_to_rtc fmt tr;
  minute = low_bits (tr >>> 8) 7;
  second = low_bits tr 7;
}
