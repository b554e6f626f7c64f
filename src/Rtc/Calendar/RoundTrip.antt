-- ===== src/Rtc/Calendar/RoundTrip.antt =====
-- Dates and times that are written and read back.
use nileswan.Base.{
  ℕ, ◌+◌, ◌%◌, ◌^◌, ◌<◌, ◌≡◌, refl, ◌∙◌, ap, true, false, not, ◌&&◌, ◌||◌, Option, some, arith,
  ◌==◌, ltb, leb, if◌then◌else◌,
}
use nileswan.Base.Bits.{all_below, all_below_sound}
use nileswan.Rtc.State.{Rtc}
use nileswan.Rtc.Hour.{hour_mcu_to_rtc}
use nileswan.Rtc.Calendar.{
  Date, Time, correct_date, correct_hour, correct_second, correct_time, pack_date, pack_time,
  write_datetime, unpack_date, unpack_time,
}
use nileswan.Rtc.Calendar.Correct.{
  Field, year, month, day, weekday, hour_24, hour_12, minute, width, accepts, correct,
  correct_accepted,
}
use nileswan.Rtc.Calendar.Laws.{
  pack_date-fields, pack_time-fields, accepts-high, dr-write_datetime, tr-write_datetime,
}

-- What the S-3511A accepts as a date: decimal digits in range, and no bits outside the fields.
pub record IsDate (d : Date) : Type 0 where
  pub year_small : d.year < 2 ^ 8
  pub year_ok : accepts year d.year ≡ true
  pub month_small : d.month < 2 ^ 5
  pub month_ok : accepts month d.month ≡ true
  pub day_small : d.day < 2 ^ 6
  pub day_ok : accepts day d.day ≡ true
  pub weekday_small : d.weekday < 7

-- A time of day: the hour in `f`, which is `hour_24` or `hour_12`, with the PM flag in bit 7.
pub record IsTime (f : Field) (t : Time) : Type 0 where
  pub hour_small : t.hour % 2 ^ 7 < 2 ^ width f
  pub hour_byte : t.hour < 2 ^ 8
  pub hour_ok : accepts f t.hour ≡ true
  pub minute_small : t.minute < 2 ^ 7
  pub minute_ok : accepts minute t.minute ≡ true
  pub second_small : t.second < 2 ^ 7
  pub second_ok : leb t.second 0x59 && leb (t.second % 16) 9 ≡ true

correct_date-id : (d : Date) → IsDate d → correct_date d ≡ d
unfolding correct_date
correct_date-id d v = λ i. record {
  year = correct_accepted year d.year v.year_small v.year_ok i;
  month = correct_accepted month d.month (omega (arith, v.month_small)) v.month_ok i;
  day = correct_accepted day d.day (omega (arith, v.day_small)) v.day_ok i;
  weekday =
      correct_accepted weekday d.weekday (omega (arith, v.weekday_small))
        (ground (arith, v.weekday_small)) i;
}

unpack-pack_date : (d : Date) → IsDate d → unpack_date (pack_date d) ≡ d
unfolding unpack_date
unpack-pack_date d v = ground (arith, pack_date-fields d v.year_small)

-- A valid date that the console writes is read back unchanged.
pub read_date-write_datetime :
    (d : Date) (t : Time) (r : Rtc)
    → IsDate d
    → unpack_date (write_datetime (some d) t r).regs.dr ≡ d
read_date-write_datetime d t r v =
    ap unpack_date (dr-write_datetime d t r ∙ ap pack_date (correct_date-id d v))
    ∙ unpack-pack_date d v

-- What a 24-hour time reads back as: bit 7 of the hour tells the afternoon, whatever was written
-- there.
unpack-pack_time_24 :
    (t : Time)
    → IsTime hour_24 t
    → unpack_time false (pack_time t)
      ≡ record t { hour = t.hour % 2 ^ 6 + (if ltb (t.hour % 2 ^ 6) 0x12 then 0 else 0x80) }
unfolding unpack_time hour_mcu_to_rtc
unpack-pack_time_24 t v =
    ground (arith, pack_time-fields t, v.hour_small, v.minute_small, v.second_small)

second_keeps : (s : ℕ) → s < 2 ^ 7 → leb s 0x59 && leb (s % 16) 9 ≡ true → correct_second s ≡ s
unfolding correct_second
second_keeps s small ok = ground arith

correct_time_24-id : (t : Time) → IsTime hour_24 t → correct_time false t ≡ t
unfolding correct_time
correct_time_24-id t v = λ i. record {
  hour = correct_accepted hour_24 t.hour v.hour_byte v.hour_ok i;
  minute = correct_accepted minute t.minute (omega (arith, v.minute_small)) v.minute_ok i;
  second = second_keeps t.second v.second_small v.second_ok i;
}

-- A valid time written in 24-hour format is read back with its digits unchanged and the PM flag
-- set exactly from noon on.
pub read_time-write_datetime_24 :
    (o : Option Date) (t : Time) (r : Rtc)
    → r.regs.fmt ≡ false
    → IsTime hour_24 t
    → unpack_time false (write_datetime o t r).regs.tr
      ≡ record t { hour = t.hour % 2 ^ 6 + (if ltb (t.hour % 2 ^ 6) 0x12 then 0 else 0x80) }
read_time-write_datetime_24 o t r fmt v =
    ap (unpack_time false) (
      tr-write_datetime o t r
      ∙ ap (λ f. pack_time (correct_time f t)) fmt
      ∙ ap pack_time (correct_time_24-id t v))
    ∙ unpack-pack_time_24 t v

hour_12_table :
    all_below 256 (λ h.
      not (leb (h % 128) 0x1f)
      || (correct_hour true h == (if h % 32 == 0 then h + 0x12 else correct hour_12 h)))
    ≡ true
unfolding all_below correct_hour
hour_12_table = refl

hour_12-id :
    (h : ℕ)
    → h < 2 ^ 8
    → h % 2 ^ 7 < 2 ^ 5
    → accepts hour_12 h ≡ true
    → correct_hour true h ≡ (if h % 32 == 0 then h + 0x12 else h)
hour_12-id h b small ok =
    let t = all_below_sound 256 _ h hour_12_table b in
    let c = correct_accepted hour_12 h b ok in ground (arith, t, c, small)

correct_time_12 :
    (t : Time)
    → IsTime hour_12 t
    → correct_time true t ≡ record t { hour = if t.hour % 32 == 0 then t.hour + 0x12 else t.hour }
unfolding correct_time
correct_time_12 t v = λ i. record {
  hour = hour_12-id t.hour v.hour_byte v.hour_small v.hour_ok i;
  minute = correct_accepted minute t.minute (omega (arith, v.minute_small)) v.minute_ok i;
  second = second_keeps t.second v.second_small v.second_ok i;
}

unpack-pack_time_12 :
    (t : Time)
    → IsTime hour_12 t
    → unpack_time true
        (pack_time (record t { hour = if t.hour % 32 == 0 then t.hour + 0x12 else t.hour }))
      ≡ t
unfolding unpack_time hour_mcu_to_rtc
unpack-pack_time_12 t v =
    let w : Time = record t { hour = if t.hour % 32 == 0 then t.hour + 0x12 else t.hour } in
    let f = pack_time-fields w in
    ground (
      arith,
      f,
      v.hour_small,
      v.hour_byte,
      accepts-high hour_12 t.hour v.hour_ok,
      v.minute_small,
      v.second_small,
    )

-- In 12-hour format the time that is written is read back unchanged, the hour 0 (stored as 12) and
-- the PM flag included.
pub read_time-write_datetime_12 :
    (o : Option Date) (t : Time) (r : Rtc)
    → r.regs.fmt ≡ true
    → IsTime hour_12 t
    → unpack_time true (write_datetime o t r).regs.tr ≡ t
read_time-write_datetime_12 o t r fmt v =
    ap (unpack_time true) (
      tr-write_datetime o t r
      ∙ ap (λ f. pack_time (correct_time f t)) fmt
      ∙ ap pack_time (correct_time_12 t v))
    ∙ unpack-pack_time_12 t v
