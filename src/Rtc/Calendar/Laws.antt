-- ===== src/Rtc/Calendar/Laws.antt =====
-- Dates and times: what `rtc_write_datetime` stores.
use nileswan.Base.{
  &&-split, ℕ, ◌/◌, ◌%◌, ◌^◌, ◌≤◌, ◌<◌, ◌≡◌, refl, ◌∙◌, ap, true, false, ◌&&◌, ◌||◌, Option, none,
  some, arith, ◌==◌, leb→le, leb, if◌then◌else◌,
}
use nileswan.Rtc.State.{Rtc}
use nileswan.Rtc.Calendar.{
  Date, Time, correct_date, correct_second, correct_time, pack_date, pack_time, write_datetime,
}
use nileswan.Rtc.Calendar.Correct.{
  Field, year, month, day, weekday, hour_24, minute, high, width, accepts, correct,
  range_correct_lem, correct_second-lem,
}

pub pack_date-fields :
    (d : Date)
    → d.year < 2 ^ 8
    → (pack_date d / 2 ^ 16 ≡ d.year)
      × (pack_date d / 2 ^ 8 % 2 ^ 5 ≡ d.month % 2 ^ 5)
      × (pack_date d % 2 ^ 6 ≡ d.day % 2 ^ 6)
      × (pack_date d / 2 ^ 13 % 2 ^ 3 ≡ (if d.weekday % 2 ^ 3 == 0 then 7 else d.weekday % 2 ^ 3))
unfolding pack_date
pack_date-fields d h = (ground arith, ground arith, ground arith, ground arith)

pub pack_time-fields :
    (t : Time)
    → (pack_time t / 2 ^ 16 % 2 ^ 6 ≡ t.hour % 2 ^ 6)
      × (pack_time t / 2 ^ 22 ≡ t.hour / 2 ^ 7 % 2)
      × (pack_time t / 2 ^ 8 % 2 ^ 8 ≡ t.minute % 2 ^ 7)
      × (pack_time t % 2 ^ 8 ≡ t.second % 2 ^ 7)
unfolding pack_time
pack_time-fields t = (omega arith, omega arith, omega arith, omega arith)

accepts-mod :
    (f : Field) (v w : ℕ)
    → v % 2 ^ width f ≡ w % 2 ^ width f
    → accepts f w ≡ true
    → accepts f v ≡ true
accepts-mod f v w e h = rw e h

pub accepts-high : (f : Field) (v : ℕ) → accepts f v ≡ true → v % 2 ^ width f ≤ high f
accepts-high f v h = leb→le _ _ (&&-split _ _ (&&-split _ _ h).0).1

correct-year-le : (v : ℕ) → v < 2 ^ 8 → correct year v ≤ 0x99
correct-year-le v h =
    let c = range_correct_lem year v h in omega (arith, c.1, accepts-high year (correct year v) c.0)

stored_weekday : (w : ℕ) → 1 ≤ (if w % 2 ^ 3 == 0 then 7 else w % 2 ^ 3)
stored_weekday w = ground arith

pub dr-write_datetime :
    (d : Date) (t : Time) (r : Rtc)
    → (write_datetime (some d) t r).regs.dr ≡ pack_date (correct_date d)
unfolding write_datetime
dr-write_datetime d t r = refl

dr-write_time : (t : Time) (r : Rtc) → (write_datetime none t r).regs.dr ≡ r.regs.dr
unfolding write_datetime
dr-write_time t r = refl

pub tr-write_datetime :
    (o : Option Date) (t : Time) (r : Rtc)
    → (write_datetime o t r).regs.tr ≡ pack_time (correct_time r.regs.fmt t)
unfolding write_datetime
tr-write_datetime none t r = refl
tr-write_datetime (some d) t r = refl

-- Whatever bytes are sent as a date, the date register then holds a year of two decimal digits,
-- a month from 1 to 12 and a day from 1 to 31, both in decimal digits, and a weekday that is
-- not 0.
pub write_datetime_date :
    (d : Date) (t : Time) (r : Rtc)
    → d.year < 2 ^ 8
    → d.month < 2 ^ 8
    → d.day < 2 ^ 8
    → let dr = (write_datetime (some d) t r).regs.dr in
      (dr / 2 ^ 16 ≤ 0x99)
      × (accepts year (dr / 2 ^ 16) ≡ true)
      × (accepts month (dr / 2 ^ 8) ≡ true)
      × (accepts day dr ≡ true)
      × (1 ≤ dr / 2 ^ 13 % 2 ^ 3)
unfolding correct_date
write_datetime_date d t r hy hm hd =
    let y = range_correct_lem year d.year hy in
    let small = correct-year-le d.year hy in
    let f = pack_date-fields (correct_date d) (omega (arith, small)) in
    rw (dr-write_datetime d t r) (
      omega (arith, f.0, small),
      accepts-mod year _ (correct year d.year) (ap (λ n. n % 2 ^ 8) f.0) y.0,
      accepts-mod month _ (correct month d.month) f.1 (range_correct_lem month d.month hm).0,
      accepts-mod day _ (correct day d.day) f.2 (range_correct_lem day d.day hd).0,
      rw f.3 (stored_weekday (correct weekday d.weekday)),
    )

-- Whatever bytes are sent as a time alone in 24-hour format, the time register then holds
-- decimal digits of an hour up to 23, of a minute up to 59, and of a second up to 59 or the
-- value 7F; the date register stays.
pub write_datetime_time :
    (t : Time) (r : Rtc)
    → r.regs.fmt ≡ false
    → t.hour < 2 ^ 8
    → t.minute < 2 ^ 8
    → t.second < 2 ^ 8
    → let s = write_datetime none t r in
      (accepts hour_24 (s.regs.tr / 2 ^ 16) ≡ true)
      × (accepts minute (s.regs.tr / 2 ^ 8) ≡ true)
      × ((leb (s.regs.tr % 2 ^ 7) 0x59 && leb (s.regs.tr % 2 ^ 7 % 16) 9)
            || (s.regs.tr % 2 ^ 7 == 0x7f)
          ≡ true)
      × (s.regs.dr ≡ r.regs.dr)
unfolding correct_time
write_datetime_time t r fmt hh hm hs =
    let e = tr-write_datetime none t r ∙ ap (λ f. pack_time (correct_time f t)) fmt in
    let f = pack_time-fields (correct_time false t) in
    let h = range_correct_lem hour_24 t.hour hh in
    let m = range_correct_lem minute t.minute hm in
    let sec : pack_time (correct_time false t) % 2 ^ 7 ≡ correct_second t.second % 2 ^ 7 =
      omega (arith, f.3) in
    (
      rw e (accepts-mod hour_24 _ (correct hour_24 t.hour) f.0 h.0),
      rw e (
          accepts-mod minute (pack_time (correct_time false t) / 2 ^ 8) (correct minute t.minute)
            (omega (arith, f.2)) m.0),
      rw (e, sec) (correct_second-lem t.second hs),
      dr-write_time t r,
    )
