-- ===== src/Rtc/Hour/Laws.antt =====
-- The change of format of rtc.c against the time of day that a register stands for.
use nileswan.Base.{
  ℕ, ◌+◌, ◌-◌, ◌*◌, ◌/◌, ◌%◌, ◌^◌, ◌≤◌, ◌<◌, ◌≡◌, Bool, true, false, ◌||◌, arith, ◌==◌, ltb, leb,
  if◌then◌else◌, set_bit,
}
use nileswan.Rtc.Hour.{hour_field, clear_pm, hour_mcu_to_rtc, to_24_hour, to_12_hour, convert}

-- Two decimal digits in a byte.
abbrev pub from_bcd : ℕ → ℕ
from_bcd b = b / 16 * 10 + b % 16

-- The time register as fields: `pm` is 0 or 1, `h` the hour's digits, `ms` minutes and seconds.
abbrev pub time_reg : ℕ → ℕ → ℕ → ℕ
time_reg pm h ms = pm * 2 ^ 22 + h * 2 ^ 16 + ms

abbrev pub IsHour24 : ℕ → Type 0
IsHour24 h = (h % 16 < 10) × (from_bcd h < 24)

abbrev pub IsHour12 : ℕ → Type 0
IsHour12 h = (h % 16 < 10) × (1 ≤ from_bcd h) × (from_bcd h ≤ 12)

-- The hour of the day, counted from midnight, that a register stands for in a format.
abbrev pub hour_of_day : Bool → ℕ → ℕ → ℕ
hour_of_day fmt pm h = if fmt then from_bcd h % 12 + pm * 12 else from_bcd h

hour_field-time_reg :
    (pm h ms : ℕ) → h < 64 → ms < 2 ^ 16 → hour_field (time_reg pm h ms) ≡ h * 2 ^ 16
hour_field-time_reg pm h ms q l = omega arith

clear_pm-time_reg :
    (pm h ms : ℕ) → pm < 2 → h < 64 → ms < 2 ^ 16 → clear_pm (time_reg pm h ms) ≡ time_reg 0 h ms
clear_pm-time_reg pm h ms p q l = omega arith

set_bit-time_reg :
    (h ms : ℕ) → h < 64 → ms < 2 ^ 16 → set_bit (time_reg 0 h ms) 22 ≡ time_reg 1 h ms
set_bit-time_reg h ms q l = omega arith

-- The digits and the PM flag that 24-hour digits become, and back.
abbrev pub digits_12 : ℕ → ℕ
digits_12 h =
    if h == 0
    then 0x12
    else if leb h 0x12
    then h
    else if h == 0x20 || h == 0x21
    then h - 0x18
    else h - 0x12

abbrev pub pm_12 : ℕ → ℕ
pm_12 h = if leb 0x12 h then 1 else 0

abbrev pub digits_24 : ℕ → ℕ → ℕ
digits_24 pm h =
    if h == 0x12
    then (if pm == 0 then 0 else 0x12)
    else if pm == 0
    then h
    else if h == 0x08 || h == 0x09
    then h + 0x18
    else h + 0x12

to_12_hour-time_reg :
    (pm h ms : ℕ)
    → pm < 2
    → ms < 2 ^ 16
    → h < 64
    → to_12_hour (time_reg pm h ms) ≡ time_reg (pm_12 h) (digits_12 h) ms
unfolding to_12_hour
to_12_hour-time_reg pm h ms p l q =
    rw (clear_pm-time_reg pm h ms p q l, hour_field-time_reg 0 h ms q l) (ground arith)

to_24_hour-time_reg :
    (pm h ms : ℕ)
    → pm < 2
    → ms < 2 ^ 16
    → h ≤ 0x12
    → to_24_hour (time_reg pm h ms) ≡ time_reg 0 (digits_24 pm h) ms
unfolding to_24_hour
to_24_hour-time_reg pm h ms p l q = ground arith

digits_12-IsHour12 : (h : ℕ) → IsHour24 h → IsHour12 (digits_12 h)
digits_12-IsHour12 h v = ground arith

digits_24-IsHour24 : (pm h : ℕ) → pm < 2 → IsHour12 h → IsHour24 (digits_24 pm h)
digits_24-IsHour24 pm h p v = ground arith

hour_of_day-digits_12 : (h : ℕ) → IsHour24 h → hour_of_day true (pm_12 h) (digits_12 h) ≡ from_bcd h
hour_of_day-digits_12 h v = ground arith

from_bcd-digits_24 :
    (pm h : ℕ) → pm < 2 → IsHour12 h → from_bcd (digits_24 pm h) ≡ hour_of_day true pm h
from_bcd-digits_24 pm h p v = ground arith

digits_24-digits_12 : (h : ℕ) → IsHour24 h → digits_24 (pm_12 h) (digits_12 h) ≡ h
digits_24-digits_12 h v = ground arith

digits_12-digits_24 :
    (pm h : ℕ)
    → pm < 2
    → IsHour12 h
    → (digits_12 (digits_24 pm h) ≡ h) × (pm_12 (digits_24 pm h) ≡ pm)
digits_12-digits_24 pm h p v = ground arith

-- Switching a valid time from 24 to 12 hours keeps the hour of the day, the minutes and the
-- seconds, and leaves a valid 12-hour time.
pub to_12_hour_lem :
    (pm h ms : ℕ)
    → pm < 2
    → ms < 2 ^ 16
    → IsHour24 h
    → (p : ℕ) × (g : ℕ) × (convert false true (time_reg pm h ms) ≡ time_reg p g ms)
      × (p < 2)
      × IsHour12 g
      × (hour_of_day true p g ≡ hour_of_day false pm h)
unfolding convert
to_12_hour_lem pm h ms q l v = (
  pm_12 h,
  digits_12 h,
  to_12_hour-time_reg pm h ms q l (omega arith),
  ground arith,
  digits_12-IsHour12 h v,
  hour_of_day-digits_12 h v,
)

-- Switching a valid time from 12 to 24 hours does the same, and clears the PM flag.
pub to_24_hour_lem :
    (pm h ms : ℕ)
    → pm < 2
    → ms < 2 ^ 16
    → IsHour12 h
    → (g : ℕ) × (convert true false (time_reg pm h ms) ≡ time_reg 0 g ms)
      × IsHour24 g
      × (hour_of_day false 0 g ≡ hour_of_day true pm h)
unfolding convert
to_24_hour_lem pm h ms q l v = (
  digits_24 pm h,
  to_24_hour-time_reg pm h ms q l (omega arith),
  digits_24-IsHour24 pm h q v,
  from_bcd-digits_24 pm h q v,
)

-- Switching a valid 24-hour time to 12 hours and back gives the time register back, but for the
-- PM flag, which a 24-hour time has no use for.
pub convert_24_12_24 :
    (pm h ms : ℕ)
    → pm < 2
    → ms < 2 ^ 16
    → IsHour24 h
    → convert true false (convert false true (time_reg pm h ms)) ≡ time_reg 0 h ms
unfolding convert
convert_24_12_24 pm h ms p l v = rw (
  to_12_hour-time_reg pm h ms p l (omega arith),
  to_24_hour-time_reg (pm_12 h) (digits_12 h) ms (ground arith) l
      (omega (arith, digits_12-IsHour12 h v)),
  digits_24-digits_12 h v,
)

-- Switching a valid 12-hour time to 24 hours and back gives the time register back.
pub convert_12_24_12 :
    (pm h ms : ℕ)
    → pm < 2
    → ms < 2 ^ 16
    → IsHour12 h
    → convert false true (convert true false (time_reg pm h ms)) ≡ time_reg pm h ms
unfolding convert
convert_12_24_12 pm h ms p l v = rw (
  to_24_hour-time_reg pm h ms p l (omega arith),
  to_12_hour-time_reg 0 (digits_24 pm h) ms (omega arith) l
      (omega (arith, digits_24-IsHour24 pm h p v)),
  (digits_12-digits_24 pm h p v).0,
  (digits_12-digits_24 pm h p v).1,
)

-- What the console reads in 24-hour format: the hour's digits, with bit 7 set from noon on.
pub hour_mcu_to_rtc_24 :
    (pm h ms : ℕ)
    → ms < 2 ^ 16
    → IsHour24 h
    → hour_mcu_to_rtc false (time_reg pm h ms) ≡ h + (if ltb (from_bcd h) 12 then 0 else 0x80)
unfolding hour_mcu_to_rtc
hour_mcu_to_rtc_24 pm h ms l v = ground arith

-- What it reads in 12-hour format: digits from 0 to 11, and the PM flag in bit 7.
pub hour_mcu_to_rtc_12 :
    (pm h ms : ℕ)
    → pm < 2
    → ms < 2 ^ 16
    → IsHour12 h
    → let b = hour_mcu_to_rtc true (time_reg pm h ms) in
      (from_bcd (b % 128) ≡ from_bcd h % 12) × (b / 128 ≡ pm)
unfolding hour_mcu_to_rtc
hour_mcu_to_rtc_12 pm h ms p l v = (ground arith, ground arith)
