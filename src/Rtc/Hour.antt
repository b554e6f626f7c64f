-- ===== src/Rtc/Hour.antt =====
-- The hour as the S-3511A shows it, and its conversion between the formats of 12 and 24 hours.
pub mod Laws
use nileswan.Base.{
  ℕ, ◌+◌, ◌-◌, ◌*◌, ◌/◌, ◌%◌, ◌^◌, Bool, true, false, not, ◌&&◌, ◌||◌, u8, u32, ◌>>>◌, low_bits,
  and_field, clear_field, test_bit, set_bit, join, ◌==◌, ltb, leb, if◌then◌else◌,
}

-- `rtc_hour_mcu_to_rtc`, with the format bit of RTC->CR
unfoldable pub hour_mcu_to_rtc : Bool → ℕ → ℕ
hour_mcu_to_rtc fmt tr =
    if fmt
    then (let result = u8 (join (low_bits (tr >>> 16) 6) (and_field (tr >>> 15) 7 1)) in
        if low_bits result 6 == 0x12 then and_field result 7 1 else result)
    else (let result = low_bits (tr >>> 16) 6 in
        if leb 0x12 result then set_bit result 7 else result)

-- `tr & 0x3F0000`
abbrev pub hour_field : ℕ → ℕ
hour_field tr = and_field tr 16 6

abbrev pub pm : ℕ → Bool
pm tr = test_bit tr 22

-- `tr &= ~RTC_TR_PM`
abbrev pub clear_pm : ℕ → ℕ
clear_pm tr = clear_field tr 22 1

-- The 12-hour to 24-hour branch of `rtc_write_status`.
unfoldable pub to_24_hour : ℕ → ℕ
to_24_hour tr = clear_pm (
    if hour_field tr == 0x120000
    then (let cleared = clear_field tr 16 6 in
        if pm cleared then join cleared 0x120000 else cleared)
    else if pm tr
    then (if hour_field tr == 0x080000 || hour_field tr == 0x090000
        then u32 (tr + 0x180000)
        else u32 (tr + 0x120000))
    else tr)

-- The 24-hour to 12-hour branch. `tr - k` is taken only where the hour is larger.
unfoldable pub to_12_hour : ℕ → ℕ
to_12_hour tr =
    let t = clear_pm tr in
    if hour_field t == 0
    then join t 0x120000
    else if hour_field t == 0x120000
    then set_bit t 22
    else if ltb 0x120000 (hour_field t)
    then set_bit
        (if hour_field t == 0x200000 || hour_field t == 0x210000
          then t - 0x180000
          else t - 0x120000)
        22
    else t

-- The change of format by `rtc_write_status`: from `old` to `new`.
unfoldable pub convert : Bool → Bool → ℕ → ℕ
unfolding to_24_hour to_12_hour
convert old new tr =
    if old && not new then to_24_hour tr else if not old && new then to_12_hour tr else tr
