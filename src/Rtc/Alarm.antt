-- ===== src/Rtc/Alarm.antt =====
-- The alarm of rtc.c: the interrupt handler, which recomputes the level of the alarm, the alarm
-- mode, the alarm value and `mcu_rtc_init`.
pub mod Laws
use nileswan.Base.{
  ℕ, ◌+◌, ◌-◌, ◌*◌, ◌/◌, ◌%◌, ◌^◌, Bool, true, false, ◌&&◌, not, bit_and, bit_xor, u32, ◌<<<◌,
  low_bits, and_field, clear_field, join, ◌==◌, ◌!=◌, ltb, leb, if◌then◌else◌,
}
use nileswan.Irq.{Irq, rtc_alarm, irq_set, irq_clear}
use nileswan.Rtc.State.{Registers, Rtc, set_regs, write_start, write_end, is_configured}
use nileswan.Rtc.Hour.{hour_mcu_to_rtc}

-- S3511A_INTAE, S3511A_INTME and S3511A_INTFE of rtc.h
abbrev pub intae : ℕ
intae = 0x20

abbrev pub intme : ℕ
intme = 0x08

abbrev pub intfe : ℕ
intfe = 0x02

-- `TAMP->BKP0R & ~S3511A_INTAE`, the operand of both `switch`es
abbrev pub other_modes : ℕ → ℕ
other_modes mode = clear_field mode 5 1

-- The time that the alarm value is compared with: minutes above, hour below.
unfoldable pub alarm_time : Registers → ℕ
alarm_time g = join (and_field g.tr 8 7) (hour_mcu_to_rtc g.fmt g.tr)

-- `!((TAMP->BKP1R ^ value) & 0xBF7F)`
unfoldable pub alarm_matches : Registers → Bool
unfolding alarm_time
alarm_matches g = bit_and (bit_xor g.bkp1 (alarm_time g)) 0xbf7f == 0

-- The frequency mode: the sub-second counter, which counts down, with the lowest bit of the
-- seconds above it. `(ssr ^ 0x7FFF) & 0x7FFF` is the complement of 15 bits.
unfoldable pub frequency_value : Registers → ℕ
frequency_value g = join (bit_and (bit_xor g.ssr 0x7fff) 0x7fff) (low_bits g.tr 1 <<< 15)

-- The level that `RTC_TAMP_IRQHandler` gives to the alarm's interrupt.
unfoldable pub alarm_level : Registers → Bool
unfolding alarm_matches frequency_value
alarm_level g =
    let mode = other_modes g.bkp0 in
    if g.bkp0 == intae
    then alarm_matches g
    else if mode == intfe
    then bit_and g.bkp1 (frequency_value g) != 0
    else if mode == intme
    then low_bits g.tr 7 == 0 && leb (32768 - 327) (low_bits g.ssr 15)
    else if mode == intme + intfe
    then ltb (low_bits g.tr 7) 0x30
    else false

-- `rtc_irq_set`
unfoldable pub rtc_irq_set : Bool → Irq → Irq
rtc_irq_set value i = if value then irq_set rtc_alarm i else irq_clear rtc_alarm i

-- `RTC_TAMP_IRQHandler`; the alarm flag that it clears is the hardware's.
unfoldable pub tamp_irq_handler : Rtc → Rtc
unfolding alarm_level rtc_irq_set
tamp_irq_handler r = record r { irq = rtc_irq_set (alarm_level r.regs) r.irq }

-- What the branches of `rtc_apply_alarm_mode` put into the alarm registers.
alarm_registers : ℕ → Registers → Registers
alarm_registers mode g =
    let other = other_modes mode in
    if mode == intae
    then record g { alarm_msk1 = false; alrmassr = 0 }
    else if other == intfe
    then record g { alarm_msk1 = true; alrmassr = (1 <<< 24) + 1 }
    else if other == intme
    then record g { alarm_msk1 = true; alrmassr = (5 <<< 24) + 31 }
    else if other == intme + intfe
    then record g { alarm_msk1 = true; alrmassr = 0 }
    else g

-- `rtc_apply_alarm_mode`
unfoldable pub apply_alarm_mode : ℕ → Rtc → Rtc
unfolding alarm_registers tamp_irq_handler
apply_alarm_mode mode r =
    let g = record r.regs { bkp0 = mode; alarm_enable = false } in
    if mode != 0
    then tamp_irq_handler (set_regs (record (alarm_registers mode g) { alarm_enable = true }) r)
    else record r { regs = g; irq = irq_clear rtc_alarm r.irq }

-- `rtc_write_alarm`
unfoldable pub write_alarm : ℕ → Rtc → Rtc
unfolding tamp_irq_handler
write_alarm value r =
    write_end (tamp_irq_handler (set_regs (record r.regs { bkp1 = value }) (write_start r)))

-- `mcu_rtc_init`, without the clocks and the priority of the interrupt
unfoldable pub rtc_init : Rtc → Rtc
unfolding apply_alarm_mode is_configured
rtc_init r = if is_configured r then write_end (apply_alarm_mode r.regs.bkp0 (write_start r)) else r
