-- ===== src/Rtc/State.antt =====
-- The registers that rtc.c reads and writes. Register fields that C names by a mask of the
-- device's header and that rtc.c uses only whole are fields here, so no value of that header is
-- needed: the format bit of RTC->CR, the pair ALRAE and ALRAIE, BYPSHAD, LPCAL, and of
-- RTC->ALRMAR whether MSK1 is set beside MSK2 to MSK4. RTC_TR_PM is bit 22, by the shifts of
-- `rtc_write_datetime`.
use nileswan.Base.{ℕ, Bool, true, false}
use nileswan.Irq.{Irq}

pub data ClockSource : Type 0 where
  no_clock lse lsi : ClockSource

-- The backup domain: RTC and TAMP registers. `bkp0` is the alarm mode, `bkp1` the alarm value,
-- `bkp8` the save ID.
pub record Registers : Type 0 where
  pub clock_source : ClockSource
  pub fmt : Bool
  pub alarm_enable : Bool
  pub bypshad : Bool
  pub lpcal : Bool
  pub tr : ℕ
  pub dr : ℕ
  pub ssr : ℕ
  pub prer : ℕ
  pub alarm_msk1 : Bool
  pub alrmassr : ℕ
  pub bkp0 : ℕ
  pub bkp1 : ℕ
  pub bkp8 : ℕ

-- With the static `rtc_curr_cmd`, the two modes of access and the interrupt register.
pub record Rtc : Type 0 where
  pub regs : Registers
  pub curr_cmd : ℕ
  pub write_protected : Bool
  pub init_mode : Bool
  pub irq : Irq

-- What the hardware decides: whether the external oscillator starts within the timeout of
-- `rtc_enable_lse_clock`, and what a reset leaves in the backup domain.
pub record Board : Type 0 where
  pub lse_ready : Bool
  pub after_reset : Registers

-- `rtc_write_start`, `rtc_write_end`, `rtc_init_start`, `rtc_init_end`; the wait for INITF is
-- the hardware's.
abbrev pub write_start : Rtc → Rtc
write_start r = record r { write_protected = false }

abbrev pub write_end : Rtc → Rtc
write_end r = record r { write_protected = true }

abbrev pub init_start : Rtc → Rtc
init_start r = record r { init_mode = true }

abbrev pub init_end : Rtc → Rtc
init_end r = record r { init_mode = false }

abbrev pub set_regs : Registers → Rtc → Rtc
set_regs g r = record r { regs = g }

-- `rtc_is_configured`
unfoldable pub is_configured : Rtc → Bool
is_configured r = elim r.regs.clock_source [ no_clock ↦ false | _ ↦ true ]

-- `mcu_reset_backup_domain` of mcu.c: everything but the save ID is reset.
unfoldable pub reset_backup_domain : Board → Rtc → Rtc
reset_backup_domain b r = set_regs (record b.after_reset { bkp8 = r.regs.bkp8 }) r
