-- ===== src/Clock.antt =====
-- `mcu_update_clock_speed` of firmware/src/mcu.c: the speed that the MCU needs, and the steps by
-- which it gets there. Oscillator ranges are the numbers in their names (LL_RCC_MSIRANGE_8 is 8),
-- divisors and wait states the numbers that they stand for.
pub mod Laws
pub mod Tests
use nileswan.Base.{
  ℕ, zero, suc, ◌+◌, ◌-◌, ◌*◌, ◌/◌, Bool, true, false, not, ◌&&◌, ◌||◌, List, [], ◌∷◌, ◌++◌, Option,
  none, some, u8, ◌==◌, ltb, leb, if◌then◌else◌,
}

-- The values of the SPI clock (config.h) and of the modes (spi.h) that the choice depends on.
abbrev pub freq_384khz : ℕ
freq_384khz = 0

abbrev pub freq_6mhz : ℕ
freq_6mhz = 1

abbrev pub freq_24mhz : ℕ
freq_24mhz = 2

abbrev pub mode_native : ℕ
mode_native = 0

abbrev pub mode_eeprom : ℕ
mode_eeprom = 1

abbrev pub mode_rtc : ℕ
mode_rtc = 2

abbrev pub mode_cdc_output : ℕ
mode_cdc_output = 3

pub record Target : Type 0 where
  pub msi_range : ℕ
  pub ahb_freq : ℕ
  pub ahb_divisor : ℕ
  pub apb_divisor : ℕ

abbrev mhz : ℕ → ℕ
mhz n = n * 1000 * 1000

abbrev target : ℕ → ℕ → ℕ → ℕ → Target
target range ahb divisor apb = record {
  msi_range = range;
  ahb_freq = mhz ahb;
  ahb_divisor = divisor;
  apb_divisor = apb;
}

-- The speed while USB is in use; `msi_usb` is CONFIG_ENABLE_CLOCK_MSI_USB.
usb_target : Bool → ℕ → Target
usb_target msi_usb freq =
    if freq == freq_384khz
    then (if msi_usb then target 11 24 2 1 else target 9 24 1 1)
    else target 11 48 1 1

-- The speed for the SPI clock and mode alone; `power` is `usb_power_connected`.
spi_target : Bool → ℕ → ℕ → Target
spi_target power freq mode =
    if freq == freq_384khz
    then (if power
        then target 8 16 1 1
        else if mode == mode_eeprom || mode == mode_cdc_output
        then target 4 1 1 1
        else if mode == mode_rtc
        then target 9 24 1 1
        else target 7 8 1 2)
    else if freq == freq_6mhz
    then target 9 24 1 (if power then 1 else 2)
    else if freq == freq_24mhz
    then target 11 48 1 1
    else target 8 16 1 1

-- The first half of the function. `power` is that the host's power is there and USB is enabled,
-- `mounted` is `tud_mounted`; CONFIG_MCU_FORCE_MAX_CLOCK is off.
unfoldable pub choose : Bool → Bool → Bool → ℕ → ℕ → Target
unfolding usb_target spi_target
choose msi_usb power mounted freq mode =
    if power && (msi_usb || mounted) then usb_target msi_usb freq else spi_target power freq mode

-- The clock and power registers.
pub record Hardware : Type 0 where
  pub range : ℕ
  pub ahb : ℕ
  pub apb : ℕ
  pub low_power_run : Bool
  pub voltage_scale : ℕ
  pub flash_latency : ℕ
  pub core_clock : ℕ

pub data Step : Type 0 where
  set_apb set_ahb set_range set_scale set_latency set_core_clock : ℕ → Step
  set_low_power_run : Bool → Step

unfoldable pub perform : Step → Hardware → Hardware
perform (set_apb n) h = record h { apb = n }
perform (set_ahb n) h = record h { ahb = n }
perform (set_range n) h = record h { range = n }
perform (set_scale n) h = record h { voltage_scale = n }
perform (set_latency n) h = record h { flash_latency = n }
perform (set_core_clock n) h = record h { core_clock = n }
perform (set_low_power_run b) h = record h { low_power_run = b }

unfoldable pub perform_all : List Step → Hardware → Hardware
unfolding perform
perform_all [] h = h
perform_all (s ∷ ss) h = perform_all ss (perform s h)

high_flash_latency : Target → Bool
high_flash_latency t = ltb 9 t.msi_range && t.ahb_divisor == 1

high_voltage_scale : Target → Bool
high_voltage_scale t = leb 8 t.msi_range

high_power_run : Target → Bool
high_power_run t = leb 5 t.msi_range

step_if : Bool → Step → List Step → List Step
step_if true s ss = s ∷ ss
step_if false s ss = ss

-- The steps of a change of speed, in the order of the code; the waits between them are for the
-- hardware to follow.
unfoldable pub steps : Target → List Step
unfolding step_if high_flash_latency high_voltage_scale high_power_run
steps t =
    set_apb 1
    ∷ step_if (high_power_run t) (set_low_power_run false) (
        step_if (high_voltage_scale t) (set_scale 1) (
          step_if (high_flash_latency t) (set_latency 1) (
            set_ahb 1
            ∷ set_range t.msi_range
            ∷ step_if (not (high_flash_latency t)) (set_latency 0) (
                step_if (not (high_voltage_scale t)) (set_scale 2) (
                  step_if (not (high_power_run t)) (set_low_power_run true) (
                    set_ahb t.ahb_divisor
                    ∷ set_apb t.apb_divisor
                    ∷ set_core_clock t.ahb_freq
                    ∷ []))))))

-- `busy_pin_delay`: `clocks` is negative where the subtraction here stops at 0, and 0 rounds then.
unfoldable pub busy_delay : ℕ → ℕ
busy_delay ahb_freq =
    let clocks = ahb_freq / (384 * 1000) - 10 in
    if ltb 0 clocks then u8 ((clocks + 3 - 1) / 3) else 0

-- `last_clock_speed`, which starts as a value that no speed has, and `busy_pin_delay`.
pub record Clock : Type 0 where
  pub last : Option (ℕ × ℕ)
  pub busy_pin_delay : ℕ
  pub hardware : Hardware

unchanged : Option (ℕ × ℕ) → Target → Bool
unchanged none t = false
unchanged (some (range, divisor)) t = t.msi_range == range && t.ahb_divisor == divisor

-- The second half, from the test of `last_clock_speed` on.
unfoldable pub apply_target : Target → Clock → Clock
unfolding unchanged steps perform_all busy_delay
apply_target t c =
    if unchanged c.last t
    then record c { hardware = perform (set_apb t.apb_divisor) c.hardware }
    else record {
      last = some (t.msi_range, t.ahb_divisor);
      busy_pin_delay = busy_delay t.ahb_freq;
      hardware = perform_all (steps t) c.hardware;
    }

-- `mcu_update_clock_speed`, but for the adjustment of the accelerometer's bus and of the ADC.
unfoldable pub update_clock_speed : Bool → Bool → Bool → ℕ → ℕ → Clock → Clock
unfolding choose apply_target
update_clock_speed msi_usb power mounted freq mode c =
    apply_target (choose msi_usb power mounted freq mode) c
