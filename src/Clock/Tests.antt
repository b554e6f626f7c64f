-- ===== src/Clock/Tests.antt =====
-- The clock on concrete speeds.
use nileswan.Base.{◌≡◌, refl, true, false, some}
use nileswan.Clock.{Target, choose, Hardware, steps, busy_delay, Clock, mode_native}
use nileswan.Clock.Laws.{safe_throughout, steps_safe, msi_usb_unsafe, IsValid}

-- 8 MHz, as the console talks to the MCU
abbrev pub slow : Hardware
slow = record {
  range = 7;
  ahb = 1;
  apb = 2;
  low_power_run = false;
  voltage_scale = 2;
  flash_latency = 0;
  core_clock = 8000000;
}

abbrev pub slow_clock : Clock
slow_clock = record { last = some (7, 1); busy_pin_delay = 4; hardware = slow }

pub slow_clock-IsValid : IsValid slow_clock
slow_clock-IsValid = record { safe = refl; bus = refl; known = refl }

abbrev fast : Target
fast = record { msi_range = 11; ahb_freq = 48000000; ahb_divisor = 1; apb_divisor = 1 }

delay_8mhz : busy_delay 8000000 ≡ 4
unfolding busy_delay
delay_8mhz = refl

steps_safe_example : safe_throughout (steps fast) slow ≡ true
steps_safe_example = steps_safe fast slow refl refl refl

msi_usb_unsafe_example : safe_throughout (steps (choose true true true 0 mode_native)) slow ≡ false
msi_usb_unsafe_example = msi_usb_unsafe true mode_native slow
