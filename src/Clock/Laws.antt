-- ===== src/Clock/Laws.antt =====
-- The changes of speed of mcu.c, step by step.
use nileswan.Base.{
  ℕ, ◌+◌, ◌*◌, ◌≤◌, ◌<◌, ◌≡◌, ◌⊎◌, inl, inr, refl, sym, ◌∙◌, ap, Bool, true, false, not, ◌&&◌, ◌||◌,
  List, [], ◌∷◌, Option, none, some, arith, ◌==◌, ltb, leb, if◌then◌else◌, Bool-cases,
}
use nileswan.Clock.{
  Target, choose, Hardware, Step, perform, perform_all, steps, busy_delay, Clock, apply_target,
  update_clock_speed, step_if, unchanged, high_flash_latency, high_voltage_scale, high_power_run,
}

-- What the ranges of the oscillator give, in Hz.
abbrev pub msi_hz : ℕ → ℕ
msi_hz range =
    if range == 4
    then 1000000
    else if range == 7
    then 8000000
    else if range == 8
    then 16000000
    else if range == 9
    then 24000000
    else if range == 11
    then 48000000
    else 0

-- The MCU may run: a fast oscillator has the high voltage and no low-power mode, and above range
-- 9 undivided the flash has its wait state.
abbrev pub is_safe : Hardware → Bool
is_safe h =
    (not (leb 8 h.range) || h.voltage_scale == 1)
    && ((not (leb 5 h.range) || not h.low_power_run)
        && (not (ltb 9 h.range && h.ahb == 1) || h.flash_latency == 1))

-- Before, between and after the steps.
abbrev pub safe_throughout : List Step → Hardware → Bool
safe_throughout [] h = is_safe h
safe_throughout (s ∷ ss) h = is_safe h && safe_throughout ss (perform s h)

-- From a safe state with the bus undivided, the change to any speed with an undivided bus is
-- safe throughout: before, between and after its steps.
pub steps_safe :
    (t : Target) (h : Hardware)
    → is_safe h ≡ true
    → h.ahb ≡ 1
    → t.ahb_divisor ≡ 1
    → safe_throughout (steps t) h ≡ true
unfolding steps perform step_if high_flash_latency high_voltage_scale high_power_run
steps_safe t h safe bus div = elim (Bool-cases (ltb 9 t.msi_range)) [
  | inl fast ↦ ground arith
  | inr slow ↦ ground arith
]

-- With CONFIG_ENABLE_CLOCK_MSI_USB and USB in use, the change to the speed for an SPI clock of
-- 384 kHz is not safe throughout, from any state.
pub msi_usb_unsafe :
    (mounted : Bool) (mode : ℕ) (h : Hardware)
    → safe_throughout (steps (choose true true mounted 0 mode)) h ≡ false
unfolding choose steps perform step_if high_flash_latency high_voltage_scale high_power_run
msi_usb_unsafe mounted mode h = ground arith

-- The frequency of every speed that is chosen is the oscillator's, divided; the bus is undivided
-- but with CONFIG_ENABLE_CLOCK_MSI_USB.
pub choose_lem :
    (msi_usb power mounted : Bool) (freq mode : ℕ)
    → let t = choose msi_usb power mounted freq mode in
      (t.ahb_freq * t.ahb_divisor ≡ msi_hz t.msi_range)
      × (t.ahb_divisor ≡ (if msi_usb && power && freq == 0 then 2 else 1))
unfolding choose
choose_lem msi_usb power mounted freq mode = ground arith

-- At every speed that is chosen, 10 cycles and 3 for each count of the delay last a period of
-- the 384 kHz clock; with 3 cycles less they would not, unless the count is 0; and the count
-- fits in a byte.
pub busy_delay_lem :
    (msi_usb power mounted : Bool) (freq mode : ℕ)
    → let ahb_freq = (choose msi_usb power mounted freq mode).ahb_freq in
      let delay = busy_delay ahb_freq in
      (ahb_freq ≤ 384000 * (10 + 3 * delay))
      × ((delay ≡ 0) ⊎ (384000 * (7 + 3 * delay) < ahb_freq))
      × (delay < 256)
unfolding choose busy_delay
busy_delay_lem msi_usb power mounted freq mode = ground arith

-- The remembered speed is the hardware's.
abbrev pub agrees : Option (ℕ × ℕ) → Hardware → Bool
agrees none h = true
agrees (some (range, divisor)) h =
    range == h.range && (divisor == 1 && h.core_clock == msi_hz range)

pub record IsValid (c : Clock) : Type 0 where
  pub safe : is_safe c.hardware ≡ true
  pub bus : c.hardware.ahb ≡ 1
  pub known : agrees c.last c.hardware ≡ true

perform_all_lem :
    (t : Target) (h : Hardware)
    → t.ahb_divisor ≡ 1
    → let g = perform_all (steps t) h in
      (g.range ≡ t.msi_range)
      × (g.ahb ≡ 1)
      × (g.apb ≡ t.apb_divisor)
      × (g.core_clock ≡ t.ahb_freq)
      × (is_safe g ≡ true)
unfolding perform_all steps perform step_if high_flash_latency high_voltage_scale high_power_run
perform_all_lem t h div = elim (Bool-cases (ltb 9 t.msi_range)) [
  | inl fast ↦ ground arith
  | inr slow ↦ ground arith
]

apply_changed :
    (t : Target) (c : Clock)
    → t.ahb_divisor ≡ 1
    → t.ahb_freq ≡ msi_hz t.msi_range
    → unchanged c.last t ≡ false
    → let d = apply_target t c in
      IsValid d
      × (d.hardware.range ≡ t.msi_range)
      × (d.hardware.ahb ≡ t.ahb_divisor)
      × (d.hardware.apb ≡ t.apb_divisor)
      × (d.hardware.core_clock ≡ t.ahb_freq)
unfolding apply_target
apply_changed t c div hz new =
    let p = perform_all_lem t c.hardware div in
    rw new (
      record { safe = p.4; bus = p.1; known = ground (arith, p.0, p.3, div, hz) },
      p.0,
      p.1 ∙ sym div,
      p.2,
      p.3,
    )

apply_unchanged :
    (t : Target) (l : Option (ℕ × ℕ)) (c : Clock)
    → c.last ≡ l
    → IsValid c
    → t.ahb_divisor ≡ 1
    → t.ahb_freq ≡ msi_hz t.msi_range
    → unchanged l t ≡ true
    → let d = apply_target t c in
      IsValid d
      × (d.hardware.range ≡ t.msi_range)
      × (d.hardware.ahb ≡ t.ahb_divisor)
      × (d.hardware.apb ≡ t.apb_divisor)
      × (d.hardware.core_clock ≡ t.ahb_freq)
unfolding apply_target unchanged perform
apply_unchanged t none c e v div hz old = cc
apply_unchanged t (some (range, divisor)) c e v div hz old =
    let flag : unchanged c.last t ≡ true = ap (λ l. unchanged l t) e ∙ old in
    let known : agrees (some (range, divisor)) c.hardware ≡ true =
      sym (ap (λ l. agrees l c.hardware) e) ∙ v.known in
    rw flag (
      record {
        safe = v.safe;
        bus = v.bus;
        known = ap (λ l. agrees l (record c.hardware { apb = t.apb_divisor })) e ∙ known;
      },
      ground (arith, known, old),
      ground (arith, v.bus, div),
      refl,
      ground (arith, known, old, hz),
    )

pub apply_target_lem :
    (t : Target) {c : Clock}
    → IsValid c
    → t.ahb_divisor ≡ 1
    → t.ahb_freq ≡ msi_hz t.msi_range
    → let d = apply_target t c in
      IsValid d
      × (d.hardware.range ≡ t.msi_range)
      × (d.hardware.ahb ≡ t.ahb_divisor)
      × (d.hardware.apb ≡ t.apb_divisor)
      × (d.hardware.core_clock ≡ t.ahb_freq)
apply_target_lem t {c} v div hz = elim (Bool-cases (unchanged c.last t)) [
  | inl old ↦ apply_unchanged t c.last c refl v div hz old
  | inr new ↦ apply_changed t c div hz new
]

-- Without CONFIG_ENABLE_CLOCK_MSI_USB, an update of the clock keeps a valid state valid and
-- reaches the speed chosen: its oscillator range, its two divisors and its core clock.
pub update_clock_speed_lem :
    (power mounted : Bool) (freq mode : ℕ) {c : Clock}
    → IsValid c
    → let t = choose false power mounted freq mode in
      let d = update_clock_speed false power mounted freq mode c in
      IsValid d
      × (d.hardware.range ≡ t.msi_range)
      × (d.hardware.ahb ≡ t.ahb_divisor)
      × (d.hardware.apb ≡ t.apb_divisor)
      × (d.hardware.core_clock ≡ t.ahb_freq)
unfolding update_clock_speed
update_clock_speed_lem power mounted freq mode {c} v =
    let e = choose_lem false power mounted freq mode in
    apply_target_lem (choose false power mounted freq mode) v (ground (arith, e.1))
      (ground (arith, e.0, e.1))
