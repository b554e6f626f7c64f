-- ===== src/Rtc/Alarm/Laws.antt =====
-- What the alarm compares, and the level that it gives to the interrupt register.
use nileswan.Base.{
  ℕ, ◌+◌, ◌*◌, ◌/◌, ◌%◌, ◌^◌, ◌<◌, ◌≡◌, ◌↔◌, refl, sym, ◌∙◌, ap, Bool, true, false, arith, bit_and,
  bit_xor, test_bit, ◌==◌, ◌!=◌, ==_iff, if◌then◌else◌, Bool-cases, inl, inr,
}
use nileswan.Base.Bits.{all_below, all_below_sound, bit_and_mask}
use nileswan.Base.Bits.Words.{masked_equal, bit_and-split}
use nileswan.Irq.{Irq, raise, drop, rtc_alarm, handle}
use nileswan.Irq.Laws.{handle_bits}
use nileswan.Rtc.State.{Registers, Rtc}
use nileswan.Rtc.Hour.{hour_mcu_to_rtc}
use nileswan.Rtc.Alarm.{
  alarm_time, alarm_matches, alarm_level, rtc_irq_set, tamp_irq_handler, apply_alarm_mode,
  write_alarm,
}

alarm_mask :
    (x : ℕ) → bit_and x 0xbf7f ≡ x / 2 ^ 15 % 2 * 2 ^ 15 + x / 2 ^ 8 % 2 ^ 6 * 2 ^ 8 + x % 2 ^ 7
alarm_mask x = ground (
  arith,
  bit_and-split 8 x 0xbf 0x7f (omega arith),
  bit_and-split 6 (x / 2 ^ 8) 2 0x3f (omega arith),
  bit_and_mask 6 (x / 2 ^ 8 % 2 ^ 6),
  bit_and_mask 7 (x % 2 ^ 8),
  bit_and-split 1 (x / 2 ^ 8 / 2 ^ 6) 1 0 (omega arith),
  bit_and_mask 1 (x / 2 ^ 8 / 2 ^ 6 / 2),
  bit_and_mask 0 (x / 2 ^ 8 / 2 ^ 6 % 2),
)

hour_mcu_to_rtc-lt : (fmt : Bool) (tr : ℕ) → hour_mcu_to_rtc fmt tr < 2 ^ 8
unfolding hour_mcu_to_rtc
hour_mcu_to_rtc-lt true tr = ground arith
hour_mcu_to_rtc-lt false tr = ground arith

alarm_matches-fields :
    (a b : ℕ)
    → ((bit_and (bit_xor a b) 0xbf7f == 0) ≡ true) ↔ (
        (a % 2 ^ 7 ≡ b % 2 ^ 7)
        × (a / 2 ^ 8 % 2 ^ 6 ≡ b / 2 ^ 8 % 2 ^ 6)
        × (a / 2 ^ 15 % 2 ≡ b / 2 ^ 15 % 2))
alarm_matches-fields a b =
    let e = masked_equal a b 0xbf7f in
    (
      λ h.
          let same : bit_and a 0xbf7f ≡ bit_and b 0xbf7f = e.0 (ground arith) in
          (
            omega (arith, alarm_mask a, alarm_mask b),
            omega (arith, alarm_mask a, alarm_mask b),
            omega (arith, alarm_mask a, alarm_mask b),
          ),
      λ h. ground (arith, e.1 (omega (arith, alarm_mask a, alarm_mask b))),
    )

-- The alarm matches exactly when the alarm value and the time agree in the lower seven bits of
-- the hour byte and in the lower six bits of the minute, and bit 15 of the value is clear. The PM
-- flag, bit 7 of the hour byte, and the bit of minutes 40 to 59 take no part.
pub alarm_matches_iff :
    (g : Registers)
    → (alarm_matches g ≡ true) ↔ (
        (g.bkp1 % 2 ^ 7 ≡ hour_mcu_to_rtc g.fmt g.tr % 2 ^ 7)
        × (g.bkp1 / 2 ^ 8 % 2 ^ 6 ≡ g.tr / 2 ^ 8 % 2 ^ 6)
        × (g.bkp1 / 2 ^ 15 % 2 ≡ 0))
unfolding alarm_matches alarm_time
alarm_matches_iff g =
    let h = hour_mcu_to_rtc-lt g.fmt g.tr in
    let t : ℕ = g.tr / 2 ^ 8 % 2 ^ 7 * 2 ^ 8 + hour_mcu_to_rtc g.fmt g.tr in
    let low : t % 2 ^ 7 ≡ hour_mcu_to_rtc g.fmt g.tr % 2 ^ 7 = omega arith in
    let mid : t / 2 ^ 8 % 2 ^ 6 ≡ g.tr / 2 ^ 8 % 2 ^ 6 = omega arith in
    let top : t / 2 ^ 15 % 2 ≡ 0 = omega arith in
    let e = alarm_matches-fields g.bkp1 t in
    (
      λ m. let f = e.0 m in (f.0 ∙ low, f.1 ∙ mid, f.2 ∙ top),
      λ f. e.1 (f.0 ∙ sym low, f.1 ∙ sym mid, f.2 ∙ sym top),
    )

alarm_table : all_below 16 (λ k. rtc_alarm / 2 ^ k % 2 == (if k == 2 then 1 else 0)) ≡ true
unfolding all_below
alarm_table = refl

alarm-bit : (k : ℕ) → k < 16 → test_bit rtc_alarm k ≡ (k == 2)
alarm-bit k h = let digit = (==_iff _ _).0 (all_below_sound 16 _ k alarm_table h) in ground arith

-- The level decides bit 2 of the status alone.
level_bits :
    (b : Bool) (i : Irq) (k : ℕ)
    → k < 16
    → test_bit (rtc_irq_set b i).status k ≡ (if k == 2 then b else test_bit i.status k)
unfolding rtc_irq_set handle
level_bits true i k h =
    ground (arith, handle_bits (raise rtc_alarm) i k (omega arith) h, alarm-bit k h)
level_bits false i k h =
    ground (arith, handle_bits (drop rtc_alarm) i k (omega arith) h, alarm-bit k h)

-- After the interrupt handler the alarm bit of the status is the level of the registers, and
-- every other bit is as it was; the registers stay.
pub tamp_irq_handler_bits :
    (r : Rtc) (k : ℕ)
    → k < 16
    → (test_bit (tamp_irq_handler r).irq.status k
        ≡ (if k == 2 then alarm_level r.regs else test_bit r.irq.status k))
      × ((tamp_irq_handler r).regs ≡ r.regs)
unfolding tamp_irq_handler
tamp_irq_handler_bits r k h = (level_bits (alarm_level r.regs) r.irq k h, refl)

irq-apply_alarm_mode :
    (mode : ℕ) (r : Rtc)
    → (apply_alarm_mode mode r).irq ≡ rtc_irq_set (alarm_level (apply_alarm_mode mode r).regs) r.irq
unfolding apply_alarm_mode rtc_irq_set
irq-apply_alarm_mode mode r = elim (Bool-cases (mode != 0)) [
  | inl on ↦ rw on
  | inr off ↦ let zero_mode : mode ≡ 0 = ground arith in rw zero_mode
]

-- A change of the alarm's mode, and a change of its value, leave the alarm bit of the status at
-- the level of the new registers, and its other bits as they were; a change of the value
-- changes no other register.
pub alarm_in_step :
    (mode value k : ℕ) (r : Rtc)
    → k < 16
    → let a = apply_alarm_mode mode r in
      let w = write_alarm value r in
      (test_bit a.irq.status k ≡ (if k == 2 then alarm_level a.regs else test_bit r.irq.status k))
      × (test_bit w.irq.status k ≡ (if k == 2 then alarm_level w.regs else test_bit r.irq.status k))
      × (w.regs ≡ record r.regs { bkp1 = value })
unfolding write_alarm
alarm_in_step mode value k r h = (
  ap (λ i. test_bit i.status k) (irq-apply_alarm_mode mode r)
      ∙ level_bits (alarm_level (apply_alarm_mode mode r).regs) r.irq k h,
  level_bits (alarm_level (record r.regs { bkp1 = value })) r.irq k h,
  refl,
)
