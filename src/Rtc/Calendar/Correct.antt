-- ===== src/Rtc/Calendar/Correct.antt =====
-- The correction of the bytes of a date and a time, field by field.
use nileswan.Base.{
  &&-split, ℕ, ◌+◌, ◌-◌, ◌*◌, ◌/◌, ◌%◌, ◌^◌, ◌<◌, ◌≡◌, refl, sym, ◌∙◌, ap₂, Bool, true, ◌&&◌, ◌||◌,
  arith, ◌==◌, ==_iff, leb, if◌then◌else◌,
}
use native.Mathlib.Nat.{div-add-mod'}
use nileswan.Base.Bits.{all_below, all_below_sound}
use nileswan.Rtc.Calendar.{range_correct, correct_second}

-- The fields that `rtc_write_datetime` corrects, with the bounds and the width that it passes.
pub data Field : Type 0 where
  year month day weekday hour_24 hour_12 minute : Field

abbrev pub low : Field → ℕ
low month = 1
low day = 1
low _ = 0

abbrev pub high : Field → ℕ
high year = 0x99
high month = 0x12
high day = 0x31
high weekday = 0x06
high hour_24 = 0x23
high hour_12 = 0x11
high minute = 0x59

abbrev pub width : Field → ℕ
width year = 8
width month = 5
width day = 6
width weekday = 3
width hour_24 = 6
width hour_12 = 5
width minute = 7

-- The bits of `v` inside the field are a value that the S-3511A accepts.
abbrev pub accepts : Field → ℕ → Bool
accepts f v =
    leb (low f) (v % 2 ^ width f) && leb (v % 2 ^ width f) (high f) && leb (v % 2 ^ width f % 16) 9

abbrev pub correct : Field → ℕ → ℕ
correct f v = range_correct v (low f) (high f) (2 ^ width f - 1)

-- A corrected byte is accepted, keeps the bits outside its field, and was left alone if it was
-- accepted before; otherwise the field becomes the lower bound.
abbrev checked : Field → ℕ → Bool
checked f v =
    let r = correct f v in
    accepts f r
    && (r / 2 ^ width f == v / 2 ^ width f)
    && (r % 2 ^ width f == (if accepts f v then v % 2 ^ width f else low f))

correct_table : (f : Field) → all_below 256 (checked f) ≡ true
unfolding all_below range_correct
correct_table year = refl
correct_table month = refl
correct_table day = refl
correct_table weekday = refl
correct_table hour_24 = refl
correct_table hour_12 = refl
correct_table minute = refl

-- `rtc_range_correct` of a byte, with the bounds and the mask of each field: the result is in
-- bounds and has decimal digits, the bits outside the field stay, and the field stays if it was
-- so already and else becomes the lower bound.
pub range_correct_lem :
    (f : Field) (v : ℕ)
    → v < 2 ^ 8
    → (accepts f (correct f v) ≡ true)
      × (correct f v / 2 ^ width f ≡ v / 2 ^ width f)
      × (correct f v % 2 ^ width f ≡ (if accepts f v then v % 2 ^ width f else low f))
range_correct_lem f v h =
    let t = all_below_sound 256 (checked f) v (correct_table f) h in
    let (a, rest) = &&-split _ _ t in
    let (ok, outside) = &&-split _ _ a in (ok, (==_iff _ _).0 outside, (==_iff _ _).0 rest)

-- An accepted byte is left alone.
pub correct_accepted : (f : Field) (v : ℕ) → v < 2 ^ 8 → accepts f v ≡ true → correct f v ≡ v
correct_accepted f v h a =
    let c = range_correct_lem f v h in
    let same : correct f v % 2 ^ width f ≡ v % 2 ^ width f = ground (arith, c.2) in
    sym (div-add-mod' (correct f v) (2 ^ width f))
    ∙ ap₂ (λ q m. q * 2 ^ width f + m) c.1 same
    ∙ div-add-mod' v (2 ^ width f)

second_table :
    all_below 256
      (λ s. let c = correct_second s % 2 ^ 7 in (leb c 0x59 && leb (c % 16) 9) || c == 0x7f)
    ≡ true
unfolding all_below correct_second
second_table = refl

pub correct_second-lem :
    (s : ℕ)
    → s < 2 ^ 8
    → (leb (correct_second s % 2 ^ 7) 0x59 && leb (correct_second s % 2 ^ 7 % 16) 9)
        || (correct_second s % 2 ^ 7 == 0x7f)
      ≡ true
correct_second-lem s h = all_below_sound 256 _ s second_table h
