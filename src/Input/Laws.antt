-- ===== src/Input/Laws.antt =====
-- The key repeat, the remapping and the waits of software/userland/src/shared/input.c.
use native.Mathlib.Nat.{one-le-pow}
use nileswan.Base.{ℕ, zero, suc, ◌+◌, ◌-◌, ◌/◌, ◌^◌, ◌≤◌, ◌<◌, ◌≡◌, refl, ◌≢◌, ◌⊎◌, inl, inr}
use nileswan.Base.{true, false, arith}
use nileswan.Base.{test_bit, set_bit, clear_field, get_or, u8, u16, if◌then◌else◌, Bool-cases, ap}
use nileswan.Base.{◌==◌, ==_iff, sym, ◌∙◌, leb, and_field, ◌<<<◌, ◌>>>◌}
use nileswan.Base.Bits.{all_below, all_below_sound}
use nileswan.Input.{Input, remap_pcv2}
use nileswan.Input.{report_key, release_key, not_due, held_key, check_key, check_keys}
use nileswan.Input.{input_update, key_count, joy_repeat_delay_next}

set_bit-zero : (k : ℕ) → set_bit 0 k ≡ 2 ^ k
set_bit-zero k =
    let none_set : 0 / 2 ^ k ≡ 0 = omega (arith, one-le-pow k 2) in rw none_set (omega arith)

-- What one round of the loop can report
abbrev Reported : ℕ → Input → Input → Type 0
Reported i s s' =
    (s'.input_pressed ≡ 0)
    ⊎ ((s'.input_pressed ≡ 2 ^ (i + 1)) × (test_bit s.input_keys (i + 1) ≡ true))

check_key_reports :
    (i : ℕ) (s : Input)
    → s.input_pressed ≡ 0
    → ((check_key i s).0.input_keys ≡ s.input_keys)
      × (((check_key i s).1 ≡ true) × ((check_key i s).0.input_pressed ≡ 0)
          ⊎ ((check_key i s).1 ≡ false) × Reported i s (check_key i s).0)
unfolding check_key held_key
check_key_reports i s h =
    let one : set_bit s.input_pressed (i + 1) ≡ 2 ^ (i + 1) =
      ap (λ p. set_bit p (i + 1)) h ∙ set_bit-zero (i + 1) in
    ground arith

-- Nothing, or one of the keys from `i` on that are down
abbrev pub OneKey : ℕ → ℕ → ℕ → ℕ → Type 0
OneKey i top keys pressed =
    (pressed ≡ 0)
    ⊎ ((j : ℕ) × (i ≤ j) × (j < top) × (pressed ≡ 2 ^ (j + 1)) × (test_bit keys (j + 1) ≡ true))

check_keys-OneKey :
    (n i : ℕ) (s : Input)
    → s.input_pressed ≡ 0
    → OneKey i (i + n) s.input_keys (check_keys n i s).input_pressed
unfolding check_keys
check_keys-OneKey zero i s h = inl h
check_keys-OneKey (suc n) i s h =
    let (keys, outcome) = check_key_reports i s h in
    let (s', more) = check_key i s in
    elim outcome [
      | inl (go_on, none_yet) ↦
          let later = check_keys-OneKey n (i + 1) s' none_yet in
          rw go_on (elim later [
            | inl silent ↦ inl silent
            | inr (j, from, below, pressed, down) ↦ inr (
              j,
              omega arith,
              omega arith,
              pressed,
              ap (λ k. test_bit k (j + 1)) (sym keys) ∙ down,
            )
          ])
      | inr (stop, inl silent) ↦ rw stop (inl silent)
      | inr (stop, inr (pressed, down)) ↦ rw stop (inr (i, omega arith, omega arith, pressed, down))
    ]

-- An update reports no key, or one key that is down: never two at a time.
pub input_update-OneKey :
    (s : Input) → OneKey 0 key_count s.input_keys (input_update s).input_pressed
unfolding input_update
input_update-OneKey s = check_keys-OneKey key_count 0 (record s { input_pressed = 0 }) refl

-- Key `i` is down, and no other.
abbrev pub IsOnly : ℕ → ℕ → Type 0
IsOnly i x =
    (test_bit x (i + 1) ≡ true) × ((j : ℕ) → j ≢ i → j < key_count → test_bit x (j + 1) ≡ false)

release_up : (k : ℕ) (s : Input) → test_bit s.input_held (k + 1) ≡ false → release_key k s ≡ s
release_up k s h =
    let same : clear_field s.input_held (k + 1) 1 ≡ s.input_held = ground arith in
    ap (λ held. record s { input_held = held }) same

-- The keys from `k` on that are up report nothing.
check_keys_up :
    (n k : ℕ) (s : Input)
    → ((j : ℕ) → k ≤ j → j < k + n → test_bit s.input_keys (j + 1) ≡ false)
    → (check_keys n k s).input_pressed ≡ s.input_pressed
unfolding check_keys check_key
check_keys_up zero k s up = refl
check_keys_up (suc n) k s up =
    let here = up k (omega arith) (omega arith) in
    rw here
      (check_keys_up n (k + 1) (release_key k s) (λ j from below. up j (omega arith) (omega arith)))

-- Key `i` has been held for `d` interrupts since it was last reported, at tick `t`, after which the
-- next report was due `delay` ticks later. It is the only key down and the only one held.
abbrev pub IsHeld : ℕ → ℕ → ℕ → ℕ → Input → Type 0
IsHeld i t delay d s =
    IsOnly i s.input_keys
    × IsOnly i s.input_held
    × (test_bit s.input_keys_repressed (i + 1) ≡ false)
    × (test_bit s.input_keys_released (i + 1) ≡ false)
    × (get_or s.input_vbls_next i 0 ≡ u8 (t + delay))
    × (s.vbl_ticks ≡ u16 (t + d))

not_due_lem :
    (i t delay d : ℕ) (s : Input)
    → get_or s.input_vbls_next i 0 ≡ u8 (t + delay)
    → s.vbl_ticks ≡ u16 (t + d)
    → delay < 128
    → d ≤ delay + 127
    → not_due i s ≡ leb d delay
unfolding not_due
not_due_lem i t delay d s next ticks small recent =
    let e : u8 (get_or s.input_vbls_next i 0 + 2 ^ 16 - s.vbl_ticks) ≡ u8 (delay + 256 - d) =
      omega arith in
    rw e (ground arith)

check_key_held :
    (i t delay d : ℕ) (s : Input)
    → IsHeld i t delay d s
    → check_key i s
      ≡ (if not_due i s then (s, true) else (report_key i joy_repeat_delay_next s, false))
unfolding check_key held_key
check_key_held i t delay d s
      ((down, others), (held, held_others), repressed, released, next, ticks) =
    rw (down, repressed, held, released) refl

check_keys_at :
    (n i t delay d : ℕ) (s : Input)
    → i + suc n ≡ key_count
    → s.input_pressed ≡ 0
    → IsHeld i t delay d s
    → (check_keys (suc n) i s).input_pressed ≡ (if not_due i s then 0 else 2 ^ (i + 1))
unfolding check_keys
check_keys_at n i t delay d s top silent h = elim (Bool-cases (not_due i s)) [
  | inl early ↦
      rw (check_key_held i t delay d s h, early)
        (check_keys_up n (i + 1) s (λ j from below. (h.0).1 j (omega arith) (omega arith)) ∙ silent)
  | inr due ↦
      rw (check_key_held i t delay d s h, due)
        (ap (λ p. set_bit p (i + 1)) silent ∙ set_bit-zero (i + 1))
]

check_keys_below :
    (n k : ℕ) (s : Input)
    → test_bit s.input_keys (k + 1) ≡ false
    → test_bit s.input_held (k + 1) ≡ false
    → check_keys (suc n) k s ≡ check_keys n (k + 1) s
unfolding check_keys check_key
check_keys_below n k s up free = rw up (ap (check_keys n (k + 1)) (release_up k s free))

check_keys_held :
    (m n k i t delay d : ℕ) (s : Input)
    → k + m ≡ i
    → i + suc n ≡ key_count
    → s.input_pressed ≡ 0
    → IsHeld i t delay d s
    → (check_keys (m + suc n) k s).input_pressed ≡ (if not_due i s then 0 else 2 ^ (i + 1))
check_keys_held zero n k i t delay d s e top silent h =
    let here : k ≡ i = omega arith in
    let count : 0 + suc n ≡ suc n = omega arith in
    ap (λ c. (check_keys c k s).input_pressed) count
    ∙ ap (λ j. (check_keys (suc n) j s).input_pressed) here
    ∙ check_keys_at n i t delay d s top silent h
check_keys_held (suc m) n k i t delay d s e top silent h =
    let count : suc m + suc n ≡ suc (m + suc n) = omega arith in
    ap (λ c. (check_keys c k s).input_pressed) count
    ∙ ap (λ u. u.input_pressed)
        (check_keys_below (m + suc n) k s ((h.0).1 k (omega arith) (omega arith))
          ((h.1).1 k (omega arith) (omega arith)))
    ∙ check_keys_held m n (k + 1) i t delay d s (omega arith) top silent h

-- A key that is held alone is reported again in the first update that is more than the delay after
-- its last report, and not before, in the 127 interrupts after that.
pub input_update_repeats :
    (i t delay d : ℕ) (s : Input)
    → i < key_count
    → delay < 128
    → d ≤ delay + 127
    → IsHeld i t delay d s
    → (input_update s).input_pressed ≡ (if leb d delay then 0 else 2 ^ (i + 1))
unfolding input_update
input_update_repeats i t delay d s known small recent h =
    let count : i + suc (10 - i) ≡ key_count = omega arith in
    ap (λ c. (check_keys c 0 (record s { input_pressed = 0 })).input_pressed) (sym count)
    ∙ check_keys_held i (10 - i) 0 i t delay d (record s { input_pressed = 0 }) (omega arith) count
        refl h
    ∙ ap (λ b. if b then 0 else 2 ^ (i + 1))
        (not_due_lem i t delay d s ((h.4)) ((h.5)) small recent)

-- The key of a Pocket Challenge V2 that a bit came from
abbrev pub unmap : ℕ → ℕ
unmap keys =
    (and_field keys 3 1 <<< 8)
    + (and_field keys 2 1 <<< 8)
    + (and_field keys 12 1 >>> 4)
    + (and_field keys 5 1 <<< 2)
    + (and_field keys 1 1 <<< 5)
    + (and_field keys 8 1 >>> 4)
    + (and_field keys 4 1 >>> 1)
    + (and_field keys 6 1 >>> 4)
    + (and_field keys 7 1 >>> 7)

-- The remapping of the Pocket Challenge V2 loses no key and lets no two fall together: every scan of
-- 12 bits comes back from it, but for the bits 1, 5 and 9, which are no keys.
pub unmap-remap_pcv2 :
    (keys : ℕ)
    → keys < 2 ^ 12
    → unmap (remap_pcv2 keys) ≡ clear_field (clear_field (clear_field keys 1 1) 5 1) 9 1
unfolding remap_pcv2 all_below
unmap-remap_pcv2 keys h = (==_iff _ _).0 (
    all_below_sound (2 ^ 12)
      (λ keys. unmap (remap_pcv2 keys) == clear_field (clear_field (clear_field keys 1 1) 5 1) 9 1)
      keys refl h)
