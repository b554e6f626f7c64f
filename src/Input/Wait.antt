-- ===== src/Input/Wait.antt =====
-- input_wait_clear, input_wait_key and input_wait_any_key of software/userland/src/shared/input.c,
-- over the scans of the key pad that the interrupts to come will see.
use nileswan.Base.{ℕ, Bool, List, [], ◌∷◌, Option, none, some, ◌==◌, ◌!=◌, bit_and}
use Prim.Native.Nat.{bit_or-bitwise}
use nileswan.Base.{if◌then◌else◌, ◌≡◌, refl, ap, ◌∙◌, Bool-cases, inl, inr}
use nileswan.Input.{Input, scan_keys, vblank_int_handler, input_reset, input_update}

module _ (is_pcv2 : Bool) where
  -- `do { input_reset(); wait_for_vblank(); } while (…)`: there is no end without a scan that meets
  -- the condition.
  unfoldable pub wait_until : (Input → Bool) → List ℕ → Input → Option (Input × List ℕ)
  wait_until met [] s = none
  wait_until met (scan ∷ scans) s =
      let s' = vblank_int_handler is_pcv2 scan (input_reset s) in
      let rest = wait_until met scans s' in if met s' then some (s', scans) else rest

  abbrev pub then_update : Option (Input × List ℕ) → Option (Input × List ℕ)
  then_update none = none
  then_update (some (s, scans)) = some (input_update s, scans)

  unfoldable pub input_wait_clear : List ℕ → Input → Option (Input × List ℕ)
  unfolding wait_until
  input_wait_clear scans s = then_update (wait_until (λ s. s.input_keys == 0) scans s)

  abbrev pub after_clear : (Input → Bool) → Option (Input × List ℕ) → Option (Input × List ℕ)
  after_clear met none = none
  after_clear met (some (s, scans)) = then_update (wait_until met scans s)

  unfoldable pub input_wait_key : ℕ → List ℕ → Input → Option (Input × List ℕ)
  unfolding input_wait_clear
  input_wait_key key scans s =
      after_clear (λ s. bit_and s.input_keys key == key) (input_wait_clear scans s)

  unfoldable pub input_wait_any_key : List ℕ → Input → Option (Input × List ℕ)
  unfolding input_wait_clear
  input_wait_any_key scans s = after_clear (λ s. s.input_keys != 0) (input_wait_clear scans s)

-- The scans that are left after the first that passes a test
unfoldable pub after_first : (ℕ → Bool) → List ℕ → Option (List ℕ)
after_first test [] = none
after_first test (scan ∷ scans) =
    let rest = after_first test scans in if test scan then some scans else rest

abbrev pub after_both : (ℕ → Bool) → (ℕ → Bool) → List ℕ → Option (List ℕ)
after_both first second scans = elim (after_first first scans) [
  | none ↦ none
  | some rest ↦ after_first second rest
]

abbrev pub scans_left : Option (Input × List ℕ) → Option (List ℕ)
scans_left none = none
scans_left (some (s, scans)) = some scans

module _ (is_pcv2 : Bool) where
  vblank_keys :
      (scan : ℕ) (s : Input)
      → (vblank_int_handler is_pcv2 scan (input_reset s)).input_keys ≡ scan_keys is_pcv2 scan
  unfolding vblank_int_handler
  vblank_keys scan s = simp bit_or-bitwise refl

  left-wait_until :
      (test : ℕ → Bool) (scans : List ℕ) (s : Input)
      → scans_left (wait_until is_pcv2 (λ s. test s.input_keys) scans s)
        ≡ after_first (λ scan. test (scan_keys is_pcv2 scan)) scans
  unfolding wait_until after_first
  left-wait_until test [] s = refl
  left-wait_until test (scan ∷ scans) s =
      let keys = ap test (vblank_keys scan s) in
      elim (Bool-cases (test (scan_keys is_pcv2 scan))) [
        | inl met ↦ rw (keys, met) refl
        | inr unmet ↦ rw (keys, unmet) (left-wait_until test scans _)
      ]

  left-then_update :
      (o : Option (Input × List ℕ)) → scans_left (then_update is_pcv2 o) ≡ scans_left o
  left-then_update none = refl
  left-then_update (some (s, scans)) = refl

  left-after_clear :
      (test : ℕ → Bool) (o : Option (Input × List ℕ))
      → scans_left (after_clear is_pcv2 (λ s. test s.input_keys) o) ≡ (elim (scans_left o) [
        | none ↦ none
        | some rest ↦ after_first (λ scan. test (scan_keys is_pcv2 scan)) rest
      ])
  left-after_clear test none = refl
  left-after_clear test (some (s, scans)) =
      left-then_update (wait_until is_pcv2 (λ s. test s.input_keys) scans s)
      ∙ left-wait_until test scans s

  -- Waiting for a key returns at the first scan that has all the bits of the key after the first scan
  -- with no key down, and at no other; without such scans it waits on.
  pub input_wait_key_lem :
      (key : ℕ) (scans : List ℕ) (s : Input)
      → scans_left (input_wait_key is_pcv2 key scans s)
        ≡ after_both
            (λ scan. scan_keys is_pcv2 scan == 0)
            (λ scan. bit_and (scan_keys is_pcv2 scan) key == key)
            scans
  unfolding input_wait_key input_wait_clear
  input_wait_key_lem key scans s =
      left-after_clear (λ keys. bit_and keys key == key) (input_wait_clear is_pcv2 scans s)
      ∙ ap
          (λ o. elim o [
            | none ↦ none
            | some rest ↦ after_first (λ scan. bit_and (scan_keys is_pcv2 scan) key == key) rest
          ])
          (left-then_update (wait_until is_pcv2 (λ s. s.input_keys == 0) scans s)
            ∙ left-wait_until (λ keys. keys == 0) scans s)
