-- ===== src/Input/Tests.antt =====
-- Runs of the keys, and the theorems at concrete inputs.
use nileswan.Base.{◌+◌, ◌≡◌, refl, false, [], ◌∷◌, some, arith}
use nileswan.Base.{test_bit, replicate, not, ◌||◌, ◌==◌, inl, inr, Bool-cases}
use nileswan.Base.Bits.{all_below, all_below_sound}
use nileswan.Input.{Input, input_update, scan_keys}
use nileswan.Input.Wait.{after_first, input_wait_key, scans_left, input_wait_key_lem}
use nileswan.Input.Laws.{IsOnly}

abbrev idle : Input
idle = record {
  vbl_ticks = 65530;
  input_keys = 0;
  input_keys_repressed = 0;
  input_keys_released = 0;
  input_pressed = 0;
  input_held = 0;
  input_vbls_next = replicate 11 0;
}

-- Key 2 (bit 3) is pressed at tick 65530; 19 interrupts later the tick has wrapped round.
abbrev held : Input
held = record idle {
  vbl_ticks = 13;
  input_keys = 8;
  input_held = 8;
  input_vbls_next = 0 ∷ 0 ∷ 12 ∷ replicate 8 0;
}

first_press : (input_update (record idle { input_keys = 8 })).input_pressed ≡ 8
unfolding input_update
first_press = refl

lowest_key_first : (input_update (record idle { input_keys = 24 })).input_pressed ≡ 8
unfolding input_update
lowest_key_first = refl

IsOnly-key_2 : IsOnly 2 8
unfolding all_below
IsOnly-key_2 = (
  refl,
  λ j other known. elim (Bool-cases (j == 2)) [
    | inl same ↦ absurd (ground arith)
    | inr different ↦
        let checked = all_below_sound 11 (λ j. j == 2 || not (test_bit 8 (j + 1))) j refl known in
        ground arith
  ],
)

input_wait_key_lem_example :
    scans_left (input_wait_key false 1024 (1024 ∷ 0 ∷ 2 ∷ 1026 ∷ 5 ∷ []) idle) ≡ some (5 ∷ [])
unfolding after_first scan_keys
input_wait_key_lem_example = input_wait_key_lem false 1024 (1024 ∷ 0 ∷ 2 ∷ 1026 ∷ 5 ∷ []) idle
