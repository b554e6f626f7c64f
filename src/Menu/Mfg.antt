-- ===== src/Menu/Mfg.antt =====
-- The manufacturing test of the recovery program: run_mfg_tests and do_mfg_tests of
-- software/userland/src/recovery/main.c. What it prints is left out.
use nileswan.Base.{
  ℕ, Bool, true, false, List, [], ◌∷◌, ◌++◌, leb, if◌then◌else◌, ◌≡◌, refl, ap, ◌∙◌, ◌&&◌,
}
use nileswan.Base.{Bool-cases, inl, inr, arith}

-- The operations and tests that may fail
pub data Check : Type 0 where
  op_mcu_setup_boot_flags op_mcu_setup_flash_firmware : Check
  test_flash_fsm test_rtc_clock test_mcu_eeprom test_mcu_save_id op_tf_card_test test_sram_32kb :
      Check
  test_mcu_accelerometer test_button op_id_print : Check

-- `alert_mode_t`
pub data Alert : Type 0 where
  alert_none alert_alert alert_pass alert_fail : Alert

pub data Step : Type 0 where
  check : Check → Step
  alert_mode_set : Alert → Step
  input_wait_any_key : Step

-- What `run_mfg_tests` does, as long as nothing fails
unfoldable pub mfg_steps : ℕ → List Step
mfg_steps board_rev =
    check op_mcu_setup_boot_flags
      ∷ check op_mcu_setup_flash_firmware
      ∷ check test_flash_fsm
      ∷ check test_rtc_clock
      ∷ check test_mcu_eeprom
      ∷ check test_mcu_save_id
      ∷ check op_tf_card_test
      ∷ (if leb 1 board_rev then check test_sram_32kb ∷ [] else [])
    ++ (alert_mode_set alert_alert
        ∷ input_wait_any_key
        ∷ alert_mode_set alert_none
        ∷ check test_mcu_accelerometer
        ∷ check test_button
        ∷ check op_id_print
        ∷ [])

module _ (results : Check → Bool) where
  abbrev pub passes : Step → Bool
  passes (check c) = results c
  passes _ = true

  -- `if (!…) return false;`: the steps that are done, and the result
  unfoldable pub run_steps : List Step → List Step × Bool
  run_steps [] = ([], true)
  run_steps (step ∷ more) =
      let (done, result) = run_steps more in
      if passes step then (step ∷ done, result) else (step ∷ [], false)

  unfoldable pub run_mfg_tests : ℕ → List Step × Bool
  unfolding mfg_steps run_steps
  run_mfg_tests board_rev = run_steps (mfg_steps board_rev)

  -- `do_mfg_tests`
  unfoldable pub do_mfg_tests : ℕ → List Step
  unfolding run_mfg_tests
  do_mfg_tests board_rev =
      let (done, pass) = run_mfg_tests board_rev in
      done
      ++ (alert_mode_set (if pass then alert_pass else alert_fail)
          ∷ input_wait_any_key
          ∷ alert_mode_set alert_none
          ∷ [])

  unfoldable pub all_pass : List Step → Bool
  all_pass [] = true
  all_pass (step ∷ more) = let later = all_pass more in passes step && later

  run_steps_stops :
      (before after : List Step) (c : Check)
      → all_pass before ≡ true
      → results c ≡ false
      → run_steps (before ++ (check c ∷ after)) ≡ (before ++ (check c ∷ []), false)
  unfolding run_steps all_pass
  run_steps_stops [] after c passed failed = rw failed refl
  run_steps_stops (step ∷ before) after c passed failed = elim (Bool-cases (passes step)) [
    | inl first ↦
        let others : all_pass before ≡ true = ground (arith, passed, first) in
        rw first (ap (λ r. (step ∷ r.0, r.1)) (run_steps_stops before after c others failed))
    | inr fails ↦ absurd (ground (arith, passed, fails))
  ]

  -- When every step before a test passes and that test fails, it is the last that is run, the
  -- result is false, and do_mfg_tests alerts of the failure.
  pub do_mfg_tests_stops :
      (board_rev : ℕ) (before after : List Step) (c : Check)
      → mfg_steps board_rev ≡ before ++ (check c ∷ after)
      → all_pass before ≡ true
      → results c ≡ false
      → do_mfg_tests board_rev
        ≡ (before ++ (check c ∷ []))
          ++ (alert_mode_set alert_fail ∷ input_wait_any_key ∷ alert_mode_set alert_none ∷ [])
  unfolding do_mfg_tests run_mfg_tests
  do_mfg_tests_stops board_rev before after c steps passed failed =
      ap
        (λ r.
          r.0
          ++ (alert_mode_set (if r.1 then alert_pass else alert_fail)
              ∷ input_wait_any_key
              ∷ alert_mode_set alert_none
              ∷ []))
        (ap run_steps steps ∙ run_steps_stops before after c passed failed)
