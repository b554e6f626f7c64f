-- ===== src/Menu/Tests.antt =====
-- Runs of the menus, and the theorems at concrete choices.
use nileswan.Base.{◌≡◌, refl, ◌≤◌, Bool, true, false, List, [], ◌∷◌, none, some}
use nileswan.Base.{length, ◌++◌}
use nileswan.Menu.Mfg.{
  Check, Step, check, alert_mode_set, input_wait_any_key, alert_alert, alert_none,
  op_mcu_setup_boot_flags, op_mcu_setup_flash_firmware, test_flash_fsm, test_rtc_clock,
  test_mcu_eeprom, test_mcu_save_id, op_tf_card_test, test_mcu_accelerometer, test_button,
  op_id_print, mfg_steps, all_pass,
}
use nileswan.Menu.{Keys, menu_run}
use nileswan.Menu.Tree.{Frame, start_frame, choose, main_menu, mcu_tests}
use nileswan.Menu.Tree.{cartridge_diagnostics, test_mcu_save_id}
use nileswan.Menu.Nested.{AreNested, choose_all, choose_all_nested}

abbrev no_key : Keys
no_key = record { up = false; down = false; a = false; b = false }

-- Up from the first option goes to the last.
abbrev up_and_a : List Keys
up_and_a = no_key ∷ record no_key { up = true } ∷ record no_key { a = true } ∷ []

last_of_five : menu_run 5 up_and_a (some 9) ≡ some (some 4)
unfolding menu_run
last_of_five = refl

both_ways : menu_run 5 (record no_key { up = true; down = true; b = true } ∷ []) none ≡ some none
unfolding menu_run
both_ways = refl

abbrev opened : List Frame
opened = start_frame mcu_tests ∷ start_frame cartridge_diagnostics ∷ start_frame main_menu ∷ []

fourth_test : (choose false (some 3) opened).1 ≡ some test_mcu_save_id
unfolding choose
fourth_test = refl

choose_all_nested_example :
    AreNested (choose_all true (some 2 ∷ some 6 ∷ none ∷ none ∷ []) (start_frame main_menu ∷ []))
    × (length (choose_all true (some 2 ∷ some 6 ∷ none ∷ none ∷ []) (start_frame main_menu ∷ []))
        ≤ 3)
choose_all_nested_example =
    choose_all_nested true (some 2 ∷ some 6 ∷ none ∷ none ∷ []) (start_frame main_menu ∷ [])
      (refl, tt)

-- The save ID test fails on a board of revision 0.
abbrev bad_save_id : Check → Bool
bad_save_id test_mcu_save_id = false
bad_save_id _ = true

abbrev before_save_id : List Step
before_save_id =
    check op_mcu_setup_boot_flags
    ∷ check op_mcu_setup_flash_firmware
    ∷ check test_flash_fsm
    ∷ check test_rtc_clock
    ∷ check test_mcu_eeprom
    ∷ []

abbrev after_save_id : List Step
after_save_id =
    check op_tf_card_test
    ∷ alert_mode_set alert_alert
    ∷ input_wait_any_key
    ∷ alert_mode_set alert_none
    ∷ check test_mcu_accelerometer
    ∷ check test_button
    ∷ check op_id_print
    ∷ []

revision_0 : mfg_steps 0 ≡ before_save_id ++ (check test_mcu_save_id ∷ after_save_id)
unfolding mfg_steps
revision_0 = refl

all_before : all_pass bad_save_id before_save_id ≡ true
unfolding all_pass
all_before = refl
