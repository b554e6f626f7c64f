-- ===== src/Menu/Laws.antt =====
-- The menus of software/userland/src/recovery/main.c and menu.c.
use nileswan.Base.{ℕ, zero, suc, ◌≡◌, refl, ap, ◌∙◌, Bool, true, false, List, [], ◌∷◌}
use nileswan.Base.{Option, none, some, get_elem?}
use nileswan.Menu.Tree.{main_menu, console_recovery, tf_card_mgmt}
use nileswan.Menu.Tree.{cartridge_diagnostics, cartridge_recovery, retention_tests}
use nileswan.Menu.Tree.{endurance_tests, fpga_tests, mcu_tests, dev_features}
use nileswan.Menu.Tree.{s_console_recovery, s_tf_card_mgmt, s_cartridge_diagnostics}
use nileswan.Menu.Tree.{s_cartridge_recovery, s_run_manufacturing_test, s_license}
use nileswan.Menu.Tree.{s_exit, s_dev_features, s_disable_custom_splash}
use nileswan.Menu.Tree.{s_restore_tft_data, s_tf_card_mount}
use nileswan.Menu.Tree.{s_benchmark_card_read_iram, s_benchmark_card_read_sram}
use nileswan.Menu.Tree.{s_benchmark_card_write, s_tf_card_format}
use nileswan.Menu.Tree.{s_sram_retention_test1, s_eeprom_retention_test1}
use nileswan.Menu.Tree.{s_sram_retention_test2, s_eeprom_retention_test2}
use nileswan.Menu.Tree.{s_rtc_stability_test, s_sram_psram_stability_test}
use nileswan.Menu.Tree.{s_tf_card_stability_test, s_flash_fsm_test, s_sram_32kb_test}
use nileswan.Menu.Tree.{s_mcu_accel_test, s_mcu_eeprom_test, s_rtc_clock_test}
use nileswan.Menu.Tree.{s_save_id_test, s_mcu_status_query, s_mcu_usb_cdc_echo}
use nileswan.Menu.Tree.{s_print_cartridge_info, s_print_cartridge_info_usb}
use nileswan.Menu.Tree.{s_print_save_info, s_retention_tests, s_endurance_tests}
use nileswan.Menu.Tree.{s_fpga_tests, s_mcu_tests, s_button_test}
use nileswan.Menu.Tree.{s_tf_card_mcu_insert_remove_test, s_setup_mcu_boot_flags}
use nileswan.Menu.Tree.{s_flash_mcu_firmware, s_dump_mcu_flash, s_dump_spi_flash}
use nileswan.Menu.Tree.{submenu, op_ieeprom_disable_custom_splash}
use nileswan.Menu.Tree.{op_ieeprom_restore_tft_data, op_tf_card_init}
use nileswan.Menu.Tree.{op_tf_card_format, op_tf_card_benchmark_write}
use nileswan.Menu.Tree.{op_tf_card_benchmark_read, test_sram_retention}
use nileswan.Menu.Tree.{test_eeprom_retention, test_rtc_stability}
use nileswan.Menu.Tree.{test_sram_psram_stability, test_tf_card_stability}
use nileswan.Menu.Tree.{test_flash_fsm, test_sram_32kb, test_mcu_accelerometer}
use nileswan.Menu.Tree.{test_mcu_eeprom, test_rtc_clock, test_mcu_save_id}
use nileswan.Menu.Tree.{op_mcu_status_query, test_mcu_usb_cdc_echo}
use nileswan.Menu.Tree.{op_id_info_print_manual, op_id_print_save_info, test_button}
use nileswan.Menu.Tree.{test_mcu_tf_insert_remove, op_mcu_setup_boot_flags}
use nileswan.Menu.Tree.{op_mcu_setup_flash_firmware, op_mcu_setup_dump_flash}
use nileswan.Menu.Tree.{op_mcu_setup_dump_spi_flash, do_mfg_tests, print_license}
use nileswan.Menu.Tree.{nile_soft_reset, Menu, Label, Action, options, cases, action}

-- What each label says
unfoldable pub meaning : Label → Action
meaning s_console_recovery = submenu console_recovery
meaning s_tf_card_mgmt = submenu tf_card_mgmt
meaning s_cartridge_diagnostics = submenu cartridge_diagnostics
meaning s_cartridge_recovery = submenu cartridge_recovery
meaning s_run_manufacturing_test = do_mfg_tests
meaning s_license = print_license
meaning s_exit = nile_soft_reset
meaning s_dev_features = submenu dev_features
meaning s_disable_custom_splash = op_ieeprom_disable_custom_splash
meaning s_restore_tft_data = op_ieeprom_restore_tft_data
meaning s_tf_card_mount = op_tf_card_init
meaning s_benchmark_card_read_iram = op_tf_card_benchmark_read true
meaning s_benchmark_card_read_sram = op_tf_card_benchmark_read false
meaning s_benchmark_card_write = op_tf_card_benchmark_write
meaning s_tf_card_format = op_tf_card_format
meaning s_sram_retention_test1 = test_sram_retention true
meaning s_eeprom_retention_test1 = test_eeprom_retention true
meaning s_sram_retention_test2 = test_sram_retention false
meaning s_eeprom_retention_test2 = test_eeprom_retention false
meaning s_rtc_stability_test = test_rtc_stability
meaning s_sram_psram_stability_test = test_sram_psram_stability
meaning s_tf_card_stability_test = test_tf_card_stability
meaning s_flash_fsm_test = test_flash_fsm
meaning s_sram_32kb_test = test_sram_32kb
meaning s_mcu_accel_test = test_mcu_accelerometer
meaning s_mcu_eeprom_test = test_mcu_eeprom
meaning s_rtc_clock_test = test_rtc_clock
meaning s_save_id_test = test_mcu_save_id
meaning s_mcu_status_query = op_mcu_status_query
meaning s_mcu_usb_cdc_echo = test_mcu_usb_cdc_echo
meaning s_print_cartridge_info = op_id_info_print_manual false
meaning s_print_cartridge_info_usb = op_id_info_print_manual true
meaning s_print_save_info = op_id_print_save_info
meaning s_retention_tests = submenu retention_tests
meaning s_endurance_tests = submenu endurance_tests
meaning s_fpga_tests = submenu fpga_tests
meaning s_mcu_tests = submenu mcu_tests
meaning s_button_test = test_button
meaning s_tf_card_mcu_insert_remove_test = test_mcu_tf_insert_remove
meaning s_setup_mcu_boot_flags = op_mcu_setup_boot_flags
meaning s_flash_mcu_firmware = op_mcu_setup_flash_firmware
meaning s_dump_mcu_flash = op_mcu_setup_dump_flash
meaning s_dump_spi_flash = op_mcu_setup_dump_spi_flash

unfoldable pub map_option : (Label → Action) → Option Label → Option Action
map_option f none = none
map_option f (some l) = some (f l)

unfoldable pub meanings : List Label → List Action
unfolding meaning
meanings [] = []
meanings (l ∷ ls) = meaning l ∷ meanings ls

get_elem?-meanings :
    (ls : List Label) (i : ℕ) → get_elem? (meanings ls) i ≡ map_option meaning (get_elem? ls i)
unfolding meanings map_option
get_elem?-meanings [] i = refl
get_elem?-meanings (l ∷ ls) zero = refl
get_elem?-meanings (l ∷ ls) (suc i) = get_elem?-meanings ls i

cases-meanings : (dev : Bool) (m : Menu) → cases dev m ≡ meanings (options dev m)
unfolding cases meanings options
cases-meanings true main_menu = refl
cases-meanings false main_menu = refl
cases-meanings dev console_recovery = refl
cases-meanings dev tf_card_mgmt = refl
cases-meanings dev cartridge_diagnostics = refl
cases-meanings dev cartridge_recovery = refl
cases-meanings dev retention_tests = refl
cases-meanings dev endurance_tests = refl
cases-meanings dev fpga_tests = refl
cases-meanings dev mcu_tests = refl
cases-meanings dev dev_features = refl

-- In every menu, and in both builds, the option that is chosen calls what its label says, and a number
-- without a label calls nothing.
pub action-meaning :
    (dev : Bool) (m : Menu) (i : ℕ)
    → action dev m (some i) ≡ map_option meaning (get_elem? (options dev m) i)
action-meaning dev m i =
    ap (λ xs. get_elem? xs i) (cases-meanings dev m) ∙ get_elem?-meanings (options dev m) i
