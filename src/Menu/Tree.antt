-- ===== src/Menu/Tree.antt =====
-- The menus of software/userland/src/recovery/main.c: their options, and what the `switch` of each
-- `do_menu` function does with the one that is chosen.
use nileswan.Base.{ℕ, Bool, true, false, List, [], ◌∷◌, Option, none, some, get_elem?}

pub data Menu : Type 0 where
  main_menu console_recovery tf_card_mgmt cartridge_diagnostics cartridge_recovery : Menu
  retention_tests endurance_tests fpga_tests mcu_tests dev_features : Menu

-- The strings that name the options
pub data Label : Type 0 where
  s_console_recovery s_tf_card_mgmt s_cartridge_diagnostics s_cartridge_recovery : Label
  s_run_manufacturing_test s_license s_exit s_dev_features : Label
  s_disable_custom_splash s_restore_tft_data : Label
  s_tf_card_mount s_benchmark_card_read_iram s_benchmark_card_read_sram : Label
  s_benchmark_card_write s_tf_card_format : Label
  s_sram_retention_test1 s_eeprom_retention_test1 : Label
  s_sram_retention_test2 s_eeprom_retention_test2 : Label
  s_rtc_stability_test s_sram_psram_stability_test s_tf_card_stability_test : Label
  s_flash_fsm_test s_sram_32kb_test : Label
  s_mcu_accel_test s_mcu_eeprom_test s_rtc_clock_test s_save_id_test : Label
  s_mcu_status_query s_mcu_usb_cdc_echo : Label
  s_print_cartridge_info s_print_cartridge_info_usb s_print_save_info : Label
  s_retention_tests s_endurance_tests s_fpga_tests s_mcu_tests s_button_test : Label
  s_tf_card_mcu_insert_remove_test : Label
  s_setup_mcu_boot_flags s_flash_mcu_firmware s_dump_mcu_flash s_dump_spi_flash : Label

-- What is called for an option
pub data Action : Type 0 where
  submenu : Menu → Action
  op_ieeprom_disable_custom_splash op_ieeprom_restore_tft_data : Action
  op_tf_card_init op_tf_card_format op_tf_card_benchmark_write : Action
  -- with the buffer in IRAM or not
  op_tf_card_benchmark_read : Bool → Action
  -- the argument `first`
  test_sram_retention test_eeprom_retention : Bool → Action
  test_rtc_stability test_sram_psram_stability test_tf_card_stability : Action
  test_flash_fsm test_sram_32kb test_mcu_accelerometer test_mcu_eeprom : Action
  test_rtc_clock test_mcu_save_id op_mcu_status_query test_mcu_usb_cdc_echo : Action
  -- with the flags of the output by USB or not
  op_id_info_print_manual : Bool → Action
  op_id_print_save_info test_button test_mcu_tf_insert_remove : Action
  op_mcu_setup_boot_flags op_mcu_setup_flash_firmware : Action
  op_mcu_setup_dump_flash op_mcu_setup_dump_spi_flash : Action
  do_mfg_tests print_license nile_soft_reset : Action

-- The arrays of labels; `dev` is CONFIG_ENABLE_DEV_FEATURES.
abbrev pub menu_main : Bool → List Label
menu_main dev =
    s_console_recovery
    ∷ s_tf_card_mgmt
    ∷ s_cartridge_diagnostics
    ∷ s_cartridge_recovery
    ∷ s_run_manufacturing_test
    ∷ s_license
    ∷ s_exit
    ∷ (elim dev [ true ↦ s_dev_features ∷ [] | false ↦ [] ])

abbrev pub menu_console_recovery : List Label
menu_console_recovery = s_disable_custom_splash ∷ s_restore_tft_data ∷ []

abbrev pub menu_card_mgmt : List Label
menu_card_mgmt =
    s_tf_card_mount ∷ s_benchmark_card_read_iram ∷ s_benchmark_card_read_sram
    ∷ s_benchmark_card_write ∷ s_tf_card_format ∷ []

abbrev pub menu_cartridge_diagnostics : List Label
menu_cartridge_diagnostics =
    s_print_cartridge_info ∷ s_print_cartridge_info_usb ∷ s_print_save_info ∷ s_retention_tests
    ∷ s_endurance_tests ∷ s_fpga_tests ∷ s_mcu_tests ∷ s_button_test
    ∷ s_tf_card_mcu_insert_remove_test ∷ []

abbrev pub menu_cartridge_recovery : List Label
menu_cartridge_recovery = s_setup_mcu_boot_flags ∷ s_flash_mcu_firmware ∷ []

abbrev pub menu_retention_tests : List Label
menu_retention_tests =
    s_sram_retention_test1 ∷ s_eeprom_retention_test1 ∷ s_sram_retention_test2
    ∷ s_eeprom_retention_test2 ∷ []

abbrev pub menu_endurance_tests : List Label
menu_endurance_tests =
    s_rtc_stability_test ∷ s_sram_psram_stability_test ∷ s_tf_card_stability_test ∷ []

abbrev pub menu_fpga_tests : List Label
menu_fpga_tests = s_flash_fsm_test ∷ s_sram_32kb_test ∷ []

abbrev pub menu_mcu_tests : List Label
menu_mcu_tests =
    s_mcu_accel_test ∷ s_mcu_eeprom_test ∷ s_rtc_clock_test ∷ s_save_id_test ∷ s_mcu_status_query
    ∷ s_mcu_usb_cdc_echo ∷ []

abbrev pub menu_dev_features : List Label
menu_dev_features = s_dump_mcu_flash ∷ s_dump_spi_flash ∷ []

-- The array of a menu
unfoldable pub options : Bool → Menu → List Label
options dev main_menu = menu_main dev
options dev console_recovery = menu_console_recovery
options dev tf_card_mgmt = menu_card_mgmt
options dev cartridge_diagnostics = menu_cartridge_diagnostics
options dev cartridge_recovery = menu_cartridge_recovery
options dev retention_tests = menu_retention_tests
options dev endurance_tests = menu_endurance_tests
options dev fpga_tests = menu_fpga_tests
options dev mcu_tests = menu_mcu_tests
options dev dev_features = menu_dev_features

-- The `switch` of each menu, whose cases are numbered from 0
abbrev pub do_menu_main : Bool → List Action
do_menu_main dev =
    submenu console_recovery
    ∷ submenu tf_card_mgmt
    ∷ submenu cartridge_diagnostics
    ∷ submenu cartridge_recovery
    ∷ do_mfg_tests
    ∷ print_license
    ∷ nile_soft_reset
    ∷ (elim dev [ true ↦ submenu dev_features ∷ [] | false ↦ [] ])

abbrev pub do_menu_console_recovery : List Action
do_menu_console_recovery = op_ieeprom_disable_custom_splash ∷ op_ieeprom_restore_tft_data ∷ []

abbrev pub do_menu_tf_card_mgmt : List Action
do_menu_tf_card_mgmt =
    op_tf_card_init
    ∷ op_tf_card_benchmark_read true
    ∷ op_tf_card_benchmark_read false
    ∷ op_tf_card_benchmark_write
    ∷ op_tf_card_format
    ∷ []

abbrev pub do_menu_cartridge_diagnostics : List Action
do_menu_cartridge_diagnostics =
    op_id_info_print_manual false
    ∷ op_id_info_print_manual true
    ∷ op_id_print_save_info
    ∷ submenu retention_tests
    ∷ submenu endurance_tests
    ∷ submenu fpga_tests
    ∷ submenu mcu_tests
    ∷ test_button
    ∷ test_mcu_tf_insert_remove
    ∷ []

abbrev pub do_menu_cartridge_recovery : List Action
do_menu_cartridge_recovery = op_mcu_setup_boot_flags ∷ op_mcu_setup_flash_firmware ∷ []

abbrev pub do_menu_retention_tests : List Action
do_menu_retention_tests =
    test_sram_retention true
    ∷ test_eeprom_retention true
    ∷ test_sram_retention false
    ∷ test_eeprom_retention false
    ∷ []

abbrev pub do_menu_endurance_tests : List Action
do_menu_endurance_tests =
    test_rtc_stability ∷ test_sram_psram_stability ∷ test_tf_card_stability ∷ []

abbrev pub do_menu_fpga_tests : List Action
do_menu_fpga_tests = test_flash_fsm ∷ test_sram_32kb ∷ []

abbrev pub do_menu_mcu_tests : List Action
do_menu_mcu_tests =
    test_mcu_accelerometer ∷ test_mcu_eeprom ∷ test_rtc_clock ∷ test_mcu_save_id
    ∷ op_mcu_status_query ∷ test_mcu_usb_cdc_echo ∷ []

abbrev pub do_menu_dev_features : List Action
do_menu_dev_features = op_mcu_setup_dump_flash ∷ op_mcu_setup_dump_spi_flash ∷ []

-- The `switch` of a menu
unfoldable pub cases : Bool → Menu → List Action
cases dev main_menu = do_menu_main dev
cases dev console_recovery = do_menu_console_recovery
cases dev tf_card_mgmt = do_menu_tf_card_mgmt
cases dev cartridge_diagnostics = do_menu_cartridge_diagnostics
cases dev cartridge_recovery = do_menu_cartridge_recovery
cases dev retention_tests = do_menu_retention_tests
cases dev endurance_tests = do_menu_endurance_tests
cases dev fpga_tests = do_menu_fpga_tests
cases dev mcu_tests = do_menu_mcu_tests
cases dev dev_features = do_menu_dev_features

-- `none` is the `default`.
abbrev pub action : Bool → Menu → Option ℕ → Option Action
action dev m none = none
action dev m (some i) = get_elem? (cases dev m) i

-- A `do_menu` function that runs, with its variable `option`; the innermost comes first.
pub record Frame : Type 0 where
  pub menu : Menu
  pub option : Option ℕ

abbrev pub start_frame : Menu → Frame
start_frame m = record { menu = m; option = some 0 }

-- `default: return;`, which the main menu does not have
abbrev pub leave : List Frame → List Frame
leave [] = []
leave (f ∷ []) = f ∷ []
leave (f ∷ g ∷ rest) = g ∷ rest

abbrev pub submenu_of : Action → Option Menu
submenu_of (submenu m) = some m
submenu_of _ = none

abbrev pub obey_action : Frame → List Frame → Action → Option Menu → List Frame × Option Action
obey_action f rest a none = (f ∷ rest, some a)
obey_action f rest a (some m) = (start_frame m ∷ f ∷ rest, none)

abbrev pub obey : Frame → List Frame → Option Action → List Frame × Option Action
obey f rest none = (leave (f ∷ rest), none)
obey f rest (some a) = obey_action f rest a (submenu_of a)

-- One round of the innermost `while`: the frames after it, and what else is called
unfoldable pub choose : Bool → Option ℕ → List Frame → List Frame × Option Action
unfolding cases
choose dev result [] = ([], none)
choose dev result (f ∷ rest) = obey (record f { option = result }) rest (action dev f.menu result)
