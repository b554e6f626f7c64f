-- ===== src/Native/State.antt =====
-- The state that native commands reach, what the hardware and the USB stack answer, and the
-- operations of mcu.c and spi.c that the commands call.
use nileswan.Base.{
  ℕ, ◌/◌, Bool, true, false, not, ◌&&◌, List, Option, some, u8, ◌==◌, leb, if◌then◌else◌,
}
use nileswan.Eeprom.{Eeprom}
use nileswan.Rtc.State.{Rtc, Board}
use nileswan.Accel.{Accel, adjust_i2c_timing, accel_deinit}
use nileswan.Usb.{Usb, wanted, Shutdown, shutdown}
use nileswan.Clock.{Clock, Target, choose, apply_target}
use nileswan.Rtc.State.{ClockSource, lsi}

-- The names of the commands in `switch (SPI_NATIVE_CMD(spi_cmd))`; `no_command` is `default`.
pub data NativeCommand : Type 0 where
  echo mode freq id info reg_read reg_write version : NativeCommand
  eeprom_mode eeprom_erase eeprom_write eeprom_read eeprom_get_mode : NativeCommand
  rtc_command set_save_id get_save_id : NativeCommand
  cdc_read cdc_write cdc_flush cdc_available hid_write : NativeCommand
  accel_poll accel_read no_command : NativeCommand

pub data Register : Type 0 where
  irq_enable irq_status irq_status_autoack no_register : Register

-- What the answer to `info` tells.
pub record Info : Type 0 where
  pub bat_voltage : ℕ
  pub has_accel : Bool
  pub rtc_lse : Bool
  pub rtc_enabled : Bool
  pub usb_detect : Bool
  pub usb_connect : Bool
  pub battery_ok : Bool

-- nile/mcu/protocol.h of libnile
pub record Protocol : Type 0 where
  pub command_of : ℕ → NativeCommand
  pub register_of : ℕ → Register
  pub info_bytes : Info → List ℕ
  pub version_bytes : ℕ → ℕ → List ℕ

-- The functions of the USB stack, TinyUSB, over its own state, and the numbers of a hat.
pub record Stack (U : Type 0) : Type 0 where
  pub cdc_connected : U → Bool
  pub cdc_receive : ℕ → U → List ℕ × U
  pub cdc_send : List ℕ → U → ℕ × U
  pub cdc_write_flush : U → U
  pub cdc_write_clear : U → U
  pub cdc_read_flush : U → U
  pub cdc_waiting : U → ℕ
  pub is_mounted : U → Bool
  pub is_active : U → Bool
  pub hid_ready : U → Bool
  pub hid_report : List ℕ → U → U

-- `battery_present_cache`
pub data Cache : Type 0 where
  cache_unknown cache_no cache_yes : Cache

-- What the hardware answers: the registers of the clock, the unique ID, the battery's pins and
-- converter, and the accelerometer's acknowledgement.
pub record World : Type 0 where
  pub board : Board
  pub ticks : List (ℕ × ℕ)
  pub uid : List ℕ
  pub on_battery : Bool
  pub battery_pin : Bool
  pub adc : ℕ
  pub acknowledged : Bool

pub record Mcu (U : Type 0) : Type 0 where
  pub eeprom : Eeprom
  pub rtc : Rtc
  pub accel : Accel
  pub usb : Usb
  pub clock : Clock
  pub battery : Cache
  pub spi_mode : ℕ
  pub spi_freq : ℕ
  pub spi_cmd : ℕ
  pub stack : U
  pub halted : Option Shutdown

is_unknown : Cache → Bool
is_unknown cache_unknown = true
is_unknown _ = false

is_no : Cache → Bool
is_no cache_no = true
is_no _ = false

-- `mcu_power_query_battery_voltage`, with CONFIG_ENABLE_ADC
unfoldable pub query_battery_voltage : World → Cache → ℕ × Cache
unfolding is_unknown is_no
query_battery_voltage w cache =
    if not w.on_battery
    then (let known : Cache =
          if is_unknown cache then (if w.battery_pin then cache_yes else cache_no) else cache in
        if is_no known then (0, known) else (w.adc, known))
    else (w.adc, cache_yes)

module _ {U : Type 0} (stack : Stack U) where
  -- `mcu_update_clock_speed`, with the accelerometer's bus
  unfoldable pub update_speed : Mcu U → Mcu U
  update_speed m =
      let t : Target =
        choose false (wanted m.usb) (stack.is_mounted m.stack) m.spi_freq m.spi_mode in
      record m {
        accel = adjust_i2c_timing (t.ahb_freq / t.apb_divisor) m.accel;
        clock = apply_target t m.clock;
      }

  -- `mcu_spi_set_freq`, which stores a byte
  unfoldable pub spi_set_freq : ℕ → Mcu U → Mcu U
  unfolding update_speed
  spi_set_freq f m = update_speed (record m { spi_freq = u8 f })

  -- `mcu_spi_init`, as far as it changes this state; the mode is stored in a byte.
  unfoldable pub spi_init : ℕ → Mcu U → Mcu U
  unfolding update_speed
  spi_init new m = update_speed (record m { spi_mode = u8 new })

  -- `mcu_exit_native_mode`
  exit_native_mode : World → Mcu U → Mcu U
  exit_native_mode w m = record m { accel = accel_deinit w.acknowledged m.accel }

  runs_on_lsi : ClockSource → Bool
  runs_on_lsi lsi = true
  runs_on_lsi _ = false

  -- `mcu_shutdown`, from which the MCU does not come back
  mcu_shutdown : Mcu U → Mcu U
  unfolding runs_on_lsi
  mcu_shutdown m = record m {
    halted = some (shutdown m.eeprom.nvram (runs_on_lsi m.rtc.regs.clock_source) m.usb);
  }

  -- The command that changes the mode; it has no answer.
  unfoldable pub change_mode : World → ℕ → Mcu U → Mcu U
  unfolding mcu_shutdown spi_init exit_native_mode
  change_mode w arg m =
      if arg == 0xff
      then mcu_shutdown m
      else (let started = spi_init arg m in
          if arg == 0 then started else exit_native_mode w started)

  -- `info` of the answer, and the battery's cache after it
  unfoldable pub query_info : World → Mcu U → Info × Mcu U
  unfolding query_battery_voltage
  query_info w m =
      let (voltage, cache) = query_battery_voltage w m.battery in
      (
        record {
          bat_voltage = voltage;
          has_accel = m.accel.chip_detected;
          rtc_lse = w.board.lse_ready;
          rtc_enabled = nileswan.Rtc.State.is_configured m.rtc;
          usb_detect = m.usb.connected;
          usb_connect = nileswan.Usb.is_powered m.usb && stack.is_active m.stack;
          battery_ok = leb 2900 voltage;
        },
        record m { battery = cache },
      )
