-- ===== src/Native/Tests.antt =====
-- The native commands on concrete bytes, with the command numbers of the protocol's documentation.
use nileswan.Base.{
  ℕ, ◌≡◌, refl, true, false, not, ◌&&◌, ◌||◌, [], ◌∷◌, ◌++◌, none, some, arith, ◌==◌, ltb, leb,
  if◌then◌else◌,
}
use nileswan.Clock.Tests.{slow_clock}
use nileswan.Eeprom.Tests.{blank}
use nileswan.Rtc.Tests.{clock, board}
use nileswan.Usb.Tests.{attached}
use nileswan.Accel.Tests.{polled}
use nileswan.Hid.Tests.{number}
use nileswan.Native.State.{
  NativeCommand, echo, eeprom_mode, eeprom_write, eeprom_read, rtc_command, no_command, no_register,
  Protocol, Stack, World, Mcu, cache_unknown,
}
use nileswan.Native.Command.{
  receive_length, max_packet_size, bytes, word_bytes, bytes_of, perform, start_command_rx,
}
use nileswan.Native.Laws.{is_eeprom_write, receive_length_fits, eeprom_read-eeprom_write}

abbrev pub command_of : ℕ → NativeCommand
command_of n =
    if n == 0x00
    then echo
    else if n == 0x10
    then eeprom_mode
    else if n == 0x12
    then eeprom_read
    else if n == 0x13
    then eeprom_write
    else if n == 0x14
    then rtc_command
    else no_command

abbrev pub protocol : Protocol
protocol = record {
  command_of = command_of;
  register_of = λ n. no_register;
  info_bytes = λ i. [];
  version_bytes = λ major minor. major ∷ minor ∷ [];
}

-- a USB stack that nothing is connected to
abbrev pub unplugged : Stack ℕ
unplugged = record {
  cdc_connected = λ u. false;
  cdc_receive = λ n u. ([], u);
  cdc_send = λ b u. (0, u);
  cdc_write_flush = λ u. u;
  cdc_write_clear = λ u. u;
  cdc_read_flush = λ u. u;
  cdc_waiting = λ u. 0;
  is_mounted = λ u. false;
  is_active = λ u. false;
  hid_ready = λ u. false;
  hid_report = λ b u. u;
}

abbrev pub world : World
world = record {
  board = board;
  ticks = [];
  uid = [];
  on_battery = false;
  battery_pin = true;
  adc = 3725;
  acknowledged = true;
}

abbrev pub mcu : Mcu ℕ
mcu = record {
  eeprom = blank;
  rtc = record clock { irq = record { status = 7; enable = 7; line = true } };
  accel = polled;
  usb = attached;
  clock = slow_clock;
  battery = cache_unknown;
  spi_mode = 0;
  spi_freq = 0;
  spi_cmd = 0;
  stack = 0;
  halted = none;
}

-- echo of three bytes
echo_three : (start_command_rx protocol unplugged number world 0x0180 mcu).0 ≡ 3
unfolding start_command_rx
echo_three = refl

receive_length_fits_example :
    leb (receive_length eeprom_write 256) max_packet_size
    ≡ not (is_eeprom_write eeprom_write && (256 == 0 || ltb 255 256))
receive_length_fits_example = receive_length_fits eeprom_write 256 (omega arith)

eeprom_read-eeprom_write_example :
    (m1 : Mcu ℕ) × (perform protocol unplugged number world false eeprom_write 2
        (word_bytes 5 ++ bytes_of (0x1234 ∷ 0xbeef ∷ []))
        mcu
      ≡ some (bytes [], m1))
    × (perform protocol unplugged number world false eeprom_read 2 (word_bytes 5) m1
        ≡ some (bytes (bytes_of (0x1234 ∷ 0xbeef ∷ [])), m1))
eeprom_read-eeprom_write_example =
    eeprom_read-eeprom_write protocol unplugged number world false 5 (0x1234 ∷ 0xbeef ∷ []) mcu
      (omega arith, (omega arith, tt)) (omega arith) (omega arith) (omega arith) (omega arith)
