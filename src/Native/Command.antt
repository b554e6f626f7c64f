-- ===== src/Native/Command.antt =====
-- What each command receives, does and answers, and how the answer is sent.
use nileswan.Base.{
  ℕ, ◌+◌, ◌*◌, ◌/◌, ◌%◌, ◌^◌, Bool, ◌&&◌, List, [], ◌∷◌, ◌++◌, Option, none, some, u8, ◌<<<◌, ◌>>>◌,
  low_bits, join, test_bit, ◌!=◌, leb, if◌then◌else◌, length, get_or, take, drop,
}
use nileswan.Nvram.{save_id_none}
use nileswan.Eeprom.{Eeprom, set_type, get_type, erase, read_data, write_data}
use nileswan.Irq.{Irq, irq_ack_status, irq_set_enable}
use nileswan.Rtc.State.{Rtc, set_regs}
use nileswan.Rtc.Command
use nileswan.Accel.{enable_poll, copy_state}
use nileswan.Hid.{report, Hat}
use nileswan.Native.State.{
  NativeCommand, echo, mode, freq, id, info, reg_read, reg_write, version, eeprom_mode,
  eeprom_erase, eeprom_write, eeprom_read, eeprom_get_mode, rtc_command, set_save_id, get_save_id,
  cdc_read, cdc_write, cdc_flush, cdc_available, hid_write, accel_poll, accel_read, no_command,
  Register, irq_enable, irq_status, irq_status_autoack, no_register, Protocol, Stack, World, Mcu,
  spi_set_freq, change_mode, query_info,
}

abbrev pub native_cmd : ℕ → ℕ
native_cmd n = low_bits n 7

abbrev pub native_arg : ℕ → ℕ
native_arg n = n >>> 7

-- `arg_to_len`
abbrev pub arg_to_len : ℕ → ℕ
arg_to_len arg = if arg != 0 then arg else 512

-- MCU_SPI_MAX_PACKET_SIZE of config.h, the size of the receive buffer
abbrev pub max_packet_size : ℕ
max_packet_size = 512

-- The `switch` of `spi_native_start_command_rx`: how many bytes follow the command.
unfoldable pub receive_length : NativeCommand → ℕ → ℕ
receive_length echo arg = arg_to_len arg
receive_length cdc_write arg = arg_to_len arg
receive_length hid_write arg = arg_to_len arg
receive_length eeprom_write arg = (arg_to_len arg <<< 1) + 2
receive_length eeprom_read arg = 2
receive_length reg_write arg = 2
receive_length set_save_id arg = 4
receive_length rtc_command arg =
    nileswan.Rtc.Command.argument_length (nileswan.Rtc.Command.command (u8 arg))
receive_length _ arg = 0

-- `-2`, `-1` and a count of bytes in the transmit buffer
pub data Answer : Type 0 where
  silent unknown : Answer
  bytes : List ℕ → Answer

abbrev pub word_bytes : ℕ → List ℕ
word_bytes v = v % 2 ^ 8 ∷ v / 2 ^ 8 ∷ []

abbrev pub read_word : List ℕ → ℕ → ℕ
read_word rx i = join (get_or rx i 0) (get_or rx (i + 1) 0 <<< 8)

abbrev pub long_bytes : ℕ → List ℕ
long_bytes v = v % 2 ^ 8 ∷ v / 2 ^ 8 % 2 ^ 8 ∷ v / 2 ^ 16 % 2 ^ 8 ∷ v / 2 ^ 24 ∷ []

abbrev pub read_long : List ℕ → ℕ
read_long rx = join (read_word rx 0) (read_word rx 2 <<< 16)

-- The words of the EEPROM as they lie in a buffer.
unfoldable pub bytes_of : List ℕ → List ℕ
bytes_of [] = []
bytes_of (v ∷ vs) = v % 2 ^ 8 ∷ v / 2 ^ 8 ∷ bytes_of vs

unfoldable pub words_of : List ℕ → List ℕ
words_of [] = []
words_of (low ∷ []) = []
words_of (low ∷ high ∷ rest) = join low (high <<< 8) ∷ words_of rest

module _ {U : Type 0} where
  set_irq : Irq → Mcu U → Mcu U
  set_irq i m = record m { rtc = record m.rtc { irq = i } }

  -- The answers to `reg_read` and `reg_write`
  unfoldable pub read_register : Register → Mcu U → ℕ × Mcu U
  unfolding set_irq
  read_register irq_enable m = (m.rtc.irq.enable, m)
  read_register irq_status m = (m.rtc.irq.status, m)
  read_register irq_status_autoack m =
      (m.rtc.irq.status, set_irq (irq_ack_status m.rtc.irq.status m.rtc.irq) m)
  read_register no_register m = (0, m)

  unfoldable pub write_register : Register → ℕ → Mcu U → Mcu U
  unfolding set_irq
  write_register irq_enable v m = set_irq (irq_set_enable v m.rtc.irq) m
  write_register irq_status v m = set_irq (irq_ack_status v m.rtc.irq) m
  write_register irq_status_autoack v m = set_irq (irq_ack_status v m.rtc.irq) m
  write_register no_register v m = m

  unfoldable pub store_save_id : ℕ → ℕ → Mcu U → Mcu U
  store_save_id arg save_id m =
      let kept = if test_bit arg 0 then save_id else save_id_none in
      let backed = if test_bit arg 1 then save_id else save_id_none in
      record m {
        eeprom = record m.eeprom { nvram = record m.eeprom.nvram { save_id = kept } };
        rtc = set_regs (record m.rtc.regs { bkp8 = backed }) m.rtc;
      }

  unfoldable pub fetch_save_id : ℕ → Mcu U → ℕ
  fetch_save_id arg m =
      let backed =
        if test_bit arg 1 && m.rtc.regs.bkp8 != save_id_none
        then m.rtc.regs.bkp8
        else save_id_none in
      if test_bit arg 0 && m.eeprom.nvram.save_id != save_id_none
      then m.eeprom.nvram.save_id
      else backed

  abbrev pub answer_words : Mcu U → Option (List ℕ) → Option (Answer × Mcu U)
  answer_words m none = none
  answer_words m (some ws) = some (bytes (bytes_of ws), m)

  abbrev pub answer_eeprom : Mcu U → Option Eeprom → Option (Answer × Mcu U)
  answer_eeprom m none = none
  answer_eeprom m (some e) = some (bytes [], record m { eeprom = e })

  answer_rtc : Mcu U → Option (List ℕ × Rtc) → Option (Answer × Mcu U)
  answer_rtc m none = none
  answer_rtc m (some (tx, r)) = some (bytes tx, record m { rtc = r })

module _ {U : Type 0} (protocol : Protocol) (stack : Stack U) (hat : Hat → ℕ) (w : World) where
  -- `spi_native_start_command_rx`
  unfoldable pub start_command_rx : ℕ → Mcu U → ℕ × Mcu U
  unfolding receive_length
  start_command_rx cmd m =
      let command = protocol.command_of (native_cmd cmd) in
      let m1 = record m { spi_cmd = cmd } in
      (
        receive_length command (native_arg cmd),
        elim command [
          | rtc_command ↦ record m1 {
            rtc = (nileswan.Rtc.Command.start_command_rx (u8 (native_arg cmd)) m.rtc).1;
          }
          | _ ↦ m1
        ],
      )

  module _ (full : Bool) where
    -- The `switch` of `spi_native_finish_command_rx`. `none` is a copy that leaves an array.
    unfoldable pub perform : NativeCommand → ℕ → List ℕ → Mcu U → Option (Answer × Mcu U)
    unfolding read_register write_register store_save_id fetch_save_id answer_rtc words_of
    perform echo arg rx m = some (bytes (take (arg_to_len arg) rx), m)
    perform mode arg rx m = some (silent, change_mode stack w arg m)
    perform freq arg rx m = some (bytes (1 ∷ []), spi_set_freq stack arg m)
    perform id arg rx m = some (bytes w.uid, m)
    perform info arg rx m =
        let (i, m1) = query_info stack w m in some (bytes (protocol.info_bytes i), m1)
    perform reg_read arg rx m =
        let (v, m1) = read_register (protocol.register_of arg) m in some (bytes (word_bytes v), m1)
    perform reg_write arg rx m =
        some (bytes [], write_register (protocol.register_of arg) (read_word rx 0) m)
    perform version arg rx m = some (bytes (protocol.version_bytes 1 2), m)
    perform eeprom_mode arg rx m =
        some (bytes (1 ∷ []), record m { eeprom = set_type full arg m.eeprom })
    perform eeprom_erase arg rx m = some (bytes [], record m { eeprom = erase m.eeprom })
    perform eeprom_write arg rx m =
        answer_eeprom m
          (write_data (take (arg_to_len arg) (words_of (drop 2 rx))) (read_word rx 0) m.eeprom)
    perform eeprom_read arg rx m =
        if leb (2 * arg_to_len arg) max_packet_size
        then answer_words m (read_data (read_word rx 0) (arg_to_len arg) m.eeprom)
        else none
    perform rtc_command arg rx m =
        answer_rtc m (nileswan.Rtc.Command.finish_command_rx w.board w.ticks rx m.rtc)
    perform eeprom_get_mode arg rx m = some (bytes (get_type m.eeprom ∷ []), m)
    perform set_save_id arg rx m = some (bytes (1 ∷ []), store_save_id arg (read_long rx) m)
    perform get_save_id arg rx m = some (bytes (long_bytes (fetch_save_id arg m)), m)
    perform cdc_read arg rx m =
        if stack.cdc_connected m.stack
        then (let (tx, u) = stack.cdc_receive (arg_to_len arg) m.stack in
            some (bytes tx, record m { stack = u }))
        else some (bytes [], m)
    perform cdc_write arg rx m =
        if stack.cdc_connected m.stack
        then (let (n, u) = stack.cdc_send (take (arg_to_len arg) rx) m.stack in
            some (bytes (word_bytes n), record m { stack = u }))
        else some (bytes (word_bytes 0), m)
    perform cdc_flush arg rx m =
        if stack.cdc_connected m.stack
        then some (
          bytes [],
          record m {
            stack = stack.cdc_read_flush (stack.cdc_write_clear (stack.cdc_write_flush m.stack));
          },
        )
        else some (bytes [], m)
    perform hid_write arg rx m =
        if stack.hid_ready m.stack
        then some
            (bytes [], record m { stack = stack.hid_report (report hat (read_word rx 0)) m.stack })
        else some (bytes [], m)
    perform cdc_available arg rx m = some (
      bytes (word_bytes (if stack.cdc_connected m.stack then stack.cdc_waiting m.stack else 0)),
      m,
    )
    perform accel_poll arg rx m =
        let a = enable_poll w.acknowledged (arg != 0) arg m.accel in
        some (bytes ((if a.chip_detected then 1 else 0) ∷ []), record m { accel = a })
    perform accel_read arg rx m = some (bytes (copy_state m.accel), m)
    perform no_command arg rx m = some (unknown, m)

    -- `spi_native_finish_command_rx`
    unfoldable pub finish_command_rx : List ℕ → Mcu U → Option (Answer × Mcu U)
    unfolding perform
    finish_command_rx rx m =
        perform (protocol.command_of (native_cmd m.spi_cmd)) (native_arg m.spi_cmd) rx m

-- What `mcu_spi_dma_finish` sends of an answer in native mode: a word of twice the length, or 1
-- for a command that is not known, then the bytes.
unfoldable pub frame : Answer → Option (List ℕ)
frame silent = none
frame unknown = some (word_bytes 1)
frame (bytes tx) = some (word_bytes (length tx <<< 1) ++ tx)
