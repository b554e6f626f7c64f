-- ===== src/Native/Laws.antt =====
-- The native commands: lengths and frames, the EEPROM's words, the save ID and the registers.
use nileswan.Base.{
  ℕ, zero, suc, ◌+◌, ◌*◌, ◌/◌, ◌%◌, ◌^◌, ◌≤◌, ◌<◌, ◌≡◌, refl, ◌∙◌, ap, ap₂, Bool, true, false, not,
  ◌&&◌, ◌||◌, List, [], ◌∷◌, ◌++◌, some, arith, test_bit, ◌==◌, ltb, leb, if◌then◌else◌, length,
  take, drop, u8, Bool-cases, inl, inr,
}
use nileswan.Nvram.{save_id_none}
use nileswan.Eeprom.{Eeprom, read_data, write_data}
use nileswan.Eeprom.Transfer.{read_data-write_data, write_data_fits}
use nileswan.Irq.{acknowledge, handle}
use nileswan.Irq.Laws.{handle_bits}
use nileswan.Rtc.Command.{command}
use nileswan.Rtc.Command.Laws.{argument_length_bound}
use nileswan.Clock
use nileswan.Clock.Laws
use nileswan.Hid.{Hat}
use nileswan.Usb.{wanted}
use nileswan.Native.State.{
  NativeCommand, echo, eeprom_write, eeprom_read, rtc_command, cdc_write, hid_write,
  irq_status_autoack, Protocol, Stack, World, Mcu, update_speed, spi_set_freq, change_mode,
}
use nileswan.Native.Command.{
  arg_to_len, max_packet_size, receive_length, unknown, bytes, word_bytes, read_word, long_bytes,
  read_long, bytes_of, words_of, perform, read_register, store_save_id, fetch_save_id, frame,
  answer_words, answer_eeprom,
}

abbrev pub is_eeprom_write : NativeCommand → Bool
is_eeprom_write eeprom_write = true
is_eeprom_write _ = false

-- With an argument of nine bits, a command is followed by no more bytes than the receive buffer
-- holds, except exactly a write to the EEPROM of more than 255 words, or of 0, which counts as
-- 512.
pub receive_length_fits :
    (c : NativeCommand) (arg : ℕ)
    → arg < 2 ^ 9
    → leb (receive_length c arg) max_packet_size
      ≡ not (is_eeprom_write c && (arg == 0 || ltb 255 arg))
unfolding receive_length
receive_length_fits rtc_command arg h = ground (arith, argument_length_bound (command (u8 arg)))
receive_length_fits echo arg h = ground arith
receive_length_fits cdc_write arg h = ground arith
receive_length_fits hid_write arg h = ground arith
receive_length_fits eeprom_write arg h = ground arith
receive_length_fits _ arg h = refl

-- An answer of fewer than 2^15 bytes is framed: its first word is twice the number of its
-- bytes, which follow; an unknown command is framed as the word 1.
pub frame_lem :
    (tx : List ℕ)
    → length tx < 2 ^ 15
    → (f : List ℕ) × (frame (bytes tx) ≡ some f)
      × (read_word f 0 ≡ 2 * length tx)
      × (drop 2 f ≡ tx)
      × (frame unknown ≡ some (1 ∷ 0 ∷ []))
unfolding frame
frame_lem tx h = (_, refl, ground arith, refl, refl)

abbrev pub AllWords : List ℕ → Type 0
AllWords [] = Unit {0}
AllWords (v ∷ vs) = (v < 2 ^ 16) × AllWords vs

words_of-bytes_of : (ws : List ℕ) → AllWords ws → words_of (bytes_of ws) ≡ ws
unfolding words_of bytes_of
words_of-bytes_of [] h = refl
words_of-bytes_of (v ∷ vs) h =
    let e : v % 2 ^ 8 + v / 2 ^ 8 * 2 ^ 8 ≡ v = omega arith in ap₂ ◌∷◌ e (words_of-bytes_of vs h.1)

pub take_all : (n : ℕ) (ws : List ℕ) → length ws ≡ n → take n ws ≡ ws
take_all zero [] h = refl
take_all zero (w ∷ ws) h = absurd (omega arith)
take_all (suc n) [] h = refl
take_all (suc n) (w ∷ ws) h = ap (λ l. w ∷ l) (take_all n ws (omega arith))

-- A save ID of 32 bits that one command stores, in the places that its argument names, is
-- fetched by another exactly if one of these places is among those that the other names;
-- otherwise the answer is that there is none.
pub fetch_save_id-store_save_id :
    {U : Type 0} (there here save_id : ℕ) (m : Mcu U)
    → save_id < 2 ^ 32
    → fetch_save_id here (store_save_id there (read_long (long_bytes save_id)) m) ≡ (
        if (test_bit there 0 && test_bit here 0) || (test_bit there 1 && test_bit here 1)
        then save_id
        else save_id_none)
unfolding fetch_save_id store_save_id
fetch_save_id-store_save_id there here save_id m h = ground arith

module _ {U : Type 0} (protocol : Protocol) (stack : Stack U) (hat : Hat → ℕ) (w : World)
    (full : Bool) where
  -- The answer to a write to the EEPROM that stays inside the array.
  pub write_words :
      (address : ℕ) (ws : List ℕ) (m : Mcu U)
      → AllWords ws
      → 1 ≤ length ws
      → address < 2 ^ 16
      → {e1 : Eeprom} → write_data ws address m.eeprom ≡ some e1
      → perform protocol stack hat w full eeprom_write
          (length ws)
          (word_bytes address ++ bytes_of ws)
          m
        ≡ some (bytes [], record m { eeprom = e1 })
  unfolding perform
  write_words address ws m all one small {e1} h =
      let n : arg_to_len (length ws) ≡ length ws = ground arith in
      let a : address % 2 ^ 8 + address / 2 ^ 8 * 2 ^ 8 ≡ address = omega arith in
      let source : take (arg_to_len (length ws)) (words_of (bytes_of ws)) ≡ ws =
        ap₂ (λ k l. take k l) n (words_of-bytes_of ws all) ∙ take_all (length ws) ws refl in
      ap (answer_eeprom m) (ap₂ (λ s k. write_data s k m.eeprom) source a ∙ h)

  -- The answer to a read of words that are there.
  pub read_words :
      (address count : ℕ) (ws : List ℕ) (m : Mcu U)
      → 1 ≤ count
      → count ≤ 256
      → address < 2 ^ 16
      → read_data address count m.eeprom ≡ some ws
      → perform protocol stack hat w full eeprom_read count (word_bytes address) m
        ≡ some (bytes (bytes_of ws), m)
  unfolding perform
  read_words address count ws m one fits small h =
      let n : arg_to_len count ≡ count = ground arith in
      let a : address % 2 ^ 8 + address / 2 ^ 8 * 2 ^ 8 ≡ address = omega arith in
      let room : leb (2 * arg_to_len count) max_packet_size ≡ true = ground arith in
      rw room (ap (answer_words m) (ap₂ (λ k c. read_data k c m.eeprom) a n ∙ h))

  -- A command that writes 1 to 255 words of 16 bits inside the array, at an address of 16 bits,
  -- and then one that reads them at the same place answer with nothing and with the bytes of
  -- the words that were sent.
  pub eeprom_read-eeprom_write :
      (address : ℕ) (ws : List ℕ) (m : Mcu U)
      → AllWords ws
      → 1 ≤ length ws
      → length ws ≤ 255
      → address < 2 ^ 16
      → address + length ws ≤ length m.eeprom.nvram.eeprom_data
      → (m1 : Mcu U) × (perform protocol stack hat w full eeprom_write
            (length ws)
            (word_bytes address ++ bytes_of ws)
            m
          ≡ some (bytes [], m1))
        × (perform protocol stack hat w full eeprom_read (length ws) (word_bytes address) m1
            ≡ some (bytes (bytes_of ws), m1))
  eeprom_read-eeprom_write address ws m all one fits small room =
      let (e1, h) = write_data_fits ws address m.eeprom room in
      (
        record m { eeprom = e1 },
        write_words address ws m all one small h,
        read_words address (length ws) ws (record m { eeprom = e1 }) one (omega arith) small
            (read_data-write_data ws address m.eeprom h).0,
      )

-- Reading a status of 16 bits with acknowledgement answers with the status as it was, keeps of
-- it the alarm bit alone, and leaves the enabled interrupts as they are.
pub read_register_autoack :
    {U : Type 0} (k : ℕ) (m : Mcu U)
    → k < 16
    → m.rtc.irq.status < 2 ^ 16
    → let (v, m1) = read_register irq_status_autoack m in
      (v ≡ m.rtc.irq.status)
      × (test_bit m1.rtc.irq.status k ≡ (test_bit m.rtc.irq.status k && k == 2))
      × (m1.rtc.irq.enable ≡ m.rtc.irq.enable)
unfolding read_register handle
read_register_autoack k m h small =
    (refl, ground (arith, handle_bits (acknowledge m.rtc.irq.status) m.rtc.irq k small h), refl)

module _ {U : Type 0} (stack : Stack U) where
  -- The core clock that the state asks for.
  abbrev pub asked_clock : Mcu U → ℕ
  asked_clock m =
      (Clock.choose false (wanted m.usb) (stack.is_mounted m.stack) m.spi_freq m.spi_mode).ahb_freq

  clock-update_speed :
      (m : Mcu U)
      → Clock.Laws.IsValid m.clock
      → Clock.Laws.IsValid (update_speed stack m).clock
        × ((update_speed stack m).clock.hardware.core_clock ≡ asked_clock m)
  unfolding update_speed Clock.update_clock_speed
  clock-update_speed m v =
      let t =
        Clock.Laws.update_clock_speed_lem (wanted m.usb) (stack.is_mounted m.stack) m.spi_freq
          m.spi_mode v in
      (t.0, t.4)

  mode-update_speed : (m : Mcu U) → (update_speed stack m).spi_mode ≡ m.spi_mode
  unfolding update_speed
  mode-update_speed m = refl

  -- From a valid clock, the command that changes the SPI clock and the one that changes the
  -- mode, with an argument that does not shut the MCU down, leave its own clock valid and at
  -- the speed that the new SPI clock or mode asks for; the second stores the mode.
  pub commands_adjust_clock :
      (w : World) (arg : ℕ) (m : Mcu U)
      → Clock.Laws.IsValid m.clock
      → (arg == 0xff) ≡ false
      → let f = spi_set_freq stack arg m in
        let n = change_mode stack w arg m in
        Clock.Laws.IsValid f.clock
        × (f.clock.hardware.core_clock ≡ asked_clock (record m { spi_freq = u8 arg }))
        × Clock.Laws.IsValid n.clock
        × (n.clock.hardware.core_clock ≡ asked_clock (record m { spi_mode = u8 arg }))
        × (n.spi_mode ≡ u8 arg)
  unfolding spi_set_freq change_mode
  commands_adjust_clock w arg m v on =
      let f = clock-update_speed (record m { spi_freq = u8 arg }) v in
      let n = clock-update_speed (record m { spi_mode = u8 arg }) v in
      elim (Bool-cases (arg == 0)) [
        | inl native ↦
            rw (on, native) (f.0, f.1, n.0, n.1, mode-update_speed (record m { spi_mode = u8 arg }))
        | inr other ↦
            rw (on, other) (f.0, f.1, n.0, n.1, mode-update_speed (record m { spi_mode = u8 arg }))
      ]
