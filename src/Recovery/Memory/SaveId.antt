-- ===== src/Recovery/Memory/SaveId.antt =====
-- test_mcu_save_id of software/userland/src/recovery/tests/mcu.c, run on the commands of
-- firmware/src/spi_cmd.c.
use nileswan.Base.{ℕ, ◌≡◌, refl, ap, ◌∙◌, Bool, true}
use nileswan.Native.State.{Protocol, Stack, World, Mcu}
use nileswan.Native.Command.{perform, store_save_id, fetch_save_id}
use nileswan.Hid.{Hat}
use nileswan.Recovery.Memory.{McuClient, test_mcu_save_id, check_save_id, save_id_expected}
use nileswan.Recovery.Memory.Eeprom.{prepare}
use nileswan.Recovery.Memory.Firmware.{firmware, and_then_some}

module _ {U : Type 0} (protocol : Protocol) (stack : Stack U) (hat : Hat → ℕ) (w : World)
    (full : Bool) (reset : Mcu U → Bool × Mcu U) where
  abbrev client : McuClient (Mcu U)
  client = firmware protocol stack hat w full reset

  -- An MCU on which the save ID stands in both places
  abbrev Named : Mcu U → Type 0
  Named m = (m.eeprom.nvram.save_id ≡ save_id_expected) × (m.rtc.regs.bkp8 ≡ save_id_expected)

  check_save_id_lem :
      (m : Mcu U)
      → Named m
      → (check_save_id client 1 m ≡ (true, m)) × (check_save_id client 2 m ≡ (true, m))
  unfolding perform fetch_save_id
  check_save_id_lem m (kept, backed) = (rw (kept, backed) refl, rw (kept, backed) refl)

  -- The test of the save ID succeeds on the firmware: the ID that one command stores in the two places is
  -- found in each of them after a reset, where each reset succeeds and keeps the save ID of the NVRAM and
  -- the backup register that the real-time clock has for it.
  pub test_mcu_save_id_passes :
      ((m : Mcu U) → (reset m).0 ≡ true)
      → ((m : Mcu U)
          → ((reset m).1.eeprom.nvram.save_id ≡ m.eeprom.nvram.save_id)
            × ((reset m).1.rtc.regs.bkp8 ≡ m.rtc.regs.bkp8))
      → (m93lc86 : ℕ) (m : Mcu U) → (test_mcu_save_id client m93lc86 m).0 ≡ true
  unfolding test_mcu_save_id store_save_id
  test_mcu_save_id_passes resets keeps type m =
      let m0 = (reset m).1 in
      let (t, u, stored, typed, kept, named, clock, state) =
        prepare protocol stack hat w full reset 3 save_id_expected type m0 in
      let m2 = (reset u).1 in
      let ready : Named m2 = (
        (keeps u).0 ∙ named ∙ ap (λ x. x.eeprom.nvram.save_id) state,
        (keeps u).1 ∙ ap (λ r. r.regs.bkp8) clock ∙ ap (λ x. x.rtc.regs.bkp8) state,
      ) in
      let (one, two) = check_save_id_lem m2 ready in
      ap (λ r. r.0)
        (and_then_some (reset m) _ (ap (λ b. (b, m0)) (resets m))
          ∙ and_then_some (client.set_save_id 3 save_id_expected m0) _ stored
          ∙ and_then_some (client.set_eeprom_mode type t) _ typed
          ∙ and_then_some (reset u) _ (ap (λ b. (b, m2)) (resets u))
          ∙ and_then_some (check_save_id client 1 m2) _ one
          ∙ two)
