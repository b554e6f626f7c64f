-- ===== src/Recovery/Memory/Eeprom.antt =====
-- test_eeprom_retention of software/userland/src/recovery/tests/memory.c, run on the commands of
-- firmware/src/spi_cmd.c.
use nileswan.Base.{ℕ, zero, suc, ◌+◌, ◌*◌, ◌≤◌, ◌≡◌, refl, ap, sym, ◌∙◌, arith}
use nileswan.Base.{Bool, true, false, List, ◌++◌, some, length, take, drop, splice}
use nileswan.Base.{leb, length-append, length-take, take-length-append}
use nileswan.Base.{drop-length-append, append_assoc, append-nil}
use nileswan.Eeprom.{set_type, read_data}
use nileswan.Eeprom.Transfer.{read_data-write_data, write_data_fits}
use nileswan.Native.State.{eeprom_write}
use nileswan.Native.State.{Protocol, Stack, World, Mcu}
use nileswan.Native.Command.{perform, bytes_of, word_bytes, long_bytes, store_save_id, read_long}
use nileswan.Native.Laws.{AllWords, write_words, read_words, take_all}
use nileswan.Hid.{Hat}
use nileswan.Recovery.Memory.{
  McuClient, and_then, retention_write, xorshift_fill, write_blocks, read_blocks,
}
use nileswan.Recovery.Memory.{
  test_memory_eeprom_write, test_memory_eeprom_read, test_eeprom_retention,
}
use nileswan.Recovery.Memory.Firmware.{
  answered, succeeded, firmware, xorshift_fill_words, same_bytes_refl, write_data-splice, drop-drop,
  set_type_data, written_words, and_then_some, write_blocks_more, read_blocks_more,
}

module _ {U : Type 0} (protocol : Protocol) (stack : Stack U) (hat : Hat → ℕ) (w : World)
    (full : Bool) (reset : Mcu U → Bool × Mcu U) where
  abbrev client : McuClient (Mcu U)
  client = firmware protocol stack hat w full reset

  abbrev data_of : Mcu U → List ℕ
  data_of m = m.eeprom.nvram.eeprom_data

  -- A block that is written stands behind what was in front of it.
  write_block :
      (pos : ℕ) (ws : List ℕ) (m : Mcu U)
      → length ws ≡ 64
      → AllWords ws
      → pos + 64 ≤ length (data_of m)
      → length (data_of m) ≡ 1024
      → (m1 : Mcu U) × (client.eeprom_write (bytes_of ws) pos 64 m ≡ (true, m1))
        × (length (data_of m1) ≡ 1024)
        × (take (pos + 64) (data_of m1) ≡ take pos (data_of m) ++ ws)
  write_block pos ws m count all room size =
      let e = m.eeprom in
      let (e1, h) = write_data_fits ws pos e (omega arith) in
      let d : data_of (record m { eeprom = e1 }) ≡ splice (data_of m) pos ws =
        write_data-splice ws pos e h in
      let front : length (take pos (data_of m)) ≡ pos =
        omega (arith, length-take pos (data_of m)) in
      (
        record m { eeprom = e1 },
        ap (λ r. succeeded (answered r m))
            (ap
                (λ n.
                  perform protocol stack hat w full eeprom_write n (word_bytes pos ++ bytes_of ws)
                    m)
                (sym count)
              ∙ write_words protocol stack hat w full pos ws m all (omega arith) (omega arith) h),
        (read_data-write_data ws pos e h).1 ∙ size,
        ap (take (pos + 64)) (
              d ∙ sym (append_assoc (take pos (data_of m)) ws (drop (pos + length ws) (data_of m))))
            ∙ ap (λ k. take k ((take pos (data_of m) ++ ws) ++ drop (pos + length ws) (data_of m)))
                (omega (arith, front, count, length-append (take pos (data_of m)) ws))
            ∙ take-length-append (take pos (data_of m) ++ ws) (drop (pos + length ws) (data_of m)),
      )

  write_blocks_data :
      (n pos value : ℕ) (m : Mcu U)
      → pos + n * 64 ≡ 1024
      → length (data_of m) ≡ 1024
      → (m1 : Mcu U) × (write_blocks client n pos value m ≡ (true, m1))
        × (length (data_of m1) ≡ 1024)
        × (data_of m1 ≡ take pos (data_of m) ++ written_words n value)
  unfolding write_blocks written_words
  write_blocks_data zero pos value m whole size =
      (m, refl, size, sym (take_all pos (data_of m) (omega (arith, size))) ∙ sym (append-nil _))
  write_blocks_data (suc n) pos value m whole size =
      let ws = (xorshift_fill 64 value).1 in
      let next = (xorshift_fill 64 value).0 in
      let (count, all) = xorshift_fill_words 64 value in
      let (m1, done, size1, front) = write_block pos ws m count all (omega arith) size in
      let (m2, rest, size2, held) = write_blocks_data n (pos + 64) next m1 (omega arith) size1 in
      (
        m2,
        write_blocks_more client n pos value m done ∙ rest,
        size2,
        held
            ∙ ap (λ l. l ++ written_words n next) front
            ∙ append_assoc (take pos (data_of m)) ws (written_words n next),
      )

  read_blocks_same :
      (n pos value : ℕ) (m : Mcu U)
      → pos + n * 64 ≡ 1024
      → length (data_of m) ≡ 1024
      → drop pos (data_of m) ≡ written_words n value
      → read_blocks client n pos value m ≡ (true, m)
  unfolding read_blocks written_words read_data
  read_blocks_same zero pos value m whole size same = refl
  read_blocks_same (suc n) pos value m whole size same =
      let ws = (xorshift_fill 64 value).1 in
      let next = (xorshift_fill 64 value).0 in
      let (count, all) = xorshift_fill_words 64 value in
      let room : leb (pos + 64) (length (data_of m)) ≡ true = ground arith in
      let block : take 64 (drop pos (data_of m)) ≡ ws =
        ap (take 64) same
        ∙ ap (λ k. take k (ws ++ written_words n next)) (sym count)
        ∙ take-length-append ws (written_words n next) in
      let after : drop (pos + 64) (data_of m) ≡ written_words n next =
        sym (drop-drop pos 64 (data_of m))
        ∙ ap (drop 64) same
        ∙ ap (λ k. drop k (ws ++ written_words n next)) (sym count)
        ∙ drop-length-append ws (written_words n next) in
      let answer : client.eeprom_read pos 64 m ≡ (some (bytes_of ws), m) =
        ap (λ r. answered r m)
          (read_words protocol stack hat w full pos 64 ws m (omega arith) (omega arith)
            (omega arith) (rw room (ap some block))) in
      read_blocks_more client n pos value m answer (same_bytes_refl (bytes_of ws))
        (read_blocks_same n (pos + 64) next m (omega arith) size after)

  write_pass :
      (m : Mcu U)
      → length (data_of m) ≡ 1024
      → (m1 : Mcu U) × (test_memory_eeprom_write client m ≡ (true, m1))
        × (length (data_of m1) ≡ 1024)
        × (data_of m1 ≡ written_words 16 1)
  unfolding test_memory_eeprom_write
  write_pass m size = write_blocks_data 16 0 1 m refl size

  read_pass :
      (m : Mcu U)
      → length (data_of m) ≡ 1024
      → data_of m ≡ written_words 16 1
      → test_memory_eeprom_read client m ≡ (true, m)
  unfolding test_memory_eeprom_read
  read_pass m size held = read_blocks_same 16 0 1 m refl size held

  -- The two commands that come before the words
  pub prepare :
      (domain id type : ℕ) (m : Mcu U)
      → (t m1 : Mcu U) × (client.set_save_id domain id m ≡ (true, t))
        × (client.set_eeprom_mode type t ≡ (true, m1))
        × (data_of m1 ≡ data_of m)
        × (m1.eeprom.nvram.save_id ≡ t.eeprom.nvram.save_id)
        × (m1.rtc ≡ t.rtc)
        × (t ≡ store_save_id domain (read_long (long_bytes id)) m)
  unfolding perform store_save_id
  prepare domain id type m =
      let t = store_save_id domain (read_long (long_bytes id)) m in
      let (kept, named) = set_type_data full type t.eeprom in
      (t, record t { eeprom = set_type full type t.eeprom }, refl, refl, kept, named, refl, refl)

  retention_write_data :
      (type : ℕ) (m : Mcu U)
      → length (data_of m) ≡ 1024
      → (m1 : Mcu U) × (retention_write client type m ≡ (true, m1))
        × (length (data_of m1) ≡ 1024)
        × (data_of m1 ≡ written_words 16 1)
  retention_write_data type m size =
      let (t, u, stored, typed, kept, named, clock, state) = prepare 1 0xaa551234 type m in
      let (m1, wrote, size1, held) = write_pass u (ap length kept ∙ size) in
      (
        m1,
        and_then_some (client.set_save_id 1 0xaa551234 m)
              (λ v. and_then (client.set_eeprom_mode type v) (test_memory_eeprom_write client))
              stored
            ∙ and_then_some (client.set_eeprom_mode type t) (test_memory_eeprom_write client) typed
            ∙ wrote,
        size1,
        held,
      )

  -- A reset of the MCU that succeeds and keeps the array
  module _ (resets : (m : Mcu U) → (reset m).0 ≡ true)
      (keeps : (m : Mcu U) → data_of (reset m).1 ≡ data_of m) where
    restarted : (m : Mcu U) → reset m ≡ (true, (reset m).1)
    restarted m = ap (λ b. (b, (reset m).1)) (resets m)

    first_run :
        (type : ℕ) (m : Mcu U)
        → length (data_of m) ≡ 1024
        → (m1 : Mcu U) × (test_eeprom_retention client type true m ≡ (true, m1))
          × (length (data_of m1) ≡ 1024)
          × (data_of m1 ≡ written_words 16 1)
    unfolding test_eeprom_retention
    first_run type m size =
        let m0 = (reset m).1 in
        let (m1, wrote, size1, held) = retention_write_data type m0 (ap length (keeps m) ∙ size) in
        (
          m1,
          and_then_some (reset m)
                (λ t. and_then (retention_write client type t) (test_memory_eeprom_read client))
                (restarted m)
              ∙ and_then_some (retention_write client type m0) (test_memory_eeprom_read client)
                  wrote
              ∙ read_pass m1 size1 held,
          size1,
          held,
        )

    later_run :
        (type : ℕ) (m : Mcu U)
        → length (data_of m) ≡ 1024
        → data_of m ≡ written_words 16 1
        → test_eeprom_retention client type false m ≡ (true, (reset m).1)
    unfolding test_eeprom_retention
    later_run type m size held =
        let m0 = (reset m).1 in
        and_then_some (reset m) (λ t. and_then (true, t) (test_memory_eeprom_read client))
          (restarted m)
        ∙ read_pass m0 (ap length (keeps m) ∙ size) (keeps m ∙ held)

    -- The retention test of the EEPROM, which writes 16 blocks of a pseudo-random sequence by the commands of
    -- the firmware and reads them back, succeeds with any EEPROM of 1024 words; so does the test that only
    -- reads, after a reset and another. This holds where each reset succeeds and keeps the words.
    pub test_eeprom_retention_passes :
        (m93lc86 : ℕ) (m : Mcu U)
        → length (data_of m) ≡ 1024
        → let first = test_eeprom_retention client m93lc86 true m in
          let again = test_eeprom_retention client m93lc86 false first.1 in
          (first.0 ≡ true)
          × (again.0 ≡ true)
          × ((test_eeprom_retention client m93lc86 false again.1).0 ≡ true)
    test_eeprom_retention_passes type m size =
        let (m1, one, size1, held1) = first_run type m size in
        let first = test_eeprom_retention client type true m in
        let s1 : first.1 ≡ m1 = ap (λ r. r.1) one in
        let two =
          later_run type first.1 (ap (λ v. length (data_of v)) s1 ∙ size1)
            (ap data_of s1 ∙ held1) in
        let again = test_eeprom_retention client type false first.1 in
        let kept : data_of again.1 ≡ data_of first.1 = ap (λ r. data_of r.1) two ∙ keeps first.1 in
        let three =
          later_run type again.1 (ap length kept ∙ ap (λ v. length (data_of v)) s1 ∙ size1)
            (kept ∙ ap data_of s1 ∙ held1) in
        (ap (λ r. r.0) one, ap (λ r. r.0) two, ap (λ r. r.0) three)
