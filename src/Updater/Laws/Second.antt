-- ===== src/Updater/Laws/Second.antt =====
-- The second pass of software/userland/src/updater/main.c, `run_update_manifest(false)`, after a first
-- pass that has come to its end.
use nileswan.Base.{ℕ, zero, suc, ◌+◌, ◌≡◌, refl, ◌∙◌, true, false, List, length}
use nileswan.Base.{◌==◌, ◌≤◌, sym, ap, drop}
use nileswan.Crc.{loop_count}
use nileswan.Updater.{Hardware, Updater, done}
use nileswan.Updater.Command.{FlashCommand, Command, flash, mcu_flash, start_manifest}
use nileswan.Updater.Command.{finish_manifest, check_board_revision_range, next_command}
use nileswan.Updater.Command.{Next, finished, unknown, past_end, command}
use nileswan.Updater.Flash.{run_um_cmd_flash, run_um_cmd_start_manifest, extract}
use nileswan.Updater.Flash.{run_um_cmd_finish_manifest, other_board, unpacked}
use nileswan.Updater.Flash.{install_version, version_size}
use nileswan.Updater.Mcu.{run_um_cmd_mcu_flash}
use nileswan.Updater.Run.{check_range, run_command, run_next, run_commands, run_update_manifest}
use nileswan.Updater.Laws.Verify.{commands_kept}
use nileswan.Updater.Laws.{AllCommands, NextSatisfies, >>=-done, require-done, if_false}
use nileswan.Updater.Laws.Devices.{
  DeviceErrors, DeviceErrors->>=, require-DeviceErrors, if-DeviceErrors, require_passes, ends,
  loops, flash_part-DeviceErrors, mcu_part-DeviceErrors, boot_loader-DeviceErrors,
  manifest-DeviceErrors, crc16_whole,
}

module _ (H : Hardware) where
  -- The data of a part are as long as its length says, or 64 KiB when it says 0.
  abbrev pub IsWholePart : FlashCommand → Type 0
  IsWholePart c = loop_count c.unpacked_length ≤ length (unpacked H c)

  extract_second :
      (c : FlashCommand) (u v : Updater H) {u' : Updater H}
      → IsWholePart c
      → extract H c u ≡ done u'
      → DeviceErrors (extract H c v)
  unfolding extract
  extract_second c u v whole accepted =
      let same =
        crc16_whole H (unpacked H c) u.unpack_buffer v.unpack_buffer c.unpacked_length whole in
      require_passes _ _ _
        (ap (λ sum. sum == c.expected_crc) (sym same) ∙ require-done _ _ _ accepted)

  flash_second :
      (c : FlashCommand) (u v : Updater H) {u' : Updater H}
      → IsWholePart c
      → run_um_cmd_flash H c u ≡ done u'
      → DeviceErrors (run_um_cmd_flash H c v)
  unfolding run_um_cmd_flash
  flash_second c u v whole accepted = if-DeviceErrors (other_board H c) _ _ (ends v) (λ this.
      let (s, e, k) = >>=-done _ _ (sym (if_false (other_board H c) _ _ this) ∙ accepted) in
      let (s', e', k') = >>=-done _ _ k in
      DeviceErrors->>= (extract_second c u v whole e) (λ s.
        DeviceErrors->>= (require_passes _ _ _ (require-done _ _ _ e'))
          (flash_part-DeviceErrors H c)))

  mcu_flash_second :
      (c : FlashCommand) (u v : Updater H) {u' : Updater H}
      → IsWholePart c
      → run_um_cmd_mcu_flash H c u ≡ done u'
      → DeviceErrors (run_um_cmd_mcu_flash H c v)
  unfolding run_um_cmd_mcu_flash
  mcu_flash_second c u v whole accepted = if-DeviceErrors (other_board H c) _ _ (ends v) (λ this.
      let (s, e, k) = >>=-done _ _ (sym (if_false (other_board H c) _ _ this) ∙ accepted) in
      let (s', e', k') = >>=-done _ _ k in
      DeviceErrors->>= (extract_second c u v whole e) (λ s.
        DeviceErrors->>= (require_passes _ _ _ (require-done _ _ _ e'))
          (λ s. DeviceErrors->>= (boot_loader-DeviceErrors H s) (mcu_part-DeviceErrors H c))))

  start_second :
      (a : ℕ) (u v : Updater H) {u' : Updater H}
      → run_um_cmd_start_manifest H a u ≡ done u'
      → DeviceErrors (run_um_cmd_start_manifest H a v)
  unfolding run_um_cmd_start_manifest install_version
  start_second a u v accepted =
      let (s, e, k) = >>=-done _ _ accepted in
      DeviceErrors->>= (require_passes _ _ _ (require-done _ _ _ e)) (λ s.
        if-DeviceErrors s.update_verify _ _ (ends _) (λ _.
          DeviceErrors->>= (require-DeviceErrors _ _ _ refl)
            (manifest-DeviceErrors H version_size a)))

  finish_second :
      (a : ℕ) (u v : Updater H) {u' : Updater H}
      → run_um_cmd_finish_manifest H a u ≡ done u'
      → DeviceErrors (run_um_cmd_finish_manifest H a v)
  unfolding run_um_cmd_finish_manifest
  finish_second a u v accepted =
      let (s, e, k) = >>=-done _ _ accepted in
      DeviceErrors->>= (require_passes _ _ _ (require-done _ _ _ e))
        (λ s. if-DeviceErrors s.update_verify _ _ (ends s) (λ _. manifest-DeviceErrors H 12 a s))

  range_second :
      (lo hi : ℕ) (u v : Updater H) {u' : Updater H}
      → check_range H lo hi u ≡ done u'
      → DeviceErrors (check_range H lo hi v)
  unfolding check_range
  range_second lo hi u v accepted = require_passes _ _ _ (require-done _ _ _ accepted)

  abbrev pub IsWhole : Command → Type 0
  IsWhole (flash c) = IsWholePart c
  IsWhole (mcu_flash c) = IsWholePart c
  IsWhole _ = Unit

  command_second :
      (c : Command) (u v : Updater H) {u' : Updater H}
      → IsWhole c
      → run_command H c u ≡ done u'
      → DeviceErrors (run_command H c v)
  unfolding run_command
  command_second (flash c) u v whole accepted = flash_second c u v whole accepted
  command_second (mcu_flash c) u v whole accepted = mcu_flash_second c u v whole accepted
  command_second (start_manifest a) u v whole accepted = start_second a u v accepted
  command_second (finish_manifest a) u v whole accepted = finish_second a u v accepted
  command_second (check_board_revision_range lo hi) u v whole accepted =
      range_second lo hi u v accepted

  next_second :
      (n : ℕ) (next : Next) (u v : Updater H) {u' : Updater H}
      → NextSatisfies IsWhole (AllCommands IsWhole n) next
      → run_next H (run_commands H n) next u ≡ done u'
      → ((p : List ℕ) (u v t : Updater H)
          → AllCommands IsWhole n p
          → run_commands H n p u ≡ done t
          → DeviceErrors (run_commands H n p v))
      → DeviceErrors (run_next H (run_commands H n) next v)
  unfolding run_next
  next_second n finished u v whole accepted later = ends v
  next_second n (unknown cmd) u v whole accepted later = cc
  next_second n past_end u v whole accepted later = cc
  next_second n (command c rest) u v whole accepted later =
      let (s, e, k) = >>=-done _ _ accepted in
      DeviceErrors->>= (command_second c _ _ whole.0 e) (λ t. later rest s t _ whole.1 k)

  commands_second :
      (n : ℕ) (p : List ℕ) (u v t : Updater H)
      → AllCommands IsWhole n p
      → run_commands H n p u ≡ done t
      → DeviceErrors (run_commands H n p v)
  unfolding run_commands
  commands_second zero p u v t whole accepted = loops
  commands_second (suc n) p u v t whole accepted =
      next_second n (next_command p) u v whole accepted (commands_second n)

  -- Once the first pass has come to its end, the second stops early only because the cartridge
  -- reports an error, or hangs in a loop: no check of the manifest or of a checksum fails in it, and
  -- it does not read past the manifest. The unpacked data of every part must fill the length that
  -- the part names.
  pub run_update_manifest_second :
      (u : Updater H) {u' : Updater H}
      → AllCommands IsWhole
          (length u.update_manifest_data + 1)
          (drop version_size u.update_manifest_data)
      → run_update_manifest H true u ≡ done u'
      → DeviceErrors (run_update_manifest H false u')
  unfolding run_update_manifest
  run_update_manifest_second u {u'} whole accepted =
      let kept = commands_kept H u accepted in
      rw (kept.0, kept.1) (commands_second _ _ _ _ _ whole accepted)
