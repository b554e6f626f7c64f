-- ===== src/Updater/Run.antt =====
-- run_um_cmd_check_board_revision_range and run_update_manifest of
-- software/userland/src/updater/main.c.
use nileswan.Base.{ℕ, zero, suc, ◌+◌, Bool, List, ◌||◌, not, ltb, drop, length}
use nileswan.Updater.{Hardware, Updater, Outcome, done, halted, overrun, stuck, ◌>>=◌, require}
use nileswan.Updater.{early_error, unsupported_revision, corrupt_data}
use nileswan.Updater.Command.{Command, flash, mcu_flash, start_manifest}
use nileswan.Updater.Command.{finish_manifest, check_board_revision_range, next_command}
use nileswan.Updater.Command.{Next, finished, unknown, past_end, command}
use nileswan.Updater.Flash.{run_um_cmd_flash, run_um_cmd_start_manifest, version_size}
use nileswan.Updater.Flash.{run_um_cmd_finish_manifest}
use nileswan.Updater.Mcu.{run_um_cmd_mcu_flash}

module _ (H : Hardware) where
  unfoldable pub check_range : ℕ → ℕ → Updater H → Outcome (Updater H)
  check_range min_rev max_rev u =
      let rev = H.board_revision in
      require (not (ltb rev min_rev || ltb max_rev rev)) (unsupported_revision rev) u

  -- The cases of the `switch`
  unfoldable pub run_command : Command → Updater H → Outcome (Updater H)
  unfolding check_range
  run_command (flash c) u = run_um_cmd_flash H c u
  run_command (mcu_flash c) u = run_um_cmd_mcu_flash H c u
  run_command (start_manifest a) u = run_um_cmd_start_manifest H a u
  run_command (finish_manifest a) u = run_um_cmd_finish_manifest H a u
  run_command (check_board_revision_range lo hi) u = check_range lo hi u

  abbrev pub count_part : Updater H → Updater H
  count_part u = record u { update_part = u.update_part + 1 }

  -- One round of the `while`, with the rest of it
  unfoldable pub run_next :
      (List ℕ → Updater H → Outcome (Updater H)) → Next → Updater H → Outcome (Updater H)
  run_next rest_of finished u = done u
  run_next rest_of (unknown cmd) u = halted (early_error corrupt_data cmd) (count_part u)
  run_next rest_of past_end u = overrun
  run_next rest_of (command c rest) u = do u' ← run_command c (count_part u); rest_of rest u'

  -- The `while` over the commands. Each takes at least one byte of the 512.
  unfoldable pub run_commands : ℕ → List ℕ → Updater H → Outcome (Updater H)
  unfolding run_next
  run_commands zero cmd_ptr u = stuck
  run_commands (suc n) cmd_ptr u = run_next (run_commands n) (next_command cmd_ptr) u

  unfoldable pub run_update_manifest : Bool → Updater H → Outcome (Updater H)
  unfolding run_commands
  run_update_manifest verify u =
      run_commands (length u.update_manifest_data + 1) (drop version_size u.update_manifest_data)
        (record u { update_verify = verify; update_part = 0 })
