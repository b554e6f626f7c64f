-- ===== src/Updater/Laws/Verify.antt =====
-- The first pass of software/userland/src/updater/main.c, `run_update_manifest(true)`.
use nileswan.Base.{ℕ, zero, suc, ◌≡◌, refl, ◌∙◌, Bool, true, List, arith}
use nileswan.Base.{◌<◌, [], ◌∷◌, set, drop, length, length-set, subst}
use nileswan.Updater.{Hardware, Updater, Outcome, done, ◌>>=◌, require}
use nileswan.Updater.Command.{FlashCommand, Command, flash, mcu_flash, start_manifest}
use nileswan.Updater.Command.{
  Next, finished, unknown, past_end, command, finish_manifest, check_board_revision_range,
  next_command,
}
use nileswan.Updater.Flash.{run_um_cmd_flash, run_um_cmd_start_manifest, extract, flash_part}
use nileswan.Updater.Flash.{run_um_cmd_finish_manifest, set_partial, partial_install, version_size}
use nileswan.Updater.Mcu.{run_um_cmd_mcu_flash, enter_boot_loader, mcu_part}
use nileswan.Updater.Run.{
  count_part, check_range, run_command, run_next, run_commands, run_update_manifest,
}
use nileswan.Updater.Laws.{AllStates, AllStates->>=}

-- What every command keeps, the runner keeps.
module _ (H : Hardware) (P : Updater H → Type 0)
    (keeps : (c : Command) (u : Updater H) → P u → AllStates P (run_command H c (count_part H u)))
    (counts : (u : Updater H) → P u → P (count_part H u)) where
  next-P :
      (rest_of : List ℕ → Updater H → Outcome (Updater H)) (next : Next) (u : Updater H)
      → ((p : List ℕ) (u : Updater H) → P u → AllStates P (rest_of p u))
      → P u
      → AllStates P (run_next H rest_of next u)
  unfolding run_next AllStates
  next-P rest_of finished u later h = h
  next-P rest_of (unknown cmd) u later h = counts u h
  next-P rest_of past_end u later h = tt
  next-P rest_of (command c rest) u later h =
      AllStates->>= P (run_command H c _) (rest_of rest) (keeps c u h) (later rest)

  commands-P : (n : ℕ) (p : List ℕ) (u : Updater H) → P u → AllStates P (run_commands H n p u)
  unfolding run_commands AllStates
  commands-P zero p u h = tt
  commands-P (suc n) p u h = next-P (run_commands H n) (next_command p) u (commands-P n) h

drop-set : (n i : ℕ) (xs : List ℕ) (v : ℕ) → i < n → drop n (set xs i v) ≡ drop n xs
drop-set n i [] v h = refl
drop-set zero i (x ∷ xs) v h = absurd (omega arith)
drop-set (suc n) zero (x ∷ xs) v h = refl
drop-set (suc n) (suc i) (x ∷ xs) v h = drop-set n i xs v (omega arith)

module _ (H : Hardware) where
  -- In the pass that verifies, with the commands as they were
  abbrev SameCommands : ℕ → List ℕ → Updater H → Type 0
  SameCommands size commands u =
      (length u.update_manifest_data ≡ size)
      × (drop version_size u.update_manifest_data ≡ commands)
      × (u.update_verify ≡ true)

  set_partial-SameCommands :
      (size : ℕ) (commands : List ℕ) (v : ℕ) (u : Updater H)
      → SameCommands size commands u
      → SameCommands size commands (set_partial H v u)
  set_partial-SameCommands size commands v u h = (
    length-set u.update_manifest_data partial_install v ∙ h.0,
    drop-set version_size partial_install u.update_manifest_data v (omega arith) ∙ h.1,
    h.2,
  )

  flash-SameCommands :
      (size : ℕ) (commands : List ℕ) (c : FlashCommand) (u : Updater H)
      → SameCommands size commands u
      → AllStates (SameCommands size commands) (run_um_cmd_flash H c u)
  unfolding run_um_cmd_flash extract flash_part AllStates ◌>>=◌ require
  flash-SameCommands size commands c u h = ground arith

  mcu_flash-SameCommands :
      (size : ℕ) (commands : List ℕ) (c : FlashCommand) (u : Updater H)
      → SameCommands size commands u
      → AllStates (SameCommands size commands) (run_um_cmd_mcu_flash H c u)
  unfolding run_um_cmd_mcu_flash extract enter_boot_loader mcu_part AllStates ◌>>=◌ require
  mcu_flash-SameCommands size commands c u h = ground arith

  start-SameCommands :
      (size : ℕ) (commands : List ℕ) (a : ℕ) (u : Updater H)
      → SameCommands size commands u
      → AllStates (SameCommands size commands) (run_um_cmd_start_manifest H a u)
  unfolding run_um_cmd_start_manifest AllStates ◌>>=◌ require
  start-SameCommands size commands a u h =
      let (s, t, e) = set_partial-SameCommands size commands 255 u h in ground arith

  finish-SameCommands :
      (size : ℕ) (commands : List ℕ) (a : ℕ) (u : Updater H)
      → SameCommands size commands u
      → AllStates (SameCommands size commands) (run_um_cmd_finish_manifest H a u)
  unfolding run_um_cmd_finish_manifest AllStates ◌>>=◌ require
  finish-SameCommands size commands a u h =
      let (s, t, e) = set_partial-SameCommands size commands 0 u h in ground arith

  command-SameCommands :
      (size : ℕ) (commands : List ℕ) (c : Command) (u : Updater H)
      → SameCommands size commands u
      → AllStates (SameCommands size commands) (run_command H c u)
  unfolding run_command check_range AllStates require
  command-SameCommands size commands (flash c) u h = flash-SameCommands size commands c u h
  command-SameCommands size commands (mcu_flash c) u h = mcu_flash-SameCommands size commands c u h
  command-SameCommands size commands (start_manifest a) u h = start-SameCommands size commands a u h
  command-SameCommands size commands (finish_manifest a) u h =
      finish-SameCommands size commands a u h
  command-SameCommands size commands (check_board_revision_range lo hi) u h = ground arith

  -- The pass that verifies leaves the commands of the manifest alone.
  pub commands_kept :
      (u : Updater H) {u' : Updater H}
      → run_update_manifest H true u ≡ done u'
      → (length u'.update_manifest_data ≡ length u.update_manifest_data)
        × (drop version_size u'.update_manifest_data ≡ drop version_size u.update_manifest_data)
  unfolding run_update_manifest AllStates
  commands_kept u e =
      let h = subst (AllStates (SameCommands _ _)) e (
        commands-P H (SameCommands _ _) (λ c u. command-SameCommands _ _ c _) (λ u p. p) _ _ _
          (refl, refl, refl)) in
      (h.0, h.1)

module _ (H : Hardware) (flash_cells : H.State → ℕ → ℕ) where
  -- In the pass that verifies, with the flash as it was
  abbrev pub Untouched : (ℕ → ℕ) → Updater H → Type 0
  Untouched cells u = (u.update_verify ≡ true) × (flash_cells u.hardware ≡ cells)

  flash-Untouched :
      (cells : ℕ → ℕ) (c : FlashCommand) (u : Updater H)
      → Untouched cells u
      → AllStates (Untouched cells) (run_um_cmd_flash H c u)
  unfolding run_um_cmd_flash extract flash_part AllStates ◌>>=◌ require
  flash-Untouched cells c u p = ground arith

  module _
      (reset_keeps : (on : Bool) (s : H.State)
        → flash_cells (H.mcu_reset on s).0 ≡ flash_cells s) where
    mcu_flash-Untouched :
        (cells : ℕ → ℕ) (c : FlashCommand) (u : Updater H)
        → Untouched cells u
        → AllStates (Untouched cells) (run_um_cmd_mcu_flash H c u)
    unfolding run_um_cmd_mcu_flash extract enter_boot_loader mcu_part AllStates ◌>>=◌ require
    mcu_flash-Untouched cells c u p = ground (arith, reset_keeps true u.hardware)

    command-Untouched :
        (cells : ℕ → ℕ) (c : Command) (u : Updater H)
        → Untouched cells u
        → AllStates (Untouched cells) (run_command H c u)
    unfolding run_command run_um_cmd_start_manifest run_um_cmd_finish_manifest check_range AllStates
        ◌>>=◌ require
    command-Untouched cells (flash c) u p = flash-Untouched cells c u p
    command-Untouched cells (mcu_flash c) u p = mcu_flash-Untouched cells c u p
    command-Untouched cells (start_manifest a) u p = ground arith
    command-Untouched cells (finish_manifest a) u p = ground arith
    command-Untouched cells (check_board_revision_range lo hi) u p = ground arith

    -- However the first pass ends, the flash memory is as it was, provided that a reset of the
    -- microcontroller leaves it alone.
    pub run_update_manifest_verify :
        (u : Updater H)
        → AllStates (Untouched (flash_cells u.hardware)) (run_update_manifest H true u)
    unfolding run_update_manifest
    run_update_manifest_verify u =
        let cells = flash_cells u.hardware in
        commands-P H (Untouched cells) (λ c u. command-Untouched cells c _) (λ u p. p) _ _ _
          (refl, refl)
