-- ===== src/Updater/Laws/Ends.antt =====
-- The loops of software/userland/src/updater/main.c come to an end.
use nileswan.Base.{ℕ, zero, suc, ◌+◌, ◌-◌, ◌*◌, ◌^◌, ◌≤◌, ◌<◌, Bool, true, false}
use nileswan.Base.{List, [], ◌∷◌, arith, length, drop, length-drop, ltb, if◌then◌else◌, Bool-cases}
use nileswan.Base.{inl, inr, u32, ◌==◌, ltb→lt}
use nileswan.Updater.{Hardware, Updater, Outcome, done, halted, overrun, ◌>>=◌, require, Halt}
use nileswan.Updater.Command.{FlashCommand, Command, flash, mcu_flash, start_manifest}
use nileswan.Updater.Command.{finish_manifest, check_board_revision_range, next_command}
use nileswan.Updater.Command.{Next, finished, unknown, past_end, command, sized}
use nileswan.Updater.Flash.{run_um_cmd_flash, run_um_cmd_start_manifest, extract, flash_part}
use nileswan.Updater.Flash.{run_um_cmd_finish_manifest, other_board, erase_sectors, check_page}
use nileswan.Updater.Flash.{flash_pages, write_manifest, install_version}
use nileswan.Updater.Flash.{version_size, same_bytes}
use nileswan.Updater.Mcu.{run_um_cmd_mcu_flash, enter_boot_loader, mcu_part, mcu_blocks}
use nileswan.Updater.Mcu.{option_bytes, configure_mcu, write_options, mcu_check}
use nileswan.Updater.Run.{check_range, run_command, run_next, run_commands, run_update_manifest}
use nileswan.Updater.Laws.{AllCommands, NextSatisfies}

-- The part of the program does not hang in a loop.
pub data Returns {S : Type 0} : Outcome S → Type 0 where
  ends : (s : S) → Returns (done s)
  stops : (h : Halt) (s : S) → Returns (halted h s)
  strays : Returns overrun

Returns->>= :
    {S : Type 0} {o : Outcome S} {f : S → Outcome S}
    → Returns o
    → ((s : S) → Returns (f s))
    → Returns (o >>= f)
unfolding ◌>>=◌
Returns->>= (ends s) g = g s
Returns->>= (stops h s) g = stops h s
Returns->>= strays g = strays

require-Returns : {S : Type 0} (ok : Bool) (h : Halt) (s : S) → Returns (require ok h s)
unfolding require
require-Returns true h s = ends s
require-Returns false h s = stops h s

if-Returns :
    {S : Type 0} (b : Bool) (x y : Outcome S) → Returns x → Returns y → Returns (if b then x else y)
if-Returns true x y p q = p
if-Returns false x y p q = q

module _ (H : Hardware) where
  check_page-Returns :
      (n : ℕ) (page : List ℕ) (a : ℕ) (u : Updater H) → Returns (check_page H n page a u)
  check_page-Returns n page a u = Returns->>= (require-Returns _ _ _) (λ s. require-Returns _ _ _)

  mcu_check-Returns :
      (n : ℕ) (page : List ℕ) (a : ℕ) (u : Updater H) → Returns (mcu_check H n page a u)
  mcu_check-Returns n page a u = Returns->>= (require-Returns _ _ _) (λ s. require-Returns _ _ _)

  -- Where the end is not in the last sector of the address space, the address does not wrap round.
  erase_sectors-Returns :
      (n a e : ℕ) (u : Updater H)
      → e - a ≤ n * 4096
      → e + 4096 ≤ 2 ^ 32
      → Returns (erase_sectors H n a e u)
  unfolding erase_sectors
  erase_sectors-Returns zero a e u enough top = elim (Bool-cases (ltb a e)) [
    | inr stop ↦ rw (erase_sectors, stop) (ends u)
    | inl more ↦ absurd (ground arith)
  ]
  erase_sectors-Returns (suc n) a e u enough top = elim (Bool-cases (ltb a e)) [
    | inr stop ↦ rw (erase_sectors, stop) (ends u)
    | inl more ↦
        let lt = ltb→lt a e more in
        rw (erase_sectors, more)
          (Returns->>= (require-Returns _ _ _)
            (λ s. erase_sectors-Returns n (u32 (a + 4096)) e s (omega arith) top))
  ]

  flash_pages-Returns :
      (n a e i : ℕ) (u : Updater H) → e - a ≤ n * 256 → Returns (flash_pages H n a e i u)
  unfolding flash_pages
  flash_pages-Returns zero a e i u enough = elim (Bool-cases (ltb a e)) [
    | inr stop ↦ rw (flash_pages, stop) (ends u)
    | inl more ↦ absurd (ground arith)
  ]
  flash_pages-Returns (suc n) a e i u enough = elim (Bool-cases (ltb a e)) [
    | inr stop ↦ rw (flash_pages, stop) (ends u)
    | inl more ↦
        rw (flash_pages, more)
          (Returns->>= (require-Returns _ _ _) (λ s.
            Returns->>= (check_page-Returns _ _ a s)
              (λ t. flash_pages-Returns n _ e _ t (omega arith))))
  ]

  mcu_blocks-Returns :
      (n a e i : ℕ) (u : Updater H) → e - a ≤ n * 128 → Returns (mcu_blocks H n a e i u)
  unfolding mcu_blocks
  mcu_blocks-Returns zero a e i u enough = elim (Bool-cases (ltb a e)) [
    | inr stop ↦ rw (mcu_blocks, stop) (ends u)
    | inl more ↦ absurd (ground arith)
  ]
  mcu_blocks-Returns (suc n) a e i u enough = elim (Bool-cases (ltb a e)) [
    | inr stop ↦ rw (mcu_blocks, stop) (ends u)
    | inl more ↦
        rw (mcu_blocks, more)
          (Returns->>= (require-Returns _ _ _) (λ s.
            Returns->>= (mcu_check-Returns _ _ a s)
              (λ t. mcu_blocks-Returns n _ e _ t (omega arith))))
  ]

  -- The fields of a part, where its end is below the last sector
  abbrev pub IsInRange : Command → Type 0
  IsInRange (flash c) =
      (c.unpacked_length < 2 ^ 16) × (c.flash_address + c.unpacked_length + 4096 ≤ 2 ^ 32)
  IsInRange (mcu_flash c) = c.unpacked_length < 2 ^ 16
  IsInRange _ = Unit

  flash-Returns :
      (c : FlashCommand) (u : Updater H) → IsInRange (flash c) → Returns (run_um_cmd_flash H c u)
  unfolding run_um_cmd_flash extract flash_part
  flash-Returns c u (short, low) =
      let sectors = erase_sectors-Returns 17 in
      if-Returns (other_board H c) _ _ (ends u) (
        Returns->>= (require-Returns _ _ _) (λ s. Returns->>= (require-Returns _ _ _) (λ t.
          if-Returns t.update_verify _ _ (ends t) (
            Returns->>= (erase_sectors-Returns 17 _ _ t (omega arith) (omega arith))
              (λ r. flash_pages-Returns 256 _ _ 0 r (omega arith))))))

  configure_mcu-Returns : (u : Updater H) → Returns (configure_mcu H u)
  unfolding configure_mcu write_options
  configure_mcu-Returns u =
      Returns->>= (require-Returns _ _ _)
        (λ s. if-Returns (same_bytes _ (option_bytes _)) _ _ (ends s) (require-Returns _ _ _))

  boot_loader-Returns : (u : Updater H) → Returns (enter_boot_loader H u)
  unfolding enter_boot_loader
  boot_loader-Returns u =
      if-Returns u.mcu_restarted _ _ (ends u) (Returns->>= (require-Returns _ _ _) (λ s. ends _))

  mcu_part-Returns :
      (c : FlashCommand) (u : Updater H) → IsInRange (mcu_flash c) → Returns (mcu_part H c u)
  unfolding mcu_part
  mcu_part-Returns c u short = if-Returns u.update_verify _ _ (ends u) (
      Returns->>= (require-Returns _ _ _) (λ s.
        Returns->>= (mcu_blocks-Returns 512 _ _ 0 s (omega arith))
          (λ t. Returns->>= (configure_mcu-Returns t) (λ r. ends _))))

  mcu_flash-Returns :
      (c : FlashCommand) (u : Updater H)
      → IsInRange (mcu_flash c)
      → Returns (run_um_cmd_mcu_flash H c u)
  unfolding run_um_cmd_mcu_flash extract
  mcu_flash-Returns c u short = if-Returns (other_board H c) _ _ (ends u) (
      Returns->>= (require-Returns _ _ _) (λ s.
        Returns->>= (require-Returns _ _ _)
          (λ t. Returns->>= (boot_loader-Returns t) (λ r. mcu_part-Returns c r short))))

  manifest-Returns : (n a : ℕ) (u : Updater H) → Returns (write_manifest H n a u)
  unfolding write_manifest
  manifest-Returns n a u = Returns->>= (require-Returns _ _ _) (check_page-Returns _ _ a)

  command-Returns : (c : Command) (u : Updater H) → IsInRange c → Returns (run_command H c u)
  unfolding run_command run_um_cmd_start_manifest run_um_cmd_finish_manifest install_version
      check_range
  command-Returns (flash c) u h = flash-Returns c u h
  command-Returns (mcu_flash c) u h = mcu_flash-Returns c u h
  command-Returns (start_manifest a) u h = Returns->>= (require-Returns _ _ _) (λ s.
      if-Returns s.update_verify _ _ (ends _)
        (Returns->>= (require-Returns _ _ _) (manifest-Returns version_size a)))
  command-Returns (finish_manifest a) u h =
      Returns->>= (require-Returns _ _ _)
        (λ s. if-Returns s.update_verify _ _ (ends s) (manifest-Returns 12 a s))
  command-Returns (check_board_revision_range lo hi) u h = require-Returns _ _ _

-- Reading a command moves on.
unfoldable Shorter : ℕ → Next → Type 0
Shorter n (command c rest) = length rest < n
Shorter n _ = Unit

if-Shorter :
    (n : ℕ) (b : Bool) (x y : Next) → Shorter n x → Shorter n y → Shorter n (if b then x else y)
if-Shorter n true x y p q = p
if-Shorter n false x y p q = q

sized-Shorter :
    (size : ℕ) (c : Command) (p : List ℕ) → 0 < size → Shorter (length p) (sized size c p)
unfolding Shorter
sized-Shorter size c p h = elim (Bool-cases (ltb (length p) size)) [
  | inl short ↦ rw short tt
  | inr fits ↦ rw fits (let rest = length-drop size p in ground arith)
]

next_command-Shorter : (p : List ℕ) → Shorter (length p) (next_command p)
unfolding next_command Shorter
next_command-Shorter [] = tt
next_command-Shorter (b ∷ bs) =
    let p = b ∷ bs in
    let fits : (size : ℕ) (c : Command) → 0 < size → Shorter (length p) (sized size c p) =
      λ size c. sized-Shorter size c p in
    if-Shorter _ (b == 0) _ _ tt (
      if-Shorter _ (b == 2) _ _ (fits 13 _ (omega arith)) (
        if-Shorter _ (b == 3) _ _ (fits 13 _ (omega arith)) (
          if-Shorter _ (b == 4) _ _ (fits 13 _ (omega arith)) (
            if-Shorter _ (b == 5) _ _ (fits 13 _ (omega arith)) (
              if-Shorter _ (b == 6) _ _ (fits 5 _ (omega arith)) (
                if-Shorter _ (b == 7) _ _ (fits 5 _ (omega arith))
                  (if-Shorter _ (b == 8) _ _ (fits 5 _ (omega arith)) tt)))))))

module _ (H : Hardware) where
  next-Returns :
      (n m : ℕ) (next : Next) (u : Updater H)
      → ((p : List ℕ) (u : Updater H)
          → length p < n
          → AllCommands (IsInRange H) n p
          → Returns (run_commands H n p u))
      → Shorter m next
      → m ≤ n
      → NextSatisfies (IsInRange H) (AllCommands (IsInRange H) n) next
      → Returns (run_next H (run_commands H n) next u)
  unfolding run_next Shorter
  next-Returns n m finished u later shorter le h = ends u
  next-Returns n m (unknown cmd) u later shorter le h = stops _ _
  next-Returns n m past_end u later shorter le h = strays
  next-Returns n m (command c rest) u later shorter le h =
      Returns->>= (command-Returns H c _ h.0) (λ t. later rest t (omega arith) h.1)

  commands-Returns :
      (n : ℕ) (p : List ℕ) (u : Updater H)
      → length p < n
      → AllCommands (IsInRange H) n p
      → Returns (run_commands H n p u)
  unfolding run_commands Shorter
  commands-Returns zero p u enough h = absurd (omega arith)
  commands-Returns (suc n) p u enough h =
      next-Returns n (length p) (next_command p) u (commands-Returns n) (next_command-Shorter p)
        (omega arith) h

  -- A pass over a manifest ends, stops with an error or reads past the manifest, and never hangs,
  -- where every part is shorter than 64 KiB and ends below the last 4 KiB of the address space.
  pub run_update_manifest-Returns :
      (verify : Bool) (u : Updater H)
      → AllCommands
          (IsInRange H)
          (length u.update_manifest_data + 1)
          (drop version_size u.update_manifest_data)
      → Returns (run_update_manifest H verify u)
  unfolding run_update_manifest
  run_update_manifest-Returns verify u h =
      commands-Returns _ _ _ (omega (arith, length-drop version_size u.update_manifest_data)) h
