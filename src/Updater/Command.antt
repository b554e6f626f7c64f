-- ===== src/Updater/Command.antt =====
-- The commands of an update: the structures of software/userland/src/updater/manifest.h, and how
-- run_update_manifest of main.c reads them.
use nileswan.Base.{ℕ, ◌+◌, ◌*◌, List, [], ◌∷◌, ◌==◌, ltb, if◌then◌else◌, length, drop, get_or}

-- `um_flash_cmd_t`; `packed` is the bit that tells UM_CMD_PACKED_FLASH from the other commands.
pub record FlashCommand : Type 0 where
  pub cmd : ℕ
  pub load_segment : ℕ
  pub unpacked_length : ℕ
  pub flash_address : ℕ
  pub expected_crc : ℕ
  pub board_revision : ℕ

-- A command, by the function that runs it
pub data Command : Type 0 where
  flash : FlashCommand → Command
  mcu_flash : FlashCommand → Command
  start_manifest : ℕ → Command
  finish_manifest : ℕ → Command
  check_board_revision_range : ℕ → ℕ → Command

-- What stands at `cmd_ptr`
pub data Next : Type 0 where
  finished : Next
  unknown : ℕ → Next
  past_end : Next
  command : Command → List ℕ → Next

abbrev pub um_cmd_end : ℕ
um_cmd_end = 0

abbrev pub um_cmd_flash : ℕ
um_cmd_flash = 2

abbrev pub um_cmd_packed_flash : ℕ
um_cmd_packed_flash = 3

abbrev pub um_cmd_mcu_flash : ℕ
um_cmd_mcu_flash = 4

abbrev pub um_cmd_mcu_packed_flash : ℕ
um_cmd_mcu_packed_flash = 5

abbrev pub um_cmd_start_manifest : ℕ
um_cmd_start_manifest = 6

abbrev pub um_cmd_finish_manifest : ℕ
um_cmd_finish_manifest = 7

abbrev pub um_cmd_check_range : ℕ
um_cmd_check_range = 8

-- Fields of packed structures, low byte first
abbrev pub word_at : List ℕ → ℕ → ℕ
word_at p i = get_or p i 0 + get_or p (i + 1) 0 * 256

abbrev pub long_at : List ℕ → ℕ → ℕ
long_at p i = word_at p i + word_at p (i + 2) * 65536

abbrev pub flash_command : List ℕ → FlashCommand
flash_command p = record {
  cmd = get_or p 0 0;
  load_segment = word_at p 1;
  unpacked_length = word_at p 3;
  flash_address = long_at p 5;
  expected_crc = word_at p 9;
  board_revision = word_at p 11;
}

-- The structure of so many bytes at `cmd_ptr`, which moves past it
abbrev pub sized : ℕ → Command → List ℕ → Next
sized size c p = if ltb (length p) size then past_end else command c (drop size p)

-- The `while` and the `switch` of `run_update_manifest`
unfoldable pub next_command : List ℕ → Next
next_command [] = past_end
next_command (cmd ∷ rest) =
    let p = cmd ∷ rest in
    if cmd == um_cmd_end
    then finished
    else if cmd == um_cmd_flash
    then sized 13 (flash (flash_command p)) p
    else if cmd == um_cmd_packed_flash
    then sized 13 (flash (flash_command p)) p
    else if cmd == um_cmd_mcu_flash
    then sized 13 (mcu_flash (flash_command p)) p
    else if cmd == um_cmd_mcu_packed_flash
    then sized 13 (mcu_flash (flash_command p)) p
    else if cmd == um_cmd_start_manifest
    then sized 5 (start_manifest (long_at p 1)) p
    else if cmd == um_cmd_finish_manifest
    then sized 5 (finish_manifest (long_at p 1)) p
    else if cmd == um_cmd_check_range
    then sized 5 (check_board_revision_range (word_at p 1) (word_at p 3)) p
    else unknown cmd
