-- ===== src/Updater/Tests.antt =====
-- A cartridge whose flash memory is a function of the address, and runs of the updater on it.
use nileswan.Base.{ℕ, ◌+◌, ◌-◌, ◌≡◌, refl, true, false, List, [], ◌∷◌, ◌++◌, arith, ◌&&◌, leb}
use nileswan.Base.{ltb, if◌then◌else◌, get_or, length, bit_and, replicate, inl}
use nileswan.Base.{splice, ◌==◌}
use nileswan.Crc.{crc16}
use nileswan.Updater.{Hardware, Updater, done, halted, overrun, ◌>>=◌, require}
use nileswan.Updater.{early_error, crc_error, corrupt_data}
use nileswan.Updater.Command.{FlashCommand, Command, flash, mcu_flash, start_manifest}
use nileswan.Updater.Command.{finish_manifest, check_board_revision_range, next_command}
use nileswan.Updater.Flash.{run_um_cmd_flash, same_bytes}
use nileswan.Updater.Flash.{
  erase_sectors, flash_pages, run_um_cmd_start_manifest, run_um_cmd_finish_manifest,
}
use nileswan.Updater.Mcu.{run_um_cmd_mcu_flash}
use nileswan.Updater.Run.{run_command, run_update_manifest, run_commands}
use nileswan.Updater.Laws.{AllStates}
use nileswan.Updater.Laws.Verify.{Untouched, run_update_manifest_verify}
use nileswan.Updater.Laws.Devices.{DeviceErrors}
use nileswan.Updater.Laws.Second.{run_update_manifest_second}
use nileswan.Updater.Laws.Contents.{IsFlash, run_um_cmd_flash_Written}
use nileswan.Updater.Laws.Ends.{Returns, run_update_manifest-Returns}
use nileswan.Updater.Laws.Encode.{encode_all, run_all, run_commands-encode_all}
use nileswan.Updater.Bytes.{read_cells}

-- Segment 0x2000 holds three bytes.
abbrev data_of : ℕ → List ℕ
data_of segment = if segment == 8192 then 7 ∷ 8 ∷ 9 ∷ [] else []

-- Erasing sets all bits, and writing clears bits.
abbrev cartridge : Hardware
cartridge = record {
  State = ℕ → ℕ;
  board_revision = 1;
  rom = data_of;
  decompress = data_of;
  erase_4k = λ a s. (λ x. if leb a x && ltb x (a + 4096) then 255 else s x, true);
  write_page = λ page a s. (
    λ x. if leb a x && ltb x (a + length page) then bit_and (s x) (get_or page (x - a) 0) else s x,
    true,
  );
  read = λ a n s. (s, true, read_cells s a n);
  mcu_reset = λ on s. (s, true);
  mcu_erase = λ a n s. (s, true);
  mcu_write = λ a page s. (s, true);
  mcu_read = λ a n s. (s, true, read_cells s a n);
  mcu_page_size = 2048;
  mcu_flash_start = 134217728;
  unlock = λ s. s;
}

cartridge-IsFlash : IsFlash cartridge (λ s. s)
cartridge-IsFlash = record {
  read_keeps = λ a n s. refl;
  read_bytes = λ a n s h. refl;
  write_keeps = λ page a s x h lt. ground arith;
}

abbrev part : FlashCommand
part = record {
  cmd = 2;
  load_segment = 8192;
  unpacked_length = 3;
  flash_address = 512;
  expected_crc = 40208;
  board_revision = 256;
}

abbrev commands : List Command
commands =
    check_board_revision_range 0 3
    ∷ start_manifest 0
    ∷ flash part
    ∷ mcu_flash (record part { cmd = 4; flash_address = 2048 })
    ∷ finish_manifest 0
    ∷ []

abbrev header : List ℕ
header = 70 ∷ 87 ∷ replicate 62 0

abbrev updater : Updater cartridge
updater = record {
  hardware = λ x. 0;
  unpack_buffer = replicate 8 0;
  update_manifest_data = header ++ encode_all commands;
  flash_version_address = 0;
  mcu_restarted = false;
  update_part = 0;
  update_verify = false;
}

-- A part with a wrong checksum, and a command that does not exist
bad_checksum :
    run_um_cmd_flash cartridge (record part { expected_crc = 1 }) updater
    ≡ halted (crc_error 0 40208 1) (record updater { unpack_buffer = 7 ∷ 8 ∷ 9 ∷ replicate 5 0 })
unfolding run_um_cmd_flash crc16 ◌>>=◌ require
bad_checksum = refl

bad_command :
    run_update_manifest cartridge true
      (record updater { update_manifest_data = header ++ (9 ∷ []) })
    ≡ halted (early_error corrupt_data 9) (record updater {
      update_manifest_data = header ++ (9 ∷ []);
      update_part = 1;
      update_verify = true;
    })
unfolding run_update_manifest next_command
bad_command = refl

-- A manifest without its last byte is read past its end.
unfinished :
    run_update_manifest cartridge true (record updater { update_manifest_data = header }) ≡ overrun
unfolding run_update_manifest next_command
unfinished = refl

run_update_manifest_verify_example :
    AllStates (Untouched cartridge (λ s. s) (λ x. 0)) (run_update_manifest cartridge true updater)
run_update_manifest_verify_example =
    run_update_manifest_verify cartridge (λ s. s) (λ on s. refl) updater

-- The state that the first pass over the commands leaves
abbrev verified : Updater cartridge
verified = record updater {
  unpack_buffer = 7 ∷ 8 ∷ 9 ∷ replicate 5 0;
  mcu_restarted = true;
  update_part = 5;
  update_verify = true;
}

first_pass : run_update_manifest cartridge true updater ≡ done verified
unfolding run_update_manifest next_command crc16 run_um_cmd_flash run_um_cmd_mcu_flash run_command
    run_um_cmd_start_manifest run_um_cmd_finish_manifest ◌>>=◌ require
first_pass = refl

run_update_manifest_second_example : DeviceErrors (run_update_manifest cartridge false verified)
unfolding next_command
run_update_manifest_second_example =
    run_update_manifest_second cartridge updater (tt, (tt, (omega arith, (omega arith, (tt, tt)))))
      first_pass

run_update_manifest-Returns_example : Returns (run_update_manifest cartridge false updater)
unfolding next_command
run_update_manifest-Returns_example =
    run_update_manifest-Returns cartridge false updater
      (tt, (tt, ((omega arith, omega arith), (omega arith, (tt, tt)))))

run_commands-encode_all_example :
    run_commands cartridge 6 (encode_all commands ++ (1 ∷ 2 ∷ [])) updater
    ≡ run_all cartridge commands updater
run_commands-encode_all_example =
    run_commands-encode_all cartridge commands 0 (1 ∷ 2 ∷ []) updater (
      (omega arith, omega arith),
      (
        omega arith,
        (
          ((omega arith, omega arith, omega arith, omega arith, omega arith), inl refl),
          (
            ((omega arith, omega arith, omega arith, omega arith, omega arith), inl refl),
            (omega arith, tt),
          ),
        ),
      ),
    )

-- The part written to an erased flash memory
flashed : (v : Updater cartridge) × (run_um_cmd_flash cartridge part updater ≡ done v)
unfolding run_um_cmd_flash crc16 ◌>>=◌ require erase_sectors flash_pages same_bytes read_cells
flashed = (_, refl)

run_um_cmd_flash_Written_example :
    (read_cells flashed.0.hardware 512 3 ≡ 7 ∷ 8 ∷ 9 ∷ [])
    × (crc16 (splice (replicate 8 0) 0 (7 ∷ 8 ∷ 9 ∷ [])) 3 0 ≡ 40208)
run_um_cmd_flash_Written_example =
    run_um_cmd_flash_Written cartridge (λ s. s) cartridge-IsFlash part updater refl refl
      (omega arith) flashed.1
