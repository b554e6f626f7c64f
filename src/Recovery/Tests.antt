-- ===== src/Recovery/Tests.antt =====
-- A cartridge whose calls all succeed, for the laws of software/userland/src/recovery.
use nileswan.Base.{
  ℕ, ◌+◌, ◌-◌, ◌*◌, ◌^◌, ◌<◌, ◌≡◌, ◌≢◌, ◌↔◌, refl, ap, arith, Bool, true, false, ◌&&◌,
}
use nileswan.Base.{
  List, [], ◌∷◌, ◌++◌, some, leb, ltb, if◌then◌else◌, length, take, splice, get_or, replicate,
}
use nileswan.Updater.Flash.{same_bytes}
use nileswan.Updater.Bytes.{read_cells}
use nileswan.Recovery.{Platform, Machine, ok, ◌>>=◌}
use nileswan.Recovery.McuSetup.{op_mcu_setup_flash_firmware}
use nileswan.Recovery.McuSetup.Written.{IsMemory, op_mcu_setup_flash_firmware_written}
use nileswan.Recovery.TfCard.{op_tf_card_init}
use nileswan.Recovery.Dump.{op_mcu_setup_dump_flash, dump_file}
use nileswan.Recovery.Dump.Laws.{IsFile, op_mcu_setup_dump_flash-content}
use nileswan.Native.State.{Mcu}
use nileswan.Native.Tests.{protocol, unplugged, world, mcu}
use nileswan.Hid.Tests.{number}
use nileswan.Recovery.Memory.{
  Banks, test_memory_sram_write, test_memory_sram_read, test_eeprom_retention,
}
use nileswan.Recovery.Memory.Firmware.{firmware}
use nileswan.Recovery.Memory.Eeprom.{test_eeprom_retention_passes}
use nileswan.Recovery.Memory.SramTest.{test_memory_sram_passes}
use nileswan.Recovery.Button.{Button, Frame, test_button}
use nileswan.Recovery.Button.Laws.{last_pair, test_button_sees}

-- The microcontroller's memory, and the file
record Card : Type 0 where
  memory : ℕ → ℕ
  file : List ℕ

abbrev stored : ℕ → List ℕ → (ℕ → ℕ) → ℕ → ℕ
stored a bs f x = if leb a x && ltb x (a + length bs) then get_or bs (x - a) 0 else f x

abbrev good : Platform Card
good = record {
  mcu_reset = λ boot s. (true, s);
  mcu_boot_start = λ s. (false, s);
  mcu_read = λ a n s. (some (read_cells s.memory a n), s);
  mcu_write = λ a bs s. (true, record s { memory = stored a bs s.memory });
  mcu_erase = λ a n s. (true, s);
  mcu_page_size = 2048;
  mcu_flash_start = 0x8000000;
  flash_wake = λ s. (true, s);
  flash_read = λ a n s. (some (read_cells s.memory a n), s);
  board_revision = 1;
  decompress = λ segment. 1 ∷ 2 ∷ 3 ∷ [];
  fs_type = λ s. 3;
  eject = λ s. s;
  disk_initialize = λ s. (0, s);
  f_mount = λ s. (0, s);
  f_mkfs = λ s. (0, s);
  f_open = λ anew s. (0, if anew then record s { file = [] } else s);
  f_size = λ s. length s.file;
  f_lseek = λ n s. (0, s);
  f_truncate = λ s. (0, record s { file = [] });
  f_write = λ bs s. ((0, length bs), record s { file = s.file ++ bs });
  f_read = λ n s. ((0, take n s.file), s);
  f_close = λ s. (0, s);
  accepts = λ s. (true, s);
}

abbrev card : Machine Card
card = record { lib = record { memory = λ a. 255; file = 7 ∷ 7 ∷ [] }; spi_cnt = 9 }

abbrev cells : Card → ℕ → ℕ
cells s = s.memory

good-IsMemory : IsMemory good cells
good-IsMemory = record {
  read_keeps = λ a n s. refl;
  read_bytes = λ a n s came. cc;
  write_keeps = λ a bs s x below. ground arith;
}

-- A table of two boards, the second with a firmware of 3 bytes
abbrev header : List ℕ
header = 2 ∷ 0 ∷ 0 ∷ 5 ∷ 3 ∷ []

abbrev flashed : Machine Card
flashed = (op_mcu_setup_flash_firmware good 33 header (replicate 8 0) card).1

flashes : op_mcu_setup_flash_firmware good 33 header (replicate 8 0) card ≡ (some ok, flashed)
unfolding op_mcu_setup_flash_firmware ◌>>=◌ same_bytes read_cells
flashes = refl

op_mcu_setup_flash_firmware_written_example :
    (1 < 2)
    × ◌≢◌ {A = ℕ} 5 0
    × (read_cells (cells flashed.lib) 0x8000000 3
        ≡ take 3 (splice (replicate 8 0) 0 (1 ∷ 2 ∷ 3 ∷ [])))
    × (flashed.spi_cnt ≡ 9)
op_mcu_setup_flash_firmware_written_example =
    op_mcu_setup_flash_firmware_written good cells good-IsMemory 33 header (replicate 8 0) card
      (omega arith) flashes

-- A microcontroller whose memory is always the same
abbrev flash_memory : ℕ → ℕ
flash_memory a = 255

abbrev fixed : Platform Card
fixed = record good { mcu_read = λ a n s. (some (read_cells flash_memory a n), s) }

abbrev content : Card → List ℕ
content s = s.file

fixed-IsFile : IsFile fixed fixed.mcu_read content flash_memory
fixed-IsFile = record {
  read_bytes = λ a n s came. cc;
  read_keeps = λ a n s. refl;
  new_file = λ s opened. refl;
  appends = λ bs s done. refl;
  close_keeps = λ s. refl;
}

abbrev dumped : Machine Card
dumped = (op_mcu_setup_dump_flash fixed 32 33 card).1

dump_succeeds : (op_mcu_setup_dump_flash fixed 32 33 card).0 ≡ some ok
unfolding op_mcu_setup_dump_flash op_tf_card_init dump_file ◌>>=◌
dump_succeeds = refl

op_mcu_setup_dump_flash-content_example :
    content dumped.lib ≡ read_cells flash_memory 0x8000000 (256 * 1024)
op_mcu_setup_dump_flash-content_example =
    op_mcu_setup_dump_flash-content fixed content flash_memory 32 33 fixed-IsFile card
      (ap (λ r. (r, dumped)) dump_succeeds)

abbrev no_ram : Banks
no_ram bank x = 0

test_memory_sram_passes_example :
    (test_memory_sram_read (test_memory_sram_write no_ram) ≡ true)
    × ((test_memory_sram_read no_ram ≡ true)
        ↔ ((b x : ℕ) → b < 8 → x < 2 ^ 16 → no_ram b x ≡ test_memory_sram_write no_ram b x))
test_memory_sram_passes_example = test_memory_sram_passes no_ram no_ram

abbrev restart : Mcu ℕ → Bool × Mcu ℕ
restart m = (true, m)

test_eeprom_retention_passes_example :
    let client = firmware protocol unplugged number world true restart in
    let first = test_eeprom_retention client 6 true mcu in
    let again = test_eeprom_retention client 6 false first.1 in
    (first.0 ≡ true) × (again.0 ≡ true) × ((test_eeprom_retention client 6 false again.1).0 ≡ true)
test_eeprom_retention_passes_example =
    test_eeprom_retention_passes protocol unplugged number world true restart (λ m. refl)
      (λ m. refl) 6 mcu refl

-- A press that lasts, with a sample between that is lost
abbrev frames : List Frame
frames =
    (true, false)
    ∷ (false, false)
    ∷ (true, false)
    ∷ (true, false)
    ∷ (false, false)
    ∷ (false, false)
    ∷ []

abbrev idle : Button
idle = record { fetch1 = false; fetch2 = false; pressed = false }

abbrev released : Button
released = record { fetch1 = false; fetch2 = false; pressed = false }

button_passes : test_button false false frames idle ≡ some (true, released, [])
unfolding test_button
button_passes = refl

test_button_sees_example :
    (xs ys zs : List Frame) × (frames ≡ xs ++ (ys ++ (zs ++ [])))
    × (last_pair false false xs ≡ false)
    × (last_pair false false (xs ++ ys) ≡ true)
    × (last_pair false false (xs ++ (ys ++ zs)) ≡ false)
test_button_sees_example = test_button_sees false false frames idle button_passes
