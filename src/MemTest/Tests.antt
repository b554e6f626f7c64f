-- ===== src/MemTest/Tests.antt =====
-- Runs of the quick memory test on boards with and without a fault, and the theorems at them.
use nileswan.Base.{◌+◌, ◌*◌, ◌≡◌, false, clear_field}
use nileswan.MemTest.{Wiring, Cells, data_lines}
use nileswan.MemTest.Quick.{all_ok, Board, run_quick_v2}
use nileswan.MemTest.Laws.{has_good_lines, run_quick_v2_lem}

-- Every bank is 64 KiB of cells of its own.
abbrev flat : Wiring
flat bank offset = bank * 65536 + offset

-- Address line A3 is not connected.
abbrev without_a3 : Wiring
without_a3 bank offset = clear_field (flat bank offset) 3 1

abbrev empty : Cells
empty c = 0

abbrev board : Board
board = record {
  psram1 = flat;
  psram2 = flat;
  sram = flat;
  ipc = flat;
  psram1_data = λ v. v;
  psram2_data = λ v. v;
  sram_data = λ v. v;
  ipc_data = λ v. v;
  cart = λ bank. flat bank 0;
  ipc_segment = 14;
}

-- Data line D2 of the SRAM is stuck at 0.
faulty_data : run_quick_v2 (record board { sram_data = λ v. clear_field v 2 1 }) empty ≡ false
unfolding all_ok data_lines
faulty_data = run_quick_v2_lem (record board { sram_data = λ v. clear_field v 2 1 }) empty

run_quick_v2_lem_example : run_quick_v2 board empty ≡ has_good_lines board
run_quick_v2_lem_example = run_quick_v2_lem board empty
