-- ===== src/MemTest/Quick.antt =====
-- mem_test_run_quick_v2 and its helpers, of software/ipl1/src/safe/mem_test.c.
use nileswan.Base.{ℕ, zero, suc, ◌+◌, ◌^◌, Bool, true, false, List, [], ◌∷◌, ◌&&◌, if◌then◌else◌}
use nileswan.Base.{bit_xor, ◌!=◌, ◌||◌, not}
use nileswan.MemTest.{Wiring, Cells, store, phys_address_line, data_lines}

-- The result of `mem_test_qv2_print_values`: `result &= *array != 0`
unfoldable pub all_ok : List Bool → Bool
all_ok [] = true
all_ok (ok ∷ rest) = let later = all_ok rest in ok && later

-- The memories of the cartridge, by their wiring and their data lines. `cart` is PSRAM1 as the ROM
-- window sees it: the cell that a segment of the console's address space reaches, next to `psram1`.
pub record Board : Type 0 where
  pub psram1 : Wiring
  pub psram2 : Wiring
  pub sram : Wiring
  pub ipc : Wiring
  pub psram1_data : ℕ → ℕ
  pub psram2_data : ℕ → ℕ
  pub sram_data : ℕ → ℕ
  pub ipc_data : ℕ → ℕ
  pub cart : ℕ → ℕ
  -- NILE_SEG_RAM_IPC
  pub ipc_segment : ℕ

-- A line of `mem_test_qv2_psram_a16_a19`: the window with the line turned over must show the bank with
-- the line turned over, and not bank 15.
unfoldable pub cart_line : ℕ → ℕ → ℕ → Cells → Bool × Cells
cart_line other here seen cells =
    let one = store here 255 (store other 0 cells) in
    let two = store here 0 (store other 255 one) in
    if one seen != 0 then (false, one) else if two seen != 255 then (false, two) else (true, two)

module _ (b : Board) where
  unfoldable pub cart_lines : ℕ → ℕ → Cells → List Bool × Cells
  unfolding cart_line
  cart_lines line zero cells = ([], cells)
  cart_lines line (suc count) cells =
      let bank = bit_xor 15 (2 ^ line) in
      let (ok, after) = cart_line (b.psram1 bank 0) (b.psram1 15 0) (b.cart bank) cells in
      let (rest, last) = cart_lines (line + 1) count after in (ok ∷ rest, last)

  -- `result`, from what the tests of the lines have found; `psram1_dead` leaves one of them out.
  unfoldable pub quick_result : List Bool → List Bool → List Bool → List Bool → List Bool → Bool
  unfolding all_ok
  quick_result psram1 psram2 sram ipc cart =
      let psram1_addr = all_ok psram1 in
      let psram1_data = all_ok (data_lines b.psram1_data 0 16) in
      let psram1_dead = not psram1_addr || not psram1_data in
      let others = all_ok psram2 && (all_ok sram && all_ok ipc) in
      let words =
        all_ok (data_lines b.psram2_data 0 16)
        && (all_ok (data_lines b.sram_data 0 8) && all_ok (data_lines b.ipc_data 0 8)) in
      (psram1_addr && others)
      && (psram1_data && ((if psram1_dead then true else all_ok cart) && words))

  -- `mem_test_run_quick_v2`. The data lines are tested between the others, on cells that every later
  -- test writes before it reads them.
  unfoldable pub run_quick_v2 : Cells → Bool
  unfolding cart_lines quick_result
  run_quick_v2 cells =
      let (psram1, cells1) = phys_address_line b.psram1 23 0 cells in
      let (psram2, cells2) = phys_address_line b.psram2 23 128 cells1 in
      let (sram, cells3) = phys_address_line b.sram 19 0 cells2 in
      let (ipc, cells4) = phys_address_line b.ipc 9 b.ipc_segment cells3 in
      quick_result psram1 psram2 sram ipc (cart_lines 0 4 cells4).0
