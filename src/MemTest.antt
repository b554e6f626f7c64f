-- ===== src/MemTest.antt =====
-- The quick memory test of the boot loader: software/ipl1/src/safe/mem_test.c. What it draws is left
-- out. A memory is known by its wiring, a parameter: which cell an address of the bus reaches, and
-- what comes back over the data lines for a word that is written.
pub mod Quick
pub mod Laws
mod Tests
use nileswan.Base.{
  ℕ, zero, suc, ◌+◌, ◌-◌, ◌*◌, ◌^◌, ◌%◌, Bool, true, false, List, [], ◌∷◌, ◌++◌, ◌&&◌,
}
use nileswan.Base.{◌==◌, ◌!=◌, ltb, if◌then◌else◌, test_bit, not, min}

-- The cell of a bank and of an offset in it; the contents of the cells
abbrev pub Wiring : Type 0
Wiring = ℕ → ℕ → ℕ

abbrev pub Cells : Type 0
Cells = ℕ → ℕ

abbrev pub store : ℕ → ℕ → Cells → Cells
store cell v cells = λ c. if c == cell then v else cells c

-- One line: the byte at the first address must survive a write at the second, both ways.
unfoldable pub address_line : ℕ → ℕ → Cells → Bool × Cells
address_line first second cells =
    let one = store second 255 (store first 0 cells) in
    let two = store second 0 (store first 255 one) in
    if one first != 0 then (false, one) else if two first != 255 then (false, two) else (true, two)

module _ (wiring : Wiring) where
  -- A0 to A15, within the bank; `bit` is the next line and `count` how many are left
  unfoldable pub offset_lines : ℕ → ℕ → ℕ → Cells → List Bool × Cells
  unfolding address_line
  offset_lines bank bit zero cells = ([], cells)
  offset_lines bank bit (suc count) cells =
      let (ok, after) = address_line (wiring bank 0) (wiring bank (2 ^ bit)) cells in
      let (rest, last) = offset_lines bank (bit + 1) count after in (ok ∷ rest, last)

  -- A16 and on, between the banks
  unfoldable pub bank_lines : ℕ → ℕ → ℕ → Cells → List Bool × Cells
  unfolding address_line
  bank_lines start bank zero cells = ([], cells)
  bank_lines start bank (suc count) cells =
      let (ok, after) = address_line (wiring start 0) (wiring (start + 2 ^ bank) 0) cells in
      let (rest, last) = bank_lines start (bank + 1) count after in (ok ∷ rest, last)

  -- `mem_test_qv2_phys_address_line`
  unfoldable pub phys_address_line : ℕ → ℕ → Cells → List Bool × Cells
  unfolding offset_lines bank_lines
  phys_address_line count start_bank cells =
      let (low, after) = offset_lines start_bank 0 (min count 16) cells in
      let (high, last) = bank_lines start_bank 0 (count - 16) after in (low ++ high, last)

-- The data lines: what is read back for a word that is written
module _ (data_bus : ℕ → ℕ) where
  unfoldable pub data_line : ℕ → Bool
  data_line bit = if test_bit (data_bus 0) bit then false else test_bit (data_bus (2 ^ bit)) bit

  -- `mem_test_qv2_phys_data_line_16` and `mem_test_qv2_phys_data_line_8`
  unfoldable pub data_lines : ℕ → ℕ → List Bool
  unfolding data_line
  data_lines bit zero = []
  data_lines bit (suc count) = let rest = data_lines (bit + 1) count in data_line bit ∷ rest
