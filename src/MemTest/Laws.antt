-- ===== src/MemTest/Laws.antt =====
-- Which faults the quick memory test of software/ipl1/src/safe/mem_test.c finds.
use nileswan.Base.{
  ℕ, zero, suc, ◌+◌, ◌-◌, ◌^◌, Bool, true, false, List, [], ◌∷◌, ◌++◌, ◌&&◌, ◌||◌, not,
}
use nileswan.Base.{◌≡◌, refl, ap₂, ◌∙◌, arith, ◌==◌, ◌!=◌, if◌then◌else◌, min, bit_xor, test_bit}
use nileswan.MemTest.{Wiring, Cells, address_line, offset_lines, bank_lines}
use nileswan.MemTest.{phys_address_line, data_line, data_lines}
use nileswan.MemTest.Quick.{all_ok, Board, cart_line, cart_lines, quick_result, run_quick_v2}

-- A line is found good exactly when its two addresses reach different cells.
address_line_lem :
    (first second : ℕ) (cells : Cells) → (address_line first second cells).0 ≡ (first != second)
unfolding address_line
address_line_lem first second cells = ground arith

cart_line_lem :
    (other here seen : ℕ) (cells : Cells)
    → (cart_line other here seen cells).0 ≡ (seen == other && other != here)
unfolding cart_line
cart_line_lem other here seen cells = ground arith

-- The address lines of a wiring that are good, from the lines within a bank to those between banks
abbrev pub good_offsets : Wiring → ℕ → ℕ → ℕ → List Bool
good_offsets wiring bank bit zero = []
good_offsets wiring bank bit (suc count) =
    (wiring bank 0 != wiring bank (2 ^ bit)) ∷ good_offsets wiring bank (bit + 1) count

abbrev pub good_banks : Wiring → ℕ → ℕ → ℕ → List Bool
good_banks wiring start bank zero = []
good_banks wiring start bank (suc count) =
    (wiring start 0 != wiring (start + 2 ^ bank) 0) ∷ good_banks wiring start (bank + 1) count

abbrev pub good_lines : Wiring → ℕ → ℕ → List Bool
good_lines wiring count start =
    good_offsets wiring start 0 (min count 16) ++ good_banks wiring start 0 (count - 16)

offset_lines_lem :
    (wiring : Wiring) (bank bit count : ℕ) (cells : Cells)
    → (offset_lines wiring bank bit count cells).0 ≡ good_offsets wiring bank bit count
unfolding offset_lines
offset_lines_lem wiring bank bit zero cells = refl
offset_lines_lem wiring bank bit (suc count) cells =
    ap₂ (λ x xs. x ∷ xs) (address_line_lem (wiring bank 0) (wiring bank (2 ^ bit)) cells)
      (offset_lines_lem wiring bank (bit + 1) count _)

bank_lines_lem :
    (wiring : Wiring) (start bank count : ℕ) (cells : Cells)
    → (bank_lines wiring start bank count cells).0 ≡ good_banks wiring start bank count
unfolding bank_lines
bank_lines_lem wiring start bank zero cells = refl
bank_lines_lem wiring start bank (suc count) cells =
    ap₂ (λ x xs. x ∷ xs) (address_line_lem (wiring start 0) (wiring (start + 2 ^ bank) 0) cells)
      (bank_lines_lem wiring start (bank + 1) count _)

-- The test of the address lines marks a line good exactly where turning it over reaches another cell,
-- whatever the memory held, within a bank and between banks.
pub phys_address_line_lem :
    (wiring : Wiring) (count start : ℕ) (cells : Cells)
    → (phys_address_line wiring count start cells).0 ≡ good_lines wiring count start
unfolding phys_address_line
phys_address_line_lem wiring count start cells =
    ap₂ (λ x y. x ++ y) (offset_lines_lem wiring start 0 (min count 16) cells)
      (bank_lines_lem wiring start 0 (count - 16) _)

abbrev pub good_cart : Board → ℕ → ℕ → List Bool
good_cart b line zero = []
good_cart b line (suc count) =
    let bank = bit_xor 15 (2 ^ line) in
    (b.cart bank == b.psram1 bank 0 && b.psram1 bank 0 != b.psram1 15 0)
    ∷ good_cart b (line + 1) count

cart_lines_lem :
    (b : Board) (line count : ℕ) (cells : Cells)
    → (cart_lines b line count cells).0 ≡ good_cart b line count
unfolding cart_lines
cart_lines_lem b line zero cells = refl
cart_lines_lem b line (suc count) cells =
    ap₂ (λ x xs. x ∷ xs)
      (cart_line_lem (b.psram1 (bit_xor 15 (2 ^ line)) 0) (b.psram1 15 0)
        (b.cart (bit_xor 15 (2 ^ line))) cells)
      (cart_lines_lem b (line + 1) count _)

-- A data line that reads low for the word 0, and high for the word with its bit alone
abbrev pub good_data : (ℕ → ℕ) → ℕ → ℕ → List Bool
good_data bus bit zero = []
good_data bus bit (suc count) =
    (not (test_bit (bus 0) bit) && test_bit (bus (2 ^ bit)) bit) ∷ good_data bus (bit + 1) count

data_lines_lem : (bus : ℕ → ℕ) (bit count : ℕ) → data_lines bus bit count ≡ good_data bus bit count
unfolding data_lines data_line
data_lines_lem bus bit zero = refl
data_lines_lem bus bit (suc count) =
    ap₂ (λ x xs. x ∷ xs) (ground arith) (data_lines_lem bus (bit + 1) count)

-- A board without a fault in the lines that the test looks at
abbrev pub has_good_lines : Board → Bool
has_good_lines b =
    (all_ok (good_lines b.psram1 23 0)
      && (all_ok (good_lines b.psram2 23 128)
          && (all_ok (good_lines b.sram 19 0) && all_ok (good_lines b.ipc 9 b.ipc_segment))))
    && (all_ok (good_data b.psram1_data 0 16)
        && (all_ok (good_cart b 0 4)
            && (all_ok (good_data b.psram2_data 0 16)
                && (all_ok (good_data b.sram_data 0 8) && all_ok (good_data b.ipc_data 0 8)))))

-- The `if` that leaves out the lines of the ROM window after a fault of PSRAM1
skip_dead :
    (a1 others d1 cart rest : Bool)
    → ((a1 && others) && (d1 && ((if not a1 || not d1 then true else cart) && rest)))
      ≡ ((a1 && others) && (d1 && (cart && rest)))
skip_dead false others d1 cart rest = refl
skip_dead true others true cart rest = refl
skip_dead true others false cart rest = refl

quick_result_same :
    (b : Board) {p q r s c p' q' r' s' c' : List Bool}
    → p ≡ p'
    → q ≡ q'
    → r ≡ r'
    → s ≡ s'
    → c ≡ c'
    → quick_result b p q r s c ≡ quick_result b p' q' r' s' c'
quick_result_same b hp hq hr hs hc i = quick_result b (hp i) (hq i) (hr i) (hs i) (hc i)

good_data_same :
    (b : Board)
    → ((all_ok (good_lines b.psram1 23 0)
          && (all_ok (good_lines b.psram2 23 128)
              && (all_ok (good_lines b.sram 19 0) && all_ok (good_lines b.ipc 9 b.ipc_segment))))
        && (all_ok (data_lines b.psram1_data 0 16)
            && (all_ok (good_cart b 0 4)
                && (all_ok (data_lines b.psram2_data 0 16)
                    && (all_ok (data_lines b.sram_data 0 8)
                        && all_ok (data_lines b.ipc_data 0 8))))))
      ≡ has_good_lines b
good_data_same b =
    rw
      (
        data_lines_lem b.psram1_data 0 16,
        data_lines_lem b.psram2_data 0 16,
        data_lines_lem b.sram_data 0 8,
        data_lines_lem b.ipc_data 0 8,
      )
      refl

-- The quick test passes exactly for a board whose lines are all good: an address line reaches other cells
-- when it is turned over, the lines of the ROM window show the cells of the same bank of PSRAM1, and a
-- data line is low for the word 0 and high for its own bit alone. A bridge between data lines, which
-- only shows in other words, is not looked for. The lines of the ROM window are left out only where
-- the test has already failed.
pub run_quick_v2_lem : (b : Board) (cells : Cells) → run_quick_v2 b cells ≡ has_good_lines b
unfolding run_quick_v2 quick_result
run_quick_v2_lem b cells =
    let cells1 = (phys_address_line b.psram1 23 0 cells).1 in
    let cells2 = (phys_address_line b.psram2 23 128 cells1).1 in
    let cells3 = (phys_address_line b.sram 19 0 cells2).1 in
    let cells4 = (phys_address_line b.ipc 9 b.ipc_segment cells3).1 in
    quick_result_same b (phys_address_line_lem b.psram1 23 0 cells)
      (phys_address_line_lem b.psram2 23 128 cells1) (phys_address_line_lem b.sram 19 0 cells2)
      (phys_address_line_lem b.ipc 9 b.ipc_segment cells3) (cart_lines_lem b 0 4 cells4)
    ∙ skip_dead (all_ok (good_lines b.psram1 23 0))
        (all_ok (good_lines b.psram2 23 128)
          && (all_ok (good_lines b.sram 19 0) && all_ok (good_lines b.ipc 9 b.ipc_segment)))
        (all_ok (data_lines b.psram1_data 0 16)) (all_ok (good_cart b 0 4))
        (all_ok (data_lines b.psram2_data 0 16)
          && (all_ok (data_lines b.sram_data 0 8) && all_ok (data_lines b.ipc_data 0 8)))
    ∙ good_data_same b
