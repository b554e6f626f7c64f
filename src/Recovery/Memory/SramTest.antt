-- ===== src/Recovery/Memory/SramTest.antt =====
-- What test_sram_retention of software/userland/src/recovery/tests/memory.c finds out.
use nileswan.Base.{
  ℕ, zero, suc, ◌+◌, ◌^◌, ◌≤◌, ◌<◌, ◌≡◌, ◌↔◌, inl, inr, refl, ap, ap₂, sym, subst, ◌∙◌, arith,
}
use nileswan.Base.{Bool, true, ◌&&◌, &&-split, Bool-cases, ==_iff, ◌==◌}
use nileswan.Recovery.Memory.{
  Banks, write_bank, write_banks, read_bank, read_banks, test_memory_sram_write,
}
use nileswan.Recovery.Memory.{test_memory_sram_read}
use nileswan.Recovery.Memory.Sram.{BankDone, bank_done}

abbrev BanksDone : ℕ → ℕ → Banks → Banks → Banks → Bool → Type 0
BanksDone n bank old ram written read =
    ((b x : ℕ) → b < bank → written b x ≡ old b x)
    × ((read ≡ true) ↔ ((b x : ℕ) → bank ≤ b → b < bank + n → x < 2 ^ 16 → ram b x ≡ written b x))

banks_step :
    (n bank : ℕ) (old filled ram written : Banks) (value : ℕ × Bool) (last : ℕ) (read : Bool)
    → BankDone old ram bank 0 (last, filled) value
    → BanksDone n (bank + 1) filled ram written read
    → BanksDone (suc n) bank old ram written (value.1 && read)
banks_step n bank old filled ram written value last read (vals, out, (good, back))
      (kept, (all_good, all_back)) =
    (
      λ b x below. kept b x (omega arith) ∙ out b x (inl (omega arith)),
      (
        λ h b x l u small.
            let (one, rest) = &&-split value.1 read h in
            elim (Bool-cases (b == bank)) [
              | inl here ↦
                  let e = (==_iff b bank).0 here in
                  ap (λ c. ram c x) e
                  ∙ good one x (omega arith) small
                  ∙ sym (kept bank x (omega arith))
                  ∙ sym (ap (λ c. written c x) e)
              | inr other ↦ all_good rest b x (ground (arith, other)) (omega arith) small
            ],
        λ h.
            ap₂ (λ c d. c && d)
              (back (λ x l u. h bank x (omega arith) (omega arith) u ∙ kept bank x (omega arith)))
              (all_back (λ b x l u small. h b x (omega arith) (omega arith) small)),
      ),
    )

banks_done :
    (n bank value : ℕ) (old ram : Banks)
    → BanksDone n bank old ram (write_banks n bank value old) (read_banks n bank value ram)
unfolding write_banks read_banks
banks_done zero bank value old ram =
    ((λ b x below. refl), ((λ h b x l u small. absurd (omega arith)), (λ h. refl)))
banks_done (suc n) bank value old ram =
    let w = write_bank 512 bank 0 value old in
    let r = read_bank 512 bank 0 value ram in
    let done = bank_done 511 bank 0 value old ram refl in
    let rest = banks_done n (bank + 1) w.0 w.1 ram in
    banks_step n bank old w.1 ram (write_banks n (bank + 1) w.0 w.1) r w.0
      (read_banks n (bank + 1) r.0 ram) done
      (subst
        (λ v.
          BanksDone n (bank + 1) w.1 ram (write_banks n (bank + 1) w.0 w.1)
            (read_banks n (bank + 1) v ram))
        (sym done.0) rest)

-- The test of the cartridge's RAM passes on what its write pass leaves; and on any other content it passes
-- exactly when each byte of the 8 banks of 64 KiB is the one that the write pass stores there,
-- whatever the memory held before it.
pub test_memory_sram_passes :
    (old ram : Banks)
    → (test_memory_sram_read (test_memory_sram_write old) ≡ true)
      × ((test_memory_sram_read ram ≡ true)
          ↔ ((b x : ℕ) → b < 8 → x < 2 ^ 16 → ram b x ≡ test_memory_sram_write old b x))
unfolding test_memory_sram_write test_memory_sram_read
test_memory_sram_passes old ram =
    let same = (banks_done 8 0 1 old (write_banks 8 0 1 old)).1 in
    let (good, back) = (banks_done 8 0 1 old ram).1 in
    (
      same.1 (λ b x l u small. refl),
      (
        (λ h b x u small. good h b x (omega arith) (omega arith) small),
        (λ h. back (λ b x l u small. h b x (omega arith) small)),
      ),
    )
