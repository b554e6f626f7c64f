-- ===== src/Safe/Laws.antt =====
-- What load_spi_flash of software/ipl1/src/safe/main.c leaves in the PSRAM.
use nileswan.Base.{
  ℕ, zero, suc, ◌+◌, ◌-◌, ◌*◌, ◌^◌, ◌<◌, Bool, true, false, ◌&&◌, ltb, if◌then◌else◌,
}
use nileswan.Base.{&&-split, u16, u32, ◌≤◌, ◌≡◌, ap, subst, sym, ◌∙◌, arith, Bool-cases, inl, inr}
use nileswan.Safe.{Memories, write_banks, same, verify_pages}
use nileswan.Safe.{verify_banks, then_verify, load_spi_flash}

pub add_zero : (n : ℕ) → n + 0 ≡ n
add_zero n = omega arith

pub next_byte : (n j : ℕ) → n + suc j ≡ n + 1 + j
next_byte n j = omega arith

pub not_past : (max bank n : ℕ) → bank + suc n ≡ max + 1 → ltb max bank ≡ false
not_past max bank n count = ground arith

if-true : {A : Type 0} {b : Bool} (x y : A) → b ≡ true → (if b then x else y) ≡ x
if-true x y h = ap (λ b. if b then x else y) h

past_last :
    (max n : ℕ) → max + 1 < suc n → suc n < 65536 → ltb max (u16 (max + 1 + 65536 - suc n)) ≡ true
past_last max n more narrow = ground arith

module _ (m : Memories) where
  -- So many bytes from an address on are those of the flash memory from an offset on.
  abbrev pub Holds : ℕ → ℕ → ℕ → (ℕ → ℕ) → Type 0
  Holds n address offset psram = (j : ℕ) → j < n → psram (address + j) ≡ m.byte (offset + j)

  pub Holds-append :
      (k n address offset : ℕ) (psram : ℕ → ℕ)
      → Holds k address offset psram
      → Holds n (address + k) (offset + k) psram
      → Holds (k + n) address offset psram
  Holds-append k n address offset psram first second j below = elim (Bool-cases (ltb j k)) [
    | inl inside ↦ first j (ground arith)
    | inr past ↦
        let there : address + k + (j - k) ≡ address + j = ground arith in
        let byte : offset + k + (j - k) ≡ offset + j = ground arith in
        ap psram (sym there) ∙ second (j - k) (ground arith) ∙ ap m.byte byte
  ]

  same-Holds :
      (n address offset : ℕ) (psram : ℕ → ℕ)
      → same m n address offset psram ≡ true
      → Holds n address offset psram
  unfolding same
  same-Holds zero address offset psram h j below = absurd (omega arith)
  same-Holds (suc n) address offset psram h zero below =
      let first : psram address ≡ m.byte offset =
        ground (arith, (&&-split _ (same m n (address + 1) (offset + 1) psram) h).0) in
      ap psram (add_zero address) ∙ first ∙ ap m.byte (sym (add_zero offset))
  same-Holds (suc n) address offset psram h (suc j) below =
      let later = (&&-split _ (same m n (address + 1) (offset + 1) psram) h).1 in
      ap psram (next_byte address j)
      ∙ same-Holds n (address + 1) (offset + 1) psram later j (omega arith)
      ∙ ap m.byte (sym (next_byte offset j))

  verify_pages-Holds :
      (n address offset : ℕ) (psram : ℕ → ℕ)
      → offset + n * 256 < 2 ^ 32
      → verify_pages m n address offset psram ≡ true
      → Holds (n * 256) address offset psram
  unfolding verify_pages
  verify_pages-Holds zero address offset psram small h = λ j below. absurd (omega arith)
  verify_pages-Holds (suc n) address offset psram small h =
      let (read, both) = &&-split (m.read offset 256) _ h in
      let (page, later) = &&-split (same m 256 address offset psram) _ both in
      let next : u32 (offset + 256) ≡ offset + 256 = omega arith in
      let rest =
        verify_pages-Holds n (address + 256) (u32 (offset + 256)) psram (omega arith) later in
      let size : 256 + n * 256 ≡ suc n * 256 = omega arith in
      subst (λ k. Holds k address offset psram) size
        (Holds-append 256 (n * 256) address offset psram (same-Holds 256 address offset psram page)
          (subst (λ o. Holds (n * 256) (address + 256) o psram) next rest))

  pub verify_banks_step :
      (max n bank offset : ℕ) (psram : ℕ → ℕ)
      → bank + suc n ≡ max + 1
      → verify_banks m max (suc n) bank offset psram ≡ (
          verify_pages m 256 (bank * 65536) offset psram
          && verify_banks m max n (u16 (bank + 1)) (u32 (offset + 65536)) psram)
  unfolding verify_banks
  verify_banks_step max n bank offset psram count =
      let later = verify_banks m max n (u16 (bank + 1)) (u32 (offset + 65536)) psram in
      ap (λ b. if b then true else verify_pages m 256 (bank * 65536) offset psram && later)
        (not_past max bank n count)

  verify_banks-Holds :
      (max n bank offset : ℕ) (psram : ℕ → ℕ)
      → bank + n ≡ max + 1
      → max < 65535
      → offset + n * 65536 < 2 ^ 32
      → verify_banks m max n bank offset psram ≡ true
      → Holds (n * 65536) (bank * 65536) offset psram
  verify_banks-Holds max zero bank offset psram count narrow small h =
      λ j below. absurd (omega arith)
  verify_banks-Holds max (suc n) bank offset psram count narrow small h =
      let (pages, later) =
        &&-split (verify_pages m 256 (bank * 65536) offset psram) _
          (sym (verify_banks_step max n bank offset psram count) ∙ h) in
      let next : u32 (offset + 65536) ≡ offset + 65536 = omega arith in
      let step : u16 (bank + 1) ≡ bank + 1 = omega arith in
      let rest =
        verify_banks-Holds max n (u16 (bank + 1)) (u32 (offset + 65536)) psram (omega arith) narrow
          (omega arith) later in
      let size : 65536 + n * 65536 ≡ suc n * 65536 = omega arith in
      let place : u16 (bank + 1) * 65536 ≡ bank * 65536 + 65536 = omega arith in
      subst (λ k. Holds k (bank * 65536) offset psram) size
        (Holds-append 65536 (n * 65536) (bank * 65536) offset psram
          (verify_pages-Holds 256 (bank * 65536) offset psram (omega arith) pages)
          (subst (λ a. Holds (n * 65536) a (offset + 65536) psram) place
            (subst (λ o. Holds (n * 65536) (u16 (bank + 1) * 65536) o psram) next rest)))

  then_verify-Holds :
      (max banks first offset : ℕ) (r : Bool × (ℕ → ℕ))
      → first + banks ≡ max + 1
      → max < 65535
      → offset + banks * 65536 < 2 ^ 32
      → (then_verify m max banks first offset r).0 ≡ true
      → Holds (banks * 65536) (first * 65536) offset (then_verify m max banks first offset r).1
  then_verify-Holds max banks first offset (false, psram) count narrow small h = cc
  then_verify-Holds max banks first offset (true, psram) count narrow small h =
      verify_banks-Holds max banks first offset psram count narrow small h

  -- When load_spi_flash succeeds, the last banks of the PSRAM hold the bytes of the flash memory from
  -- the offset on, whatever the cells of the PSRAM do to what is stored in them, provided that there
  -- are as many banks as are asked for, numbered below 65535, and that what is read ends below 2^32.
  pub load_spi_flash-Holds :
      (psram_max_bank offset banks : ℕ) (psram : ℕ → ℕ)
      → banks ≤ psram_max_bank + 1
      → psram_max_bank < 65535
      → offset + banks * 65536 < 2 ^ 32
      → (load_spi_flash m psram_max_bank offset banks psram).0 ≡ true
      → Holds
          (banks * 65536)
          ((psram_max_bank + 1 - banks) * 65536)
          offset
          (load_spi_flash m psram_max_bank offset banks psram).1
  unfolding load_spi_flash
  load_spi_flash-Holds max offset banks psram there narrow small h =
      let first = u16 (max + 1 + 65536 - banks) in
      let place : first * 65536 ≡ (max + 1 - banks) * 65536 = omega arith in
      let loaded =
        then_verify m max banks first offset (write_banks m max banks first offset psram) in
      subst (λ a. Holds (banks * 65536) a offset loaded.1) place
        (then_verify-Holds max banks first offset (write_banks m max banks first offset psram)
          (omega arith) narrow small h)

  -- Where more banks are asked for than there are, the first bank wraps to one past the last: nothing is
  -- loaded, and load_spi_flash reports success.
  load_spi_flash_wraps :
      (psram_max_bank offset n : ℕ) (psram : ℕ → ℕ)
      → psram_max_bank + 1 < suc n
      → suc n < 65536
      → load_spi_flash m psram_max_bank offset (suc n) psram ≡ (true, psram)
  unfolding load_spi_flash write_banks verify_banks
  load_spi_flash_wraps max offset n psram more narrow =
      let first = u16 (max + 1 + 65536 - suc n) in
      let past : ltb max first ≡ true = past_last max n more narrow in
      let written : write_banks m max (suc n) first offset psram ≡ (true, psram) =
        if-true _ _ past in
      ap (then_verify m max (suc n) first offset) written ∙ ap (λ b. (b, psram)) (if-true _ _ past)
