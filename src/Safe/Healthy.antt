-- ===== src/Safe/Healthy.antt =====
-- load_spi_flash of software/ipl1/src/safe/main.c on memories without faults.
use nileswan.Base.{
  ℕ, zero, suc, ◌+◌, ◌-◌, ◌*◌, ◌^◌, ◌≤◌, ◌<◌, Bool, true, false, ◌&&◌, ◌==◌, ltb, leb,
}
use nileswan.Base.{u16, u32, ◌≡◌, refl, ap, ap₂, subst, sym, ◌∙◌, arith, Bool-cases, inl, inr}
use nileswan.Safe.{Memories, copied, write_banks, same, verify_pages}
use nileswan.Safe.{verify_banks, then_verify, load_spi_flash}
use nileswan.Safe.Laws.{Holds, Holds-append, add_zero, not_past, verify_banks_step}

module _ (m : Memories) where
  -- The banks hold the flash memory's bytes, and what is below them is as it was.
  abbrev pub IsLoaded : ℕ → ℕ → ℕ → (ℕ → ℕ) → Bool × (ℕ → ℕ) → Type 0
  IsLoaded n bank offset psram r =
      (r.0 ≡ true)
      × ((a : ℕ) → a < bank * 65536 → r.1 a ≡ psram a)
      × Holds m (n * 65536) (bank * 65536) offset r.1

module _ (m : Memories) (cells : (a v : ℕ) → m.cell a v ≡ v)
    (reads : (o n : ℕ) → m.read o n ≡ true) where
  Holds-first :
      (n address offset : ℕ) (psram : ℕ → ℕ)
      → Holds m (suc n) address offset psram
      → psram address ≡ m.byte offset
  Holds-first n address offset psram h =
      ap psram (sym (add_zero address)) ∙ h 0 (omega arith) ∙ ap m.byte (add_zero offset)

  Holds-drop :
      (k n address offset : ℕ) (psram : ℕ → ℕ)
      → Holds m (k + n) address offset psram
      → Holds m n (address + k) (offset + k) psram
  Holds-drop k n address offset psram h j below =
      let there : address + k + j ≡ address + (k + j) = omega arith in
      let byte : offset + (k + j) ≡ offset + k + j = omega arith in
      ap psram there ∙ h (k + j) (omega arith) ∙ ap m.byte byte

  same_complete :
      (n address offset : ℕ) (psram : ℕ → ℕ)
      → Holds m n address offset psram
      → same m n address offset psram ≡ true
  unfolding same
  same_complete zero address offset psram h = refl
  same_complete (suc n) address offset psram h =
      let size : 1 + n ≡ suc n = omega arith in
      let first = Holds-first n address offset psram h in
      let equal : (psram address == m.byte offset) ≡ true = ground (arith, first) in
      ap₂ (λ a b. a && b) equal
        (same_complete n (address + 1) (offset + 1) psram (
          Holds-drop 1 n address offset psram
            (subst (λ k. Holds m k address offset psram) (sym size) h)))

  verify_pages_complete :
      (n address offset : ℕ) (psram : ℕ → ℕ)
      → offset + n * 256 < 2 ^ 32
      → Holds m (n * 256) address offset psram
      → verify_pages m n address offset psram ≡ true
  unfolding verify_pages
  verify_pages_complete zero address offset psram small h = refl
  verify_pages_complete (suc n) address offset psram small h =
      let size : suc n * 256 ≡ 256 + n * 256 = omega arith in
      let all = subst (λ k. Holds m k address offset psram) size h in
      let next : offset + 256 ≡ u32 (offset + 256) = omega arith in
      ap₂ (λ a b. a && b) (reads offset 256)
        (ap₂ (λ a b. a && b)
          (same_complete 256 address offset psram (λ j below. all j (omega arith)))
          (verify_pages_complete n (address + 256) (u32 (offset + 256)) psram (omega arith) (
            subst (λ o. Holds m (n * 256) (address + 256) o psram) next
              (Holds-drop 256 (n * 256) address offset psram all))))

  verify_banks_complete :
      (max n bank offset : ℕ) (psram : ℕ → ℕ)
      → bank + n ≡ max + 1
      → max < 65535
      → offset + n * 65536 < 2 ^ 32
      → Holds m (n * 65536) (bank * 65536) offset psram
      → verify_banks m max n bank offset psram ≡ true
  unfolding verify_banks
  verify_banks_complete max zero bank offset psram count narrow small h = ground arith
  verify_banks_complete max (suc n) bank offset psram count narrow small h =
      let size : suc n * 65536 ≡ 65536 + n * 65536 = omega arith in
      let all = subst (λ k. Holds m k (bank * 65536) offset psram) size h in
      let next : offset + 65536 ≡ u32 (offset + 65536) = omega arith in
      let place : bank * 65536 + 65536 ≡ u16 (bank + 1) * 65536 = omega arith in
      verify_banks_step m max n bank offset psram count
      ∙ ap₂ (λ a b. a && b)
          (verify_pages_complete 256 (bank * 65536) offset psram (omega arith)
            (λ j below. all j (omega arith)))
          (verify_banks_complete max n (u16 (bank + 1)) (u32 (offset + 65536)) psram (omega arith)
            narrow (omega arith)
            (subst (λ o. Holds m (n * 65536) (u16 (bank + 1) * 65536) o psram) next
              (subst (λ a. Holds m (n * 65536) a (offset + 65536) psram) place
                (Holds-drop 65536 (n * 65536) (bank * 65536) offset psram all))))

  -- What a copy leaves in its place, and below it
  copied_inside :
      (address offset count a : ℕ) (psram : ℕ → ℕ)
      → address ≤ a
      → a < address + count
      → copied m address offset count psram a ≡ m.byte (offset + (a - address))
  copied_inside address offset count a psram from below =
      let inside : (leb address a && ltb a (address + count)) ≡ true = ground arith in
      rw inside (cells a _)

  copied_below :
      (address offset count a : ℕ) (psram : ℕ → ℕ)
      → a < address
      → copied m address offset count psram a ≡ psram a
  copied_below address offset count a psram below =
      let outside : (leb address a && ltb a (address + count)) ≡ false = ground arith in
      rw outside refl

  -- Both halves of a bank
  bank_of : ℕ → ℕ → (ℕ → ℕ) → ℕ → ℕ
  bank_of bank offset psram =
      copied m (bank * 65536 + 32768) (u32 (offset + 32768)) 32768
        (copied m (bank * 65536) offset 32768 psram)

  write_banks_step :
      (max n bank offset : ℕ) (psram : ℕ → ℕ)
      → bank + suc n ≡ max + 1
      → max < 65535
      → write_banks m max (suc n) bank offset psram
        ≡ write_banks m max n (u16 (bank + 1)) (u32 (offset + 65536)) (bank_of bank offset psram)
  unfolding write_banks bank_of
  write_banks_step max n bank offset psram count narrow =
      let more = not_past max bank n count in
      rw (write_banks, more, reads offset 32768, reads (u32 (offset + 32768)) 32768) refl

  bank_of_inside :
      (bank offset a : ℕ) (psram : ℕ → ℕ)
      → offset + 65536 < 2 ^ 32
      → bank * 65536 ≤ a
      → a < bank * 65536 + 65536
      → bank_of bank offset psram a ≡ m.byte (offset + (a - bank * 65536))
  unfolding bank_of
  bank_of_inside bank offset a psram small from below =
      let second = bank * 65536 + 32768 in
      let half = copied m (bank * 65536) offset 32768 psram in
      elim (Bool-cases (ltb a second)) [
        | inl first ↦
            copied_below second (u32 (offset + 32768)) 32768 a half (ground arith)
            ∙ copied_inside (bank * 65536) offset 32768 a psram from (ground arith)
        | inr past ↦
            copied_inside second (u32 (offset + 32768)) 32768 a half (ground arith) (omega arith)
            ∙ ap m.byte (ground arith)
      ]

  bank_of_below :
      (bank offset a : ℕ) (psram : ℕ → ℕ) → a < bank * 65536 → bank_of bank offset psram a ≡ psram a
  unfolding bank_of
  bank_of_below bank offset a psram below =
      copied_below (bank * 65536 + 32768) (u32 (offset + 32768)) 32768 a
        (copied m (bank * 65536) offset 32768 psram) (omega arith)
      ∙ copied_below (bank * 65536) offset 32768 a psram below

  write_banks-IsLoaded :
      (max n bank offset : ℕ) (psram : ℕ → ℕ)
      → bank + n ≡ max + 1
      → max < 65535
      → offset + n * 65536 < 2 ^ 32
      → IsLoaded m n bank offset psram (write_banks m max n bank offset psram)
  unfolding write_banks
  write_banks-IsLoaded max zero bank offset psram count narrow small =
      (ground arith, λ a below. refl, λ j below. absurd (omega arith))
  write_banks-IsLoaded max (suc n) bank offset psram count narrow small =
      let here = bank_of bank offset psram in
      let following = u16 (bank + 1) in
      let next : u32 (offset + 65536) ≡ offset + 65536 = omega arith in
      let place : following * 65536 ≡ bank * 65536 + 65536 = omega arith in
      let size : 65536 + n * 65536 ≡ suc n * 65536 = omega arith in
      let (ok, kept, held) =
        write_banks-IsLoaded max n following (u32 (offset + 65536)) here (omega arith) narrow
          (omega arith) in
      let after = (write_banks m max n following (u32 (offset + 65536)) here).1 in
      let this : Holds m 65536 (bank * 65536) offset after = λ j below.
        kept (bank * 65536 + j) (omega arith)
        ∙ bank_of_inside bank offset (bank * 65536 + j) psram (omega arith) (omega arith)
            (omega arith)
        ∙ ap m.byte (omega arith) in
      let later : Holds m (n * 65536) (bank * 65536 + 65536) (offset + 65536) after =
        subst (λ a. Holds m (n * 65536) a (offset + 65536) after) place
          (subst (λ o. Holds m (n * 65536) (following * 65536) o after) next held) in
      subst (IsLoaded m (suc n) bank offset psram)
        (sym (write_banks_step max n bank offset psram count narrow))
        (
          ok,
          λ a below. kept a (omega arith) ∙ bank_of_below bank offset a psram below,
          subst (λ k. Holds m k (bank * 65536) offset after) size
              (Holds-append m 65536 (n * 65536) (bank * 65536) offset after this later),
        )

  then_verify-IsLoaded :
      (max n bank offset : ℕ) (psram : ℕ → ℕ) (r : Bool × (ℕ → ℕ))
      → bank + n ≡ max + 1
      → max < 65535
      → offset + n * 65536 < 2 ^ 32
      → IsLoaded m n bank offset psram r
      → IsLoaded m n bank offset psram (then_verify m max n bank offset r)
  then_verify-IsLoaded max n bank offset psram (false, after) count narrow small (ok, kept, held) =
      absurd cc
  then_verify-IsLoaded max n bank offset psram (true, after) count narrow small (ok, kept, held) =
      (verify_banks_complete max n bank offset after count narrow small held, kept, held)

  -- On memories without faults, load_spi_flash succeeds: the last banks of the PSRAM hold the bytes
  -- of the flash memory from the offset on, and what is below them is as it was, provided that there
  -- are as many banks as are asked for, numbered below 65535, and that what is read ends below 2^32.
  pub load_spi_flash-IsLoaded :
      (psram_max_bank offset banks : ℕ) (psram : ℕ → ℕ)
      → banks ≤ psram_max_bank + 1
      → psram_max_bank < 65535
      → offset + banks * 65536 < 2 ^ 32
      → IsLoaded m banks
          (psram_max_bank + 1 - banks)
          offset
          psram
          (load_spi_flash m psram_max_bank offset banks psram)
  unfolding load_spi_flash
  load_spi_flash-IsLoaded max offset banks psram there narrow small =
      let first = u16 (max + 1 + 65536 - banks) in
      let place : first ≡ max + 1 - banks = omega arith in
      let count : first + banks ≡ max + 1 = omega arith in
      subst
        (λ b.
          IsLoaded m banks b offset psram
            (then_verify m max banks first offset (write_banks m max banks first offset psram)))
        place
        (then_verify-IsLoaded max banks first offset psram
          (write_banks m max banks first offset psram) count narrow small
          (write_banks-IsLoaded max banks first offset psram count narrow small))
