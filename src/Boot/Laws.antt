-- ===== src/Boot/Laws.antt =====
-- Where load_menu of software/ipl1/src/boot/main.c puts the file.
use nileswan.Base.{ℕ, zero, suc, ◌+◌, ◌-◌, ◌*◌, ◌/◌, ◌%◌, ◌≤◌, ◌<◌, true, false, ◌&&◌, ◌||◌}
use nileswan.Base.{
  ◌≡◌, refl, ap, subst, sym, ◌∙◌, arith, ◌==◌, ◌!=◌, ltb, leb, if◌then◌else◌, u16, flag,
}
use nileswan.Base.{Bool-cases, inl, inr, fun_ext, some, leb→le, ltb→lt}
use nileswan.Boot.{Disk, Loader, update_progress, read_to, low_half, high_half}
use nileswan.Boot.{
  load_banks, check_header, load_file, load_menu, file_corrupt, first_bank, first_offset, start,
}
use nileswan.Boot.{psram_max_bank}
use nileswan.Boot.Fill.{
  top, then_read_ok, then_check_ok, if_true_lem, start_count, filled, Standing, copy_lem,
  copy_position, MenuLoaded,
}

module _ (d : Disk) where
  module _ (reads : (p : ℕ) → d.read_result p ≡ 0) (small : d.size ≤ top) where
    -- What a read of the rest of a half of a bank leaves
    abbrev Advanced : (ℕ → ℕ) → ℕ → ℕ → ℕ → Loader → ℕ × Loader → Type 0
    Advanced old bank offset count s r =
        (r.0 ≡ 0)
        × Standing d old bank (offset + count) r.1
        × (r.1.bank_count ≡ s.bank_count)
        × (r.1.bank_count_max ≡ s.bank_count_max)

    read_to_lem :
        (old : ℕ → ℕ) (bank offset count : ℕ) (s : Loader)
        → Standing d old bank offset s
        → bank * 65536 + offset + count ≤ top
        → Advanced old bank offset count s (read_to d bank offset count s)
    unfolding read_to
    read_to_lem old bank offset count s (same, place) fits =
        let ok : (d.read_result s.position == 0) ≡ true = ground (arith, reads s.position) in
        let room : s.position + count ≤ d.size = omega arith in
        let moved = copy_position d (bank * 65536 + offset) count s room in
        rw ok (
          refl,
          (
            copy_lem d old (top - d.size) (bank * 65536 + offset) count s same place room
                ∙ sym (ap (λ n. filled d (top - d.size) n old) moved),
            omega arith,
          ),
          refl,
          refl,
        )

    -- The loop stands at a bank and offset, with the updates of the progress that are to come.
    abbrev Loading : (ℕ → ℕ) → ℕ → ℕ → Loader → Type 0
    Loading old bank offset s =
        Standing d old bank offset s
        × (s.bank_count + (256 - bank) * 2 ≡ s.bank_count_max + flag (leb 32768 offset) 1)

    abbrev middle_of : ℕ → ℕ
    middle_of offset = if ltb offset 32768 then 32768 else offset

    low_half_lem :
        (old : ℕ → ℕ) (bank offset : ℕ) (s : Loader)
        → bank ≤ 255
        → offset < 65536
        → Loading old bank offset s
        → ((low_half d bank offset s).0 ≡ 0)
          × Loading old bank (middle_of offset) (low_half d bank offset s).1
    unfolding low_half update_progress
    low_half_lem old bank offset s last inside ((same, place), count) =
        elim (Bool-cases (ltb offset 32768)) [
          | inl low ↦
              let lt = ltb→lt offset 32768 low in
              let (ok, (same', place'), counted, kept) =
                read_to_lem old bank offset (32768 - offset) (update_progress s) (same, place)
                  (omega arith) in
              let high : leb 32768 offset ≡ false = ground arith in
              let before : s.bank_count + (256 - bank) * 2 ≡ s.bank_count_max = ground arith in
              rw (low_half, low) (ok, ((same', omega arith), omega arith))
          | inr high ↦ rw high (refl, ((same, place), count))
        ]

    high_half_lem :
        (old : ℕ → ℕ) (bank offset : ℕ) (s : Loader)
        → bank ≤ 255
        → 32768 ≤ offset
        → offset < 65536
        → Loading old bank offset s
        → ((high_half d bank offset s).0 ≡ 0)
          × Loading old (bank + 1) 0 (high_half d bank offset s).1
    unfolding high_half update_progress
    high_half_lem old bank offset s last high inside ((same, place), count) =
        let whole : u16 (65536 - offset) ≡ 65536 - offset = omega arith in
        let before : s.bank_count + (256 - bank) * 2 ≡ s.bank_count_max + 1 = ground arith in
        rw whole (
          let (ok, (same', place'), counted, kept) =
            read_to_lem old bank offset (65536 - offset) (update_progress s) (same, place)
              (omega arith) in
          (ok, ((same', omega arith), omega arith)))

    -- The whole file, when the loop ends
    abbrev Loaded : (ℕ → ℕ) → ℕ × Loader → Type 0
    Loaded old r =
        (r.0 ≡ 0)
        × (r.1.psram ≡ filled d (top - d.size) d.size old)
        × (r.1.bank_count ≡ r.1.bank_count_max)

    middle_of_high :
        (offset : ℕ) → offset < 65536 → (32768 ≤ middle_of offset) × (middle_of offset < 65536)
    middle_of_high offset inside = elim (Bool-cases (ltb offset 32768)) [
      | inl low ↦ rw low (omega arith, omega arith)
      | inr high ↦ ground arith
    ]

    load_banks_step :
        (n bank offset : ℕ) (s : Loader)
        → bank ≤ 255
        → (low_half d bank offset s).0 ≡ 0
        → (high_half d bank (middle_of offset) (low_half d bank offset s).1).0 ≡ 0
        → load_banks d (suc n) bank offset s
          ≡ load_banks d n
              (bank + 1)
              0
              (high_half d bank (middle_of offset) (low_half d bank offset s).1).1
    unfolding load_banks
    load_banks_step n bank offset s last low high =
        let more : leb bank psram_max_bank ≡ true = ground arith in
        rw (load_banks, more)
          (then_read_ok (low_half d bank offset s) _ low
            ∙ then_read_ok (high_half d bank (middle_of offset) (low_half d bank offset s).1) _
                high)

    all-Loaded :
        (old : ℕ → ℕ) (bank offset : ℕ) (s : Loader)
        → bank ≡ 256
        → (bank ≡ 256 → offset ≡ 0)
        → Loading old bank offset s
        → Loaded old (0, s)
    all-Loaded old bank offset s end stop ((same, place), count) =
        let beginning = stop end in
        let done : s.position ≡ d.size = omega arith in
        (refl, same ∙ ap (λ n. filled d (top - d.size) n old) done, ground arith)

    load_banks_lem :
        (old : ℕ → ℕ) (n bank offset : ℕ) (s : Loader)
        → bank ≤ 256
        → 256 ≤ bank + n
        → offset < 65536
        → (bank ≡ 256 → offset ≡ 0)
        → Loading old bank offset s
        → Loaded old (load_banks d n bank offset s)
    unfolding load_banks
    load_banks_lem old zero bank offset s within enough inside stop h =
        all-Loaded old bank offset s (omega arith) stop h
    load_banks_lem old (suc n) bank offset s within enough inside stop h =
        elim (Bool-cases (leb bank psram_max_bank)) [
          | inl more ↦
              let last = leb→le bank 255 more in
              let (low, h1) = low_half_lem old bank offset s last inside h in
              let (over, under) = middle_of_high offset inside in
              let (high, h2) =
                high_half_lem old bank (middle_of offset) (low_half d bank offset s).1 last over
                  under h1 in
              let rest =
                load_banks_lem old n (bank + 1) 0
                  (high_half d bank (middle_of offset) (low_half d bank offset s).1).1 (omega arith)
                  (omega arith) (omega arith) (λ e. refl) h2 in
              subst (Loaded old) (sym (load_banks_step n bank offset s last low high)) rest
          | inr done ↦ rw (load_banks, done) (all-Loaded old bank offset s (ground arith) stop h)
        ]

    check_header_lem :
        (old : ℕ → ℕ) (s : Loader)
        → 16 ≤ d.size
        → s.psram ≡ filled d (top - d.size) d.size old
        → check_header s ≡ (
            if d.byte (d.size - 16) != 234 || ltb (d.byte (d.size - 12)) 32
            then file_corrupt
            else 0)
    unfolding check_header
    check_header_lem old s enough same =
        let at : (k : ℕ) → k < 16 → s.psram (16777200 + k) ≡ d.byte (d.size - 16 + k) = λ k below.
          let inside : (leb (top - d.size) (16777200 + k)
                && ltb (16777200 + k) (top - d.size + d.size))
              ≡ true =
            ground arith in
          ap (λ f. f (16777200 + k)) same
          ∙ if_true_lem _ _
              (leb (top - d.size) (16777200 + k) && ltb (16777200 + k) (top - d.size + d.size))
              inside
          ∙ ap d.byte (omega arith) in
        let first : s.psram 16777200 ≡ d.byte (d.size - 16) =
          at 0 (omega arith) ∙ ap d.byte (omega arith) in
        let fifth : s.psram 16777204 ≡ d.byte (d.size - 12) =
          at 4 (omega arith) ∙ ap d.byte (omega arith) in
        rw (first, fifth) refl

    start_lem :
        (old : ℕ → ℕ)
        → 16 ≤ d.size
        → (first_bank d ≤ 255)
          × (first_offset d < 65536)
          × Loading old (first_bank d) (first_offset d) (start d old)
    unfolding first_bank first_offset start
    start_lem old enough =
        let bank : first_bank d ≡ 255 - (d.size - 1) / 65536 = omega arith in
        let offset : first_offset d ≡ 65535 - (d.size - 1) % 65536 = omega arith in
        let last : first_bank d ≤ 255 = omega arith in
        let width : u16 (psram_max_bank + 1 + 65536 - first_bank d) ≡ 256 - first_bank d =
          omega arith in
        let carry : flag (leb 32768 (first_offset d)) 1 ≤ 1 = ground arith in
        (
          last,
          omega arith,
          (
            (fun_ext (λ a. ground arith), omega arith),
            rw width (
                start_count (256 - first_bank d) (flag (leb 32768 (first_offset d)) 1) (omega arith)
                  (omega arith) carry),
          ),
        )

    load_file_lem :
        (old : ℕ → ℕ)
        → 16 ≤ d.size
        → MenuLoaded d old ((load_file d old).0, some (load_file d old).1)
    unfolding load_file
    load_file_lem old enough =
        let (bank, offset, h) = start_lem old enough in
        let r = load_banks d 256 (first_bank d) (first_offset d) (start d old) in
        let (ok, same, count) =
          load_banks_lem old 256 (first_bank d) (first_offset d) (start d old) (omega arith)
            (omega arith) offset (λ e. absurd (omega arith)) h in
        rw (then_check_ok r ok) (same, count, check_header_lem old r.1 enough same)

    -- When FatFs mounts the card and opens the menu file, whose size is from 16 bytes to 16 MiB, and no read
    -- fails, load_menu ends within 256 turns of its loop, with the whole file at the end of the PSRAM,
    -- its last byte at the last address and the bytes below it as they were, with as many updates of
    -- the progress as were announced, and with the result 0 exactly when the sixteenth byte from the
    -- end of the file is a far jump's opcode and the twelfth is at least 0x20; otherwise the file is
    -- reported as corrupt.
    pub load_menu_lem :
        (old : ℕ → ℕ)
        → d.mount ≡ 0
        → d.open_file ≡ 0
        → 16 ≤ d.size
        → MenuLoaded d old (load_menu d old)
    unfolding load_menu
    load_menu_lem old mounted opened enough =
        let room : ltb d.size 16 ≡ false = ground arith in
        rw (load_menu, mounted, opened, room) (load_file_lem old enough)
