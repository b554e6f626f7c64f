-- ===== src/Recovery/Dump/Laws.antt =====
-- What the copies of software/userland/src/recovery/ops/mcu_setup.c leave in their file.
use nileswan.Base.{
  ℕ, zero, suc, ◌+◌, ◌-◌, ◌*◌, ◌≤◌, min, ◌≡◌, refl, ap, sym, ◌∙◌, true, false, arith,
}
use nileswan.Base.{
  List, [], ◌++◌, Option, none, some, append_assoc, append-nil, ltb, Bool-cases, inl, inr,
}
use nileswan.Updater.Bytes.{read_cells, read_cells-append}
use nileswan.Recovery.{Platform, Machine, Action, Done, ok, next, ◌>>=◌, call, call_bytes, call_fr}
use nileswan.Recovery.Laws.{bind_some, call_bytes-some, call_fr-some}
use nileswan.Recovery.McuSetup.{mcu_enter_bootloader_mode}
use nileswan.Recovery.McuSetup.Written.{with_mcu-some}
use nileswan.Recovery.TfCard.{write_file, op_tf_card_init}
use nileswan.Recovery.Dump.{
  op_mcu_setup_dump_flash, op_mcu_setup_dump_spi_flash, close_after, dump_blocks, dump_file,
}

-- What is assumed of a memory, and of FatFs with its one file: a read that reports success gives the bytes
-- in order and leaves the file; a new file is empty; a write that reports no error appends all its bytes,
-- so the card never is full; and closing leaves the file.
pub record IsFile {S : Type 0} (p : Platform S) (read : ℕ → ℕ → S → Option (List ℕ) × S)
    (content : S → List ℕ) (cells : ℕ → ℕ) : Type 0 where
  pub read_bytes :
      (a n : ℕ) (s : S) {bs : List ℕ} → (read a n s).0 ≡ some bs → bs ≡ read_cells cells a n
  pub read_keeps : (a n : ℕ) (s : S) → content (read a n s).1 ≡ content s
  pub new_file : (s : S) → (p.f_open true s).0 ≡ 0 → content (p.f_open true s).1 ≡ []
  pub appends :
      (bs : List ℕ) (s : S)
      → (p.f_write bs s).0.0 ≡ 0
      → content (p.f_write bs s).1 ≡ content s ++ bs
  pub close_keeps : (s : S) → content (p.f_close s).1 ≡ content s

module _ {S : Type 0} (p : Platform S) (read : ℕ → ℕ → S → Option (List ℕ) × S) where
  -- One round of the loop
  dump_round : ℕ → ℕ → ℕ → Action S Done
  dump_round n a e =
      let len = min (e - a) 128 in
      call_bytes (read a len) >>= λ bs. write_file p bs >>= λ _. dump_blocks p read n (a + len) e

  dump_blocks_more :
      (n a e : ℕ) (s : Machine S)
      → ltb a e ≡ true
      → dump_blocks p read (suc n) a e s ≡ dump_round n a e s
  unfolding dump_blocks dump_round
  dump_blocks_more n a e s more = rw (dump_blocks, more) refl

  dump_blocks_stop :
      (n a e : ℕ) (s : Machine S) → ltb a e ≡ false → dump_blocks p read n a e s ≡ (some ok, s)
  unfolding dump_blocks
  dump_blocks_stop zero a e s stop = rw stop refl
  dump_blocks_stop (suc n) a e s stop = rw (dump_blocks, stop) refl

  no_fuel :
      (a e : ℕ) (s : Machine S) {t : Machine S}
      → ltb a e ≡ true
      → dump_blocks p read 0 a e s ≡ (some ok, t)
      → ⊥
  unfolding dump_blocks
  no_fuel a e s more h = ground (arith, ap (λ r. r.0) h)

  -- With reads and writes that succeed, the loop ends within as many rounds as there are blocks.
  dump_blocks_ends :
      ((a n : ℕ) (s : S) → (bs : List ℕ) × ((read a n s).0 ≡ some bs))
      → ((bs : List ℕ) (s : S) → (p.f_write bs s).0.0 ≡ 0)
      → (n a e : ℕ) (s : Machine S) → e ≤ a + n * 128
      → (dump_blocks p read n a e s).0 ≡ some ok
  unfolding dump_round ◌>>=◌ next
  dump_blocks_ends reads writes zero a e s enough =
      ap (λ r. r.0) (dump_blocks_stop zero a e s (ground arith))
  dump_blocks_ends reads writes (suc n) a e s enough = elim (Bool-cases (ltb a e)) [
    | inr stop ↦ ap (λ r. r.0) (dump_blocks_stop (suc n) a e s stop)
    | inl more ↦
        let len = min (e - a) 128 in
        let (bs, came) = reads a len s.lib in
        let written = writes bs (read a len s.lib).1 in
        ap (λ r. r.0) (dump_blocks_more n a e s more)
        ∙ rw (came, written)
            (dump_blocks_ends reads writes n (a + len) e
              (record s { lib = (p.f_write bs (read a len s.lib).1).1 }) (ground arith))
  ]

  module _ (content : S → List ℕ) (cells : ℕ → ℕ) (F : IsFile p read content cells) where
    stop_content :
        (n a e : ℕ) (s : Machine S) {t : Machine S}
        → ltb a e ≡ false
        → dump_blocks p read n a e s ≡ (some ok, t)
        → content t.lib ≡ content s.lib ++ read_cells cells a (e - a)
    unfolding read_cells
    stop_content n a e s stop h =
        let none_left : e - a ≡ 0 = ground arith in
        ap (λ r. content r.1.lib) (sym h ∙ dump_blocks_stop n a e s stop)
        ∙ sym (append-nil _)
        ∙ sym (ap (λ k. content s.lib ++ read_cells cells a k) none_left)

    dump_blocks-content :
        (n a e : ℕ) (s : Machine S) {t : Machine S}
        → dump_blocks p read n a e s ≡ (some ok, t)
        → content t.lib ≡ content s.lib ++ read_cells cells a (e - a)
    unfolding dump_round
    dump_blocks-content zero a e s h = elim (Bool-cases (ltb a e)) [
      | inr stop ↦ stop_content zero a e s stop h
      | inl more ↦ absurd (no_fuel a e s more h)
    ]
    dump_blocks-content (suc n) a e s {t} h = elim (Bool-cases (ltb a e)) [
      | inr stop ↦ stop_content (suc n) a e s stop h
      | inl more ↦
          let len = min (e - a) 128 in
          let rest = e - (a + len) in
          let (bs, u, e1, k1) =
            bind_some (call_bytes (read a len))
              (λ bs. write_file p bs >>= λ _. dump_blocks p read n (a + len) e) s
              (sym (dump_blocks_more n a e s more) ∙ h) in
          let (d, v, e2, k2) =
            bind_some (write_file p bs) (λ _. dump_blocks p read n (a + len) e) u k1 in
          let (came, first) = call_bytes-some (read a len) s e1 in
          let (written, second) =
            call_fr-some (λ l. ((p.f_write bs l).0.0, (p.f_write bs l).1)) u e2 in
          let now : content v.lib ≡ content s.lib ++ bs =
            ap (λ w. content w.lib) second
            ∙ F.appends bs u.lib written
            ∙ ap (λ l. l ++ bs) (ap (λ w. content w.lib) first ∙ F.read_keeps a len s.lib) in
          let count : len + rest ≡ e - a = ground arith in
          dump_blocks-content n (a + len) e v k2
          ∙ ap (λ l. l ++ read_cells cells (a + len) rest) now
          ∙ append_assoc (content s.lib) bs (read_cells cells (a + len) rest)
          ∙ ap (λ l. content s.lib ++ (l ++ read_cells cells (a + len) rest))
              (F.read_bytes a len s.lib came)
          ∙ ap (λ l. content s.lib ++ l) (sym (read_cells-append cells a len rest))
          ∙ ap (λ k. content s.lib ++ read_cells cells a k) count
    ]

    close_some :
        (r : Option Done × Machine S) {t : Machine S}
        → close_after p r ≡ (some ok, t)
        → (r.0 ≡ some ok) × (content t.lib ≡ content r.1.lib)
    close_some (none, v) h = absurd (ground (arith, ap (λ x. x.0) h))
    close_some (some ok, v) h = (refl, sym (ap (λ x. content x.1.lib) h) ∙ F.close_keeps v.lib)

    dump_file-content :
        (n a e : ℕ) (s : Machine S) {t : Machine S}
        → dump_file p read n a e s ≡ (some ok, t)
        → content t.lib ≡ read_cells cells a (e - a)
    unfolding dump_file
    dump_file-content n a e s h =
        let (d, u, e1, k1) =
          bind_some (call_fr (p.f_open true)) (λ _ v. close_after p (dump_blocks p read n a e v)) s
            h in
        let (opened, first) = call_fr-some (p.f_open true) s e1 in
        let (filled, closed) = close_some (dump_blocks p read n a e u) k1 in
        let empty : content u.lib ≡ [] = ap (λ w. content w.lib) first ∙ F.new_file s.lib opened in
        closed
        ∙ dump_blocks-content n a e u (ap (λ r. (r, (dump_blocks p read n a e u).1)) filled)
        ∙ ap (λ l. l ++ read_cells cells a (e - a)) empty

module _ {S : Type 0} (p : Platform S) (content : S → List ℕ) (cells : ℕ → ℕ)
    (tf_cnt mcu_cnt : ℕ) where
  -- When op_mcu_setup_dump_spi_flash succeeds, the file holds the 2 MiB of the flash memory in order, provided
  -- that libnile and FatFs do as they say and the card does not get full.
  pub op_mcu_setup_dump_spi_flash-content :
      IsFile p p.flash_read content cells
      → (s : Machine S) {t : Machine S}
      → op_mcu_setup_dump_spi_flash p tf_cnt mcu_cnt s ≡ (some ok, t)
      → content t.lib ≡ read_cells cells 0 (2048 * 1024)
  unfolding op_mcu_setup_dump_spi_flash
  op_mcu_setup_dump_spi_flash-content F s h =
      let steps = call p.flash_wake >>= λ _. dump_file p p.flash_read 16384 0 (2048 * 1024) in
      let (u, body, state) = with_mcu-some mcu_cnt steps s h in
      let (d, v, e1, k1) = bind_some _ _ (record s { spi_cnt = mcu_cnt }) body in
      ap (λ w. content w.lib) state
      ∙ dump_file-content p p.flash_read content cells F 16384 0 (2048 * 1024) v k1

  -- When op_mcu_setup_dump_flash succeeds, the file holds the 256 KiB of the microcontroller's flash memory in
  -- order, provided that libnile and FatFs do as they say and the card does not get full.
  pub op_mcu_setup_dump_flash-content :
      IsFile p p.mcu_read content cells
      → (s : Machine S) {t : Machine S} → op_mcu_setup_dump_flash p tf_cnt mcu_cnt s ≡ (some ok, t)
      → content t.lib ≡ read_cells cells p.mcu_flash_start (256 * 1024)
  unfolding op_mcu_setup_dump_flash
  op_mcu_setup_dump_flash-content F s h =
      let dump = dump_file p p.mcu_read 2048 p.mcu_flash_start (p.mcu_flash_start + 256 * 1024) in
      let start = λ (d : Done). mcu_enter_bootloader_mode p >>= λ _. dump in
      let (u, body, state) =
        with_mcu-some mcu_cnt (op_tf_card_init p tf_cnt false true >>= start) s h in
      let (d1, v, e1, k1) = bind_some _ _ (record s { spi_cnt = mcu_cnt }) body in
      let (d2, w, e2, k2) = bind_some _ _ v k1 in
      let count : p.mcu_flash_start + 256 * 1024 - p.mcu_flash_start ≡ 256 * 1024 = omega arith in
      ap (λ x. content x.lib) state
      ∙ dump_file-content p p.mcu_read content cells F 2048 p.mcu_flash_start
          (p.mcu_flash_start + 256 * 1024) w k2
      ∙ ap (read_cells cells p.mcu_flash_start) count
