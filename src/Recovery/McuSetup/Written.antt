-- ===== src/Recovery/McuSetup/Written.antt =====
-- What op_mcu_setup_flash_firmware of software/userland/src/recovery/ops/mcu_setup.c leaves in the flash
-- memory of the microcontroller.
use nileswan.Base.{
  ℕ, zero, suc, ◌+◌, ◌-◌, ◌*◌, ◌^◌, ◌<◌, min, ◌≡◌, refl, ap, subst, sym, ◌∙◌, true, false,
}
use nileswan.Base.{
  List, some, take, arith, ltb, Bool-cases, inl, inr, ◌⊎◌, ◌≢◌, u32, splice, get_or,
}
use nileswan.Base.{◌>>>◌, leb, ◌||◌, ◌==◌}
use nileswan.Updater.Flash.{slice}
use nileswan.Updater.Bytes.{read_cells, same_bytes_equal, slice_append}
use nileswan.Recovery.{Platform, Machine, Action, Done, ok, ◌>>=◌}
use nileswan.Recovery.Laws.{
  bind_some, require-some, call-some, call_bytes-some, if_none_some, Copied, Copied-append,
}
use nileswan.Recovery.McuSetup.{
  write_block, write_blocks, flash_firmware, op_mcu_setup_flash_firmware, with_mcu,
}

-- The memory of the microcontroller as a function of the address, and what is assumed of libnile: a read
-- that reports success gives the bytes in order and changes nothing, and a write keeps all that lies
-- below its address.
pub record IsMemory {S : Type 0} (p : Platform S) (cells : S → ℕ → ℕ) : Type 0 where
  pub read_keeps : (a n : ℕ) (s : S) → cells (p.mcu_read a n s).1 ≡ cells s
  pub read_bytes :
      (a n : ℕ) (s : S) {bs : List ℕ}
      → (p.mcu_read a n s).0 ≡ some bs
      → bs ≡ read_cells (cells s) a n
  pub write_keeps :
      (a : ℕ) (bs : List ℕ) (s : S) (x : ℕ) → x < a → cells (p.mcu_write a bs s).1 x ≡ cells s x

pub with_mcu-some :
    {S : Type 0} (mcu_cnt : ℕ) (body : Action S Done) (s : Machine S) {t : Machine S}
    → with_mcu mcu_cnt body s ≡ (some ok, t)
    → (u : Machine S) × (body (record s { spi_cnt = mcu_cnt }) ≡ (some ok, u))
      × (t ≡ record u { spi_cnt = s.spi_cnt })
unfolding with_mcu
with_mcu-some mcu_cnt body s h =
    let r = body (record s { spi_cnt = mcu_cnt }) in
    (r.1, ap (λ o. (o, r.1)) (ap (λ x. x.0) h), sym (ap (λ x. x.1) h))

module _ {S : Type 0} (p : Platform S) (cells : S → ℕ → ℕ) (M : IsMemory p cells) where
  write_block-Copied :
      (len a : ℕ) (block : List ℕ) (s : Machine S) {d : Done} {t : Machine S}
      → write_block p len a block s ≡ (some d, t)
      → Copied (cells s.lib) (cells t.lib) a len block
  write_block-Copied len a block s {t} h =
      let (done, u, e1, k1) = bind_some _ _ s h in
      let (bs, v, e2, k2) = bind_some _ _ u k1 in
      let (same, last) = require-some _ v k2 in
      let (written, first) = call-some (p.mcu_write a block) s e1 in
      let (read, second) = call_bytes-some (p.mcu_read a len) u e2 in
      let kept : cells t.lib ≡ cells u.lib =
        ap (λ w. cells w.lib) (last ∙ second) ∙ M.read_keeps a len u.lib in
      (
        ap (λ f. read_cells f a len) kept
            ∙ sym (M.read_bytes a len u.lib read)
            ∙ same_bytes_equal _ _ same,
        λ x lt.
            ap (λ f. f x) (kept ∙ ap (λ w. cells w.lib) first) ∙ M.write_keeps a block s.lib x lt,
      )

  -- The slice where the pointer goes on, after a whole block or after the last
  slice_next :
      (i len rest : ℕ) (bs : List ℕ)
      → (len ≡ 128) ⊎ (rest ≡ 0)
      → slice (i + (len >>> 4) * 16) rest bs ≡ slice (i + len) rest bs
  slice_next i len rest bs (inl whole) = ap (λ k. slice k rest bs) (omega arith)
  slice_next i len rest bs (inr none_left) =
      ap (λ k. slice (i + (len >>> 4) * 16) k bs) none_left
      ∙ sym (ap (λ k. slice (i + len) k bs) none_left)

  blocks_round : ℕ → ℕ → ℕ → ℕ → List ℕ → Action S Done
  blocks_round n a e i fw =
      let len = min (e - a) 128 in
      write_block p len a (slice i len fw) >>= λ _.
      write_blocks p n (a + len) e (i + (len >>> 4) * 16) fw

  write_blocks_more :
      (n a e i : ℕ) (fw : List ℕ) (s : Machine S)
      → ltb a e ≡ true
      → write_blocks p (suc n) a e i fw s ≡ blocks_round n a e i fw s
  unfolding write_blocks blocks_round
  write_blocks_more n a e i fw s more = rw (write_blocks, more) refl

  write_blocks_stop :
      (n a e i : ℕ) (fw : List ℕ) (s : Machine S) {t : Machine S}
      → ltb a e ≡ false
      → write_blocks p n a e i fw s ≡ (some ok, t)
      → t ≡ s
  unfolding write_blocks
  write_blocks_stop zero a e i fw s stop h = sym (ap (λ r. r.1) h)
  write_blocks_stop (suc n) a e i fw s stop h = sym (ap (λ r. r.1) (rw (write_blocks, stop) at h))

  no_fuel :
      (a e i : ℕ) (fw : List ℕ) (s : Machine S) {t : Machine S}
      → ltb a e ≡ true
      → write_blocks p 0 a e i fw s ≡ (some ok, t)
      → ⊥
  unfolding write_blocks
  no_fuel a e i fw s more h = ground (arith, ap (λ r. r.0) h)

  stop-Copied :
      (n a e i : ℕ) (fw : List ℕ) (s : Machine S) {t : Machine S}
      → ltb a e ≡ false
      → write_blocks p n a e i fw s ≡ (some ok, t)
      → Copied (cells s.lib) (cells t.lib) a (e - a) (slice i (e - a) fw)
  unfolding read_cells
  stop-Copied n a e i fw s {t} stop h =
      let none_left : e - a ≡ 0 = ground arith in
      let same = ap (λ w. cells w.lib) (write_blocks_stop n a e i fw s stop h) in
      (
        ap (read_cells (cells t.lib) a) none_left ∙ sym (ap (λ k. slice i k fw) none_left),
        λ x lt. ap (λ f. f x) same,
      )

  write_blocks-Copied :
      (n a e i : ℕ) (fw : List ℕ) (s : Machine S) {t : Machine S}
      → write_blocks p n a e i fw s ≡ (some ok, t)
      → Copied (cells s.lib) (cells t.lib) a (e - a) (slice i (e - a) fw)
  unfolding blocks_round
  write_blocks-Copied zero a e i fw s h = elim (Bool-cases (ltb a e)) [
    | inr stop ↦ stop-Copied zero a e i fw s stop h
    | inl more ↦ absurd (no_fuel a e i fw s more h)
  ]
  write_blocks-Copied (suc n) a e i fw s {t} h = elim (Bool-cases (ltb a e)) [
    | inr stop ↦ stop-Copied (suc n) a e i fw s stop h
    | inl more ↦
        let len = min (e - a) 128 in
        let rest = e - (a + len) in
        let round = sym (write_blocks_more n a e i fw s more) ∙ h in
        let (done, u, e1, k1) =
          bind_some (write_block p len a (slice i len fw))
            (λ _. write_blocks p n (a + len) e (i + (len >>> 4) * 16) fw) s round in
        let later = write_blocks-Copied n (a + len) e (i + (len >>> 4) * 16) fw u k1 in
        let on = slice_next i len rest fw (ground arith) in
        let both =
          Copied-append (cells s.lib) (cells u.lib) (cells t.lib) a len rest _ _
            (write_block-Copied len a (slice i len fw) s e1) (later.0 ∙ on, later.1) in
        let count : len + rest ≡ e - a = ground arith in
        subst (λ k. Copied (cells s.lib) (cells t.lib) a k (slice i k fw)) count
          (both.0 ∙ sym (slice_append i len rest fw), both.1)
  ]

  flash_firmware-Copied :
      (size : ℕ) (fw : List ℕ) (s : Machine S) {t : Machine S}
      → p.mcu_flash_start + size < 2 ^ 32
      → flash_firmware p size fw s ≡ (some ok, t)
      → read_cells (cells t.lib) p.mcu_flash_start size ≡ take size fw
  unfolding flash_firmware
  flash_firmware-Copied size fw s {t} small h =
      let start : u32 p.mcu_flash_start ≡ p.mcu_flash_start = omega arith in
      let count : u32 (size + p.mcu_flash_start) - u32 p.mcu_flash_start ≡ size = omega arith in
      let (d1, u, e1, k1) = bind_some _ _ s h in
      let (d2, v, e2, k2) = bind_some _ _ u k1 in
      let copied =
        write_blocks-Copied 512 (u32 p.mcu_flash_start) (u32 (size + p.mcu_flash_start)) 0 fw v
          k2 in
      subst (λ k. read_cells (cells t.lib) p.mcu_flash_start k ≡ slice 0 k fw) count
        (ap
            (λ a.
              read_cells (cells t.lib) a (u32 (size + p.mcu_flash_start) - u32 p.mcu_flash_start))
            (sym start)
          ∙ copied.0)

  -- When op_mcu_setup_flash_firmware succeeds, the table has a firmware for the board, and the flash memory
  -- of the microcontroller holds that firmware as it was unpacked, as many bytes as the table names;
  -- the control register of the SPI bus is as it was,
  -- provided that they end below 2^32 and libnile's boot loader calls do as they say.
  pub op_mcu_setup_flash_firmware_written :
      (mcu_cnt : ℕ) (header sram : List ℕ) (s : Machine S) {t : Machine S}
      → (p.mcu_flash_start + get_or header (2 + p.board_revision * 2) 0 < 2 ^ 32)
      → op_mcu_setup_flash_firmware p mcu_cnt header sram s ≡ (some ok, t)
      → let segofs = get_or header (1 + p.board_revision * 2) 0 in
        let size = get_or header (2 + p.board_revision * 2) 0 in
        (p.board_revision < get_or header 0 0)
        × (segofs ≢ 0)
        × (read_cells (cells t.lib) p.mcu_flash_start size
            ≡ take size (splice sram 0 (p.decompress segofs)))
        × (t.spi_cnt ≡ s.spi_cnt)
  unfolding op_mcu_setup_flash_firmware
  op_mcu_setup_flash_firmware_written mcu_cnt header sram s {t} small h =
      let segofs = get_or header (1 + p.board_revision * 2) 0 in
      let size = get_or header (2 + p.board_revision * 2) 0 in
      let fw = splice sram 0 (p.decompress segofs) in
      let (found, run) =
        if_none_some (leb (get_or header 0 0) p.board_revision || segofs == 0) _ s h in
      let (u, body, state) = with_mcu-some mcu_cnt (flash_firmware p size fw) s run in
      (
        ground arith,
        ground arith,
        ap (λ w. read_cells (cells w.lib) p.mcu_flash_start size) state
            ∙ flash_firmware-Copied size fw (record s { spi_cnt = mcu_cnt }) small body,
        ap (λ w. w.spi_cnt) state,
      )
