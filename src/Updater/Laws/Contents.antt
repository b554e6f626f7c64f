-- ===== src/Updater/Laws/Contents.antt =====
-- What software/userland/src/updater/main.c leaves in the flash memory.
use nileswan.Base.{ℕ, zero, suc, ◌+◌, ◌-◌, ◌%◌, ◌^◌, ◌≤◌, ◌<◌, min, ◌≡◌, refl, sym, ap, ap₂}
use nileswan.Base.{◌∙◌, true, false, List, ◌++◌, arith, length, take, splice}
use nileswan.Base.{ltb, u32, Bool-cases, inl, inr, ==_iff}
use nileswan.Crc.{crc16}
use nileswan.Updater.{Hardware, Updater, Outcome, done, ◌>>=◌}
use nileswan.Updater.Command.{FlashCommand}
use nileswan.Updater.Flash.{run_um_cmd_flash, extract, flash_part, other_board, unpacked}
use nileswan.Updater.Flash.{erase_4k, erase_sectors, flash_pages, write_page, check_page, slice}
use nileswan.Updater.Laws.{>>=-done, require-done, require_state, if_false}
use nileswan.Updater.Bytes.{
  read_cells, length-read_cells, read_cells-append, read_cells_same, same_bytes_equal, slice_append,
}

-- The flash memory as a function of the address, and what is assumed of libnile: a read that reports
-- success gives the bytes in order and changes nothing; a write within a page of 256 bytes keeps all
-- that lies below its address.
pub record IsFlash (H : Hardware) (cells : H.State → ℕ → ℕ) : Type 0 where
  pub read_keeps : (a n : ℕ) (s : H.State) → cells (H.read a n s).0 ≡ cells s
  pub read_bytes :
      (a n : ℕ) (s : H.State)
      → (H.read a n s).1 ≡ true
      → (H.read a n s).2 ≡ read_cells (cells s) a n
  pub write_keeps :
      (page : List ℕ) (a : ℕ) (s : H.State) (x : ℕ)
      → a % 2 ^ 8 + length page ≤ 256
      → x < a
      → cells (H.write_page page a s).0 x ≡ cells s x

module _ (H : Hardware) (cells : H.State → ℕ → ℕ) (F : IsFlash H cells) where
  abbrev pub flash_of : Updater H → ℕ → ℕ
  flash_of u = cells u.hardware

  -- A page that has been read back is in the flash.
  check_page_lem :
      (n : ℕ) (page : List ℕ) (a : ℕ) (u : Updater H) {v : Updater H}
      → check_page H n page a u ≡ done v
      → (read_cells (flash_of v) a n ≡ page)
        × (flash_of v ≡ flash_of u)
        × (v.unpack_buffer ≡ u.unpack_buffer)
        × (v.update_verify ≡ u.update_verify)
  check_page_lem n page a u {v} e =
      let (s, e1, e2) = >>=-done _ _ e in
      let read_state = require_state _ _ _ e1 in
      let last_state = require_state _ _ _ e2 in
      let state = last_state ∙ read_state in
      let same = same_bytes_equal _ _ (require-done _ _ _ e2) in
      let bytes = F.read_bytes a n u.hardware (require-done _ _ _ e1) in
      let kept : flash_of v ≡ flash_of u = ap flash_of state ∙ F.read_keeps a n u.hardware in
      (
        ap (λ c. read_cells c a n) kept ∙ sym bytes ∙ same,
        kept,
        ap (λ w. w.unpack_buffer) state,
        ap (λ w. w.update_verify) state,
      )

  no_fuel :
      (a e i : ℕ) (u : Updater H) {v : Updater H}
      → ltb a e ≡ true
      → flash_pages H 0 a e i u ≡ done v
      → ⊥
  unfolding flash_pages
  no_fuel a e i u more h = ground arith

  -- One round of the loop that writes pages
  page_round : ℕ → ℕ → ℕ → ℕ → Updater H → Outcome (Updater H)
  page_round n a e i u =
      let len = min (e - a) 256 in
      write_page H 2 (slice i len u.unpack_buffer) a u >>= λ u'.
      check_page H len (slice i len u.unpack_buffer) a u' >>= λ u''.
      flash_pages H n (a + len) e (i + len) u''

  flash_pages_more :
      (n a e i : ℕ) (u : Updater H)
      → ltb a e ≡ true
      → flash_pages H (suc n) a e i u ≡ page_round n a e i u
  unfolding flash_pages page_round
  flash_pages_more n a e i u more = rw (flash_pages, more) refl

  flash_pages_stop :
      (n a e i : ℕ) (u : Updater H) {v : Updater H}
      → ltb a e ≡ false
      → flash_pages H n a e i u ≡ done v
      → v ≡ u
  unfolding flash_pages
  flash_pages_stop zero a e i u stop h = ground arith
  flash_pages_stop (suc n) a e i u stop h = ground arith

  -- The flash holds the bytes of the buffer, and keeps what lies below them.
  abbrev Written : ℕ → ℕ → ℕ → Updater H → Updater H → Type 0
  Written a len i u v =
      (read_cells (flash_of v) a len ≡ slice i len u.unpack_buffer)
      × ((x : ℕ) → x < a → flash_of v x ≡ flash_of u x)
      × (v.unpack_buffer ≡ u.unpack_buffer)

  page_then :
      (a e i len : ℕ) (u w v : Updater H)
      → len ≤ e - a
      → Written a len i u w
      → Written (a + len) (e - (a + len)) (i + len) w v
      → Written a (e - a) i u v
  page_then a e i len u w v h (bytes, below, buffer) (bytes', below', buffer') =
      let count : e - a ≡ len + (e - (a + len)) = omega arith in
      (
        ap (read_cells (flash_of v) a) count
            ∙ read_cells-append (flash_of v) a len (e - (a + len))
            ∙ ap₂ (λ l r. l ++ r) (read_cells_same (flash_of v) (flash_of w) a len below' ∙ bytes)
                (bytes' ∙ ap (slice (i + len) (e - (a + len))) buffer)
            ∙ sym (slice_append i len (e - (a + len)) u.unpack_buffer)
            ∙ sym (ap (λ k. slice i k u.unpack_buffer) count),
        λ x lt. below' x (omega arith) ∙ below x lt,
        buffer' ∙ buffer,
      )

  page_Written :
      (a e i : ℕ) (u : Updater H) {s t : Updater H}
      → a % 2 ^ 8 ≡ 0
      → let len = min (e - a) 256 in
        write_page H 2 (slice i len u.unpack_buffer) a u ≡ done s
        → check_page H len (slice i len u.unpack_buffer) a s ≡ done t
        → Written a len i u t
  page_Written a e i u {s} {t} aligned written checked =
      let len = min (e - a) 256 in
      let page = slice i len u.unpack_buffer in
      let state = require_state _ _ _ written in
      let (bytes, kept, buffer, verify) = check_page_lem len page a s checked in
      let size : length page ≡ len = sym (ap length bytes) ∙ length-read_cells (flash_of t) a len in
      (
        bytes,
        λ x lt.
            ap (λ c. c x) (kept ∙ ap flash_of state)
            ∙ F.write_keeps page a u.hardware x (omega (arith, size)) lt,
        buffer ∙ ap (λ w. w.unpack_buffer) state,
      )

  stop_Written :
      (n a e i : ℕ) (u : Updater H) {v : Updater H}
      → ltb a e ≡ false
      → flash_pages H n a e i u ≡ done v
      → Written a (e - a) i u v
  unfolding read_cells
  stop_Written n a e i u {v} stop h =
      let same = flash_pages_stop n a e i u stop h in
      let none_left : e - a ≡ 0 = ground arith in
      (
        ap (read_cells (flash_of v) a) none_left
            ∙ sym (ap (λ k. slice i k u.unpack_buffer) none_left),
        λ x lt. ap (λ w. flash_of w x) same,
        ap (λ w. w.unpack_buffer) same,
      )

  flash_pages-Written :
      (n a e i : ℕ) (u : Updater H) {v : Updater H}
      → (a < e → a % 2 ^ 8 ≡ 0)
      → flash_pages H n a e i u ≡ done v
      → Written a (e - a) i u v
  unfolding page_round
  flash_pages-Written zero a e i u {v} aligned h = elim (Bool-cases (ltb a e)) [
    | inr stop ↦ stop_Written zero a e i u stop h
    | inl more ↦ absurd (no_fuel a e i u more h)
  ]
  flash_pages-Written (suc n) a e i u {v} aligned h = elim (Bool-cases (ltb a e)) [
    | inr stop ↦ stop_Written (suc n) a e i u stop h
    | inl more ↦
        let len = min (e - a) 256 in
        let here : a % 2 ^ 8 ≡ 0 = aligned (ground arith) in
        let (s, e1, k1) = >>=-done _ _ (sym (flash_pages_more n a e i u more) ∙ h) in
        let (t, e2, k2) = >>=-done _ _ k1 in
        page_then a e i len u t v (omega arith) (page_Written a e i u here e1 e2)
          (flash_pages-Written n (a + len) e (i + len) t (λ lt. omega arith) k2)
  ]

  erase_sectors_more :
      (n a e : ℕ) (u : Updater H)
      → ltb a e ≡ true
      → erase_sectors H (suc n) a e u
        ≡ (erase_4k H 1 a u >>= λ u'. erase_sectors H n (u32 (a + 4096)) e u')
  unfolding erase_sectors
  erase_sectors_more n a e u more = rw (erase_sectors, more) refl

  erase_sectors_stop :
      (n a e : ℕ) (u : Updater H) {v : Updater H}
      → ltb a e ≡ false
      → erase_sectors H (suc n) a e u ≡ done v
      → v ≡ u
  unfolding erase_sectors
  erase_sectors_stop n a e u stop h = ground arith

  -- Erasing changes neither the buffer nor the mode.
  erase_sectors_buffer :
      (n a e : ℕ) (u : Updater H) {v : Updater H}
      → erase_sectors H n a e u ≡ done v
      → v.unpack_buffer ≡ u.unpack_buffer
  unfolding erase_sectors
  erase_sectors_buffer zero a e u h = ground arith
  erase_sectors_buffer (suc n) a e u h = elim (Bool-cases (ltb a e)) [
    | inr stop ↦ ap (λ w. w.unpack_buffer) (erase_sectors_stop n a e u stop h)
    | inl more ↦
        let (s, e1, k1) = >>=-done _ _ (sym (erase_sectors_more n a e u more) ∙ h) in
        erase_sectors_buffer n (u32 (a + 4096)) e s k1
        ∙ ap (λ w. w.unpack_buffer) (require_state _ _ _ e1)
  ]

  -- A part that has been written in the second pass, for this board, stands in the flash memory at
  -- its address byte for byte as it was unpacked, and has the checksum that the manifest names,
  -- provided that it ends below 2^32 and libnile reads and writes as it says.
  pub run_um_cmd_flash_Written :
      (c : FlashCommand) (u : Updater H) {v : Updater H}
      → u.update_verify ≡ false
      → other_board H c ≡ false
      → c.flash_address + c.unpacked_length < 2 ^ 32
      → run_um_cmd_flash H c u ≡ done v
      → (read_cells (flash_of v) c.flash_address c.unpacked_length
          ≡ take c.unpacked_length (splice u.unpack_buffer 0 (unpacked H c)))
        × (crc16 (splice u.unpack_buffer 0 (unpacked H c)) c.unpacked_length 0 ≡ c.expected_crc)
  unfolding run_um_cmd_flash extract flash_part
  run_um_cmd_flash_Written c u {v} write board small h =
      let (s, e1, k1) = >>=-done _ _ (sym (if_false (other_board H c) _ _ board) ∙ h) in
      let (t, e2, k2) = >>=-done _ _ k1 in
      let state = require_state _ _ _ e2 ∙ require_state _ _ _ e1 in
      let flashing = ap (λ w. w.update_verify) state ∙ write in
      let (r, e3, k3) = >>=-done _ _ (sym (if_false t.update_verify _ _ flashing) ∙ k2) in
      let start = c.flash_address in
      let last = u32 (start + c.unpacked_length) in
      let aligned : start % 2 ^ 8 ≡ 0 = (==_iff _ _).0 (require-done _ _ _ e2) in
      let count : last - start ≡ c.unpacked_length = omega arith in
      let (bytes, below, buffer) = flash_pages-Written 256 start last 0 r (λ lt. aligned) k3 in
      let unpacking = erase_sectors_buffer 17 _ _ t e3 ∙ ap (λ w. w.unpack_buffer) state in
      (
        sym (ap (read_cells (flash_of v) start) count) ∙ bytes ∙ ap₂ (slice 0) count unpacking,
        (==_iff _ _).0 (require-done _ _ _ e1),
      )
