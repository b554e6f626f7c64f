-- ===== src/Updater/Laws/Devices.antt =====
-- The parts of software/userland/src/updater/main.c that stop only on an error of the cartridge.
use nileswan.Base.{ℕ, zero, suc, ◌+◌, ◌≡◌, refl, ◌∙◌, Bool, true, false, List, arith, length, take}
use nileswan.Base.{
  ◌≤◌, sym, ap, Bool-cases, inl, inr, splice, ltb, if◌then◌else◌, ◌++◌, drop, [], ◌∷◌,
}
use nileswan.Crc.{crc16, crc16_loop, loop_count}
use nileswan.Updater.{Hardware, Updater, Outcome, done, halted, stuck, ◌>>=◌, require, Halt}
use nileswan.Updater.{flash_error}
use nileswan.Updater.Command.{FlashCommand}
use nileswan.Updater.Flash.{flash_part}
use nileswan.Updater.Flash.{same_bytes, erase_sectors}
use nileswan.Updater.Flash.{flash_pages, write_manifest, check_page}
use nileswan.Updater.Mcu.{enter_boot_loader, mcu_part, mcu_blocks}
use nileswan.Updater.Mcu.{configure_mcu, option_bytes, write_options, mcu_check}

abbrev pub is_device_error : Halt → Bool
is_device_error (flash_error text code) = true
is_device_error _ = false

-- The part of the program ends, is stuck in a loop, or stops because the cartridge reports an error.
pub data DeviceErrors {S : Type 0} : Outcome S → Type 0 where
  ends : (s : S) → DeviceErrors (done s)
  fails : (h : Halt) (s : S) → is_device_error h ≡ true → DeviceErrors (halted h s)
  loops : DeviceErrors stuck

pub DeviceErrors->>= :
    {S : Type 0} {o : Outcome S} {f : S → Outcome S}
    → DeviceErrors o
    → ((s : S) → DeviceErrors (f s))
    → DeviceErrors (o >>= f)
unfolding ◌>>=◌
DeviceErrors->>= (ends s) g = g s
DeviceErrors->>= (fails h s p) g = fails h s p
DeviceErrors->>= loops g = loops

take_append : (n : ℕ) (ds bs : List ℕ) → n ≤ length ds → take n (ds ++ bs) ≡ take n ds
take_append zero ds bs h = refl
take_append (suc n) [] bs h = absurd (omega arith)
take_append (suc n) (d ∷ ds) bs h = ap (λ l. d ∷ l) (take_append n ds bs (omega arith))

pub require-DeviceErrors :
    {S : Type 0} (ok : Bool) (h : Halt) (s : S)
    → is_device_error h ≡ true
    → DeviceErrors (require ok h s)
unfolding require
require-DeviceErrors true h s p = ends s
require-DeviceErrors false h s p = fails h s p

pub if-DeviceErrors :
    {S : Type 0} (b : Bool) (x y : Outcome S)
    → DeviceErrors x
    → (b ≡ false → DeviceErrors y)
    → DeviceErrors (if b then x else y)
if-DeviceErrors true x y p q = p
if-DeviceErrors false x y p q = q refl

pub require_passes :
    {S : Type 0} (ok : Bool) (h : Halt) (s : S) → ok ≡ true → DeviceErrors (require ok h s)
unfolding require
require_passes true h s p = ends s
require_passes false h s p = cc

module _ (H : Hardware) where
  check_page-DeviceErrors :
      (n : ℕ) (page : List ℕ) (a : ℕ) (u : Updater H) → DeviceErrors (check_page H n page a u)
  check_page-DeviceErrors n page a u =
      DeviceErrors->>= (require-DeviceErrors _ _ _ refl) (λ s. require-DeviceErrors _ _ _ refl)

  erase_sectors-DeviceErrors : (n a e : ℕ) (u : Updater H) → DeviceErrors (erase_sectors H n a e u)
  unfolding erase_sectors
  erase_sectors-DeviceErrors zero a e u = elim (Bool-cases (ltb a e)) [
    | inr done_now ↦ rw done_now (ends u)
    | inl more ↦ rw more loops
  ]
  erase_sectors-DeviceErrors (suc n) a e u = elim (Bool-cases (ltb a e)) [
    | inr done_now ↦ rw (erase_sectors, done_now) (ends u)
    | inl more ↦
        rw (erase_sectors, more)
          (DeviceErrors->>= (require-DeviceErrors _ _ _ refl) (erase_sectors-DeviceErrors n _ e))
  ]

  flash_pages-DeviceErrors : (n a e i : ℕ) (u : Updater H) → DeviceErrors (flash_pages H n a e i u)
  unfolding flash_pages
  flash_pages-DeviceErrors zero a e i u = elim (Bool-cases (ltb a e)) [
    | inr done_now ↦ rw done_now (ends u)
    | inl more ↦ rw more loops
  ]
  flash_pages-DeviceErrors (suc n) a e i u = elim (Bool-cases (ltb a e)) [
    | inr done_now ↦ rw (flash_pages, done_now) (ends u)
    | inl more ↦
        rw (flash_pages, more)
          (DeviceErrors->>= (require-DeviceErrors _ _ _ refl) (λ s.
            DeviceErrors->>= (check_page-DeviceErrors _ _ a s) (flash_pages-DeviceErrors n _ e _)))
  ]

  mcu_check-DeviceErrors :
      (n : ℕ) (page : List ℕ) (a : ℕ) (u : Updater H) → DeviceErrors (mcu_check H n page a u)
  mcu_check-DeviceErrors n page a u =
      DeviceErrors->>= (require-DeviceErrors _ _ _ refl) (λ s. require-DeviceErrors _ _ _ refl)

  mcu_blocks-DeviceErrors : (n a e i : ℕ) (u : Updater H) → DeviceErrors (mcu_blocks H n a e i u)
  unfolding mcu_blocks
  mcu_blocks-DeviceErrors zero a e i u = elim (Bool-cases (ltb a e)) [
    | inr done_now ↦ rw done_now (ends u)
    | inl more ↦ rw more loops
  ]
  mcu_blocks-DeviceErrors (suc n) a e i u = elim (Bool-cases (ltb a e)) [
    | inr done_now ↦ rw (mcu_blocks, done_now) (ends u)
    | inl more ↦
        rw (mcu_blocks, more)
          (DeviceErrors->>= (require-DeviceErrors _ _ _ refl) (λ s.
            DeviceErrors->>= (mcu_check-DeviceErrors _ _ a s) (mcu_blocks-DeviceErrors n _ e _)))
  ]

  pub flash_part-DeviceErrors : (c : FlashCommand) (u : Updater H) → DeviceErrors (flash_part H c u)
  unfolding flash_part
  flash_part-DeviceErrors c u = if-DeviceErrors u.update_verify _ _ (ends u) (λ _.
      DeviceErrors->>= (erase_sectors-DeviceErrors 17 _ _ u) (flash_pages-DeviceErrors 256 _ _ 0))

  options-DeviceErrors : (old : List ℕ) (u : Updater H) → DeviceErrors (write_options H old u)
  unfolding write_options
  options-DeviceErrors old u =
      if-DeviceErrors (same_bytes old (option_bytes old)) _ _ (ends u)
        (λ _. require-DeviceErrors _ _ _ refl)

  configure_mcu-DeviceErrors : (u : Updater H) → DeviceErrors (configure_mcu H u)
  unfolding configure_mcu
  configure_mcu-DeviceErrors u =
      DeviceErrors->>= (require-DeviceErrors _ _ _ refl) (options-DeviceErrors _)

  pub mcu_part-DeviceErrors : (c : FlashCommand) (u : Updater H) → DeviceErrors (mcu_part H c u)
  unfolding mcu_part
  mcu_part-DeviceErrors c u = if-DeviceErrors u.update_verify _ _ (ends u) (λ _.
      DeviceErrors->>= (require-DeviceErrors _ _ _ refl) (λ s.
        DeviceErrors->>= (mcu_blocks-DeviceErrors 512 _ _ 0 s)
          (λ s. DeviceErrors->>= (configure_mcu-DeviceErrors s) (λ s. ends _))))

  pub boot_loader-DeviceErrors : (u : Updater H) → DeviceErrors (enter_boot_loader H u)
  unfolding enter_boot_loader
  boot_loader-DeviceErrors u =
      if-DeviceErrors u.mcu_restarted _ _ (ends u)
        (λ _. DeviceErrors->>= (require-DeviceErrors _ _ _ refl) (λ s. ends _))

  pub manifest-DeviceErrors : (n a : ℕ) (u : Updater H) → DeviceErrors (write_manifest H n a u)
  unfolding write_manifest
  manifest-DeviceErrors n a u =
      DeviceErrors->>= (require-DeviceErrors _ _ _ refl) (check_page-DeviceErrors _ _ a)

  -- What the first pass has found right is right in the second, whatever the buffer held before.
  pub crc16_whole :
      (ds xs ys : List ℕ) (n : ℕ)
      → loop_count n ≤ length ds
      → crc16 (splice xs 0 ds) n 0 ≡ crc16 (splice ys 0 ds) n 0
  unfolding crc16
  crc16_whole ds xs ys n h =
      ap (λ b. crc16_loop b 0)
        (take_append (loop_count n) ds (drop (0 + length ds) xs) h
          ∙ sym (take_append (loop_count n) ds (drop (0 + length ds) ys) h))
