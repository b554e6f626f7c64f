-- ===== src/Boot/Fill.antt =====
-- What a read of software/ipl1/src/boot/main.c puts in the PSRAM.
use nileswan.Base.{ℕ, zero, suc, ◌+◌, ◌-◌, ◌*◌, ◌^◌, ◌≤◌, min, Bool, true, ◌&&◌, ◌||◌}
use nileswan.Base.{◌≡◌, refl, ap, ◌∙◌, arith, ◌!=◌, ltb, leb, if◌then◌else◌, u16}
use nileswan.Base.{Bool-cases, inl, inr, fun_ext, Option, none, some}
use nileswan.Boot.{Disk, Loader, copy, then_read}
use nileswan.Boot.{check_header, then_check, file_corrupt}

-- One past the last address of the PSRAM
abbrev pub top : ℕ
top = 2 ^ 24

pub then_read_ok : (r : ℕ × Loader) (f : Loader → ℕ × Loader) → r.0 ≡ 0 → then_read r f ≡ f r.1
then_read_ok (zero, s) f e = refl
then_read_ok (suc n, s) f e = absurd (omega arith)

pub then_check_ok : (r : ℕ × Loader) → r.0 ≡ 0 → then_check r ≡ (check_header r.1, r.1)
then_check_ok (zero, s) e = refl
then_check_ok (suc n, s) e = absurd (omega arith)

pub if_true_lem : {A : Type 0} (x y : A) (b : Bool) → b ≡ true → (if b then x else y) ≡ x
if_true_lem x y b e = rw e refl

pub start_count : (w c : ℕ) → 1 ≤ w → w ≤ 256 → c ≤ 1 → 0 + w * 2 ≡ u16 (w * 2 + 65536 - c) + c
start_count w c some_bank few bit = omega arith

module _ (d : Disk) where
  -- The first `n` bytes of the file, from an address on
  abbrev pub filled : ℕ → ℕ → (ℕ → ℕ) → ℕ → ℕ
  filled base n old a = if leb base a && ltb a (base + n) then d.byte (a - base) else old a

  copy_fills :
      (old : ℕ → ℕ) (base position count address a : ℕ)
      → address ≡ base + position
      → (if leb address a && ltb a (address + count)
          then d.byte (position + (a - address))
          else filled base position old a)
        ≡ filled base (position + count) old a
  copy_fills old base position count address a e =
      elim (Bool-cases (leb address a && ltb a (address + count))) [
        | inl new ↦
            let same : position + (a - address) ≡ a - base = ground arith in
            let byte = ap d.byte same in ground arith
        | inr outside ↦ ground arith
      ]

  -- Where the loop stands: so much of the file is in place, and the rest ends at the top.
  abbrev pub Standing : (ℕ → ℕ) → ℕ → ℕ → Loader → Type 0
  Standing old bank offset s =
      (s.psram ≡ filled (top - d.size) s.position old)
      × (bank * 65536 + offset ≡ top - d.size + s.position)

  pub copy_lem :
      (old : ℕ → ℕ) (base address count : ℕ) (s : Loader)
      → s.psram ≡ filled base s.position old
      → address ≡ base + s.position
      → s.position + count ≤ d.size
      → (copy d address count s).psram ≡ filled base (s.position + count) old
  copy_lem old base address count s same place fits =
      let length = min count (d.size - s.position) in
      let all : length ≡ count = omega arith in
      fun_ext (λ a.
        ap
          (λ f.
            if leb address a && ltb a (address + length)
            then d.byte (s.position + (a - address))
            else f a)
          same
        ∙ copy_fills old base s.position length address a place)
      ∙ ap (λ n. filled base (s.position + n) old) all

  pub copy_position :
      (address count : ℕ) (s : Loader)
      → s.position + count ≤ d.size
      → (copy d address count s).position ≡ s.position + count
  copy_position address count s fits = omega arith

  -- What load_menu leaves when the whole file could be read
  abbrev pub MenuLoaded : (ℕ → ℕ) → ℕ × Option Loader → Type 0
  MenuLoaded old (result, none) = ⊥
  MenuLoaded old (result, some s) =
      (s.psram ≡ filled (top - d.size) d.size old)
      × (s.bank_count ≡ s.bank_count_max)
      × (result ≡ (
          if d.byte (d.size - 16) != 234 || ltb (d.byte (d.size - 12)) 32 then file_corrupt else 0))
