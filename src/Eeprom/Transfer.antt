-- ===== src/Eeprom/Transfer.antt =====
-- The block transfers of eeprom.c, the erase, the types, and `nvram_init`.
use nileswan.Base.{
  ℕ, zero, suc, ◌+◌, ◌-◌, ◌^◌, ◌≤◌, ◌<◌, ◌≡◌, ◌↔◌, refl, ◌∙◌, ap, subst, Bool, ◌&&◌, List, ◌∷◌,
  ◌++◌, Option, none, some, arith, ◌==◌, if◌then◌else◌, Bool-cases, inl, inr, u8, length, get_or,
  take, drop, replicate, splice, length-append, length-take, length-drop, length-replicate,
  take-length-append, drop-length-append,
}
use nileswan.Nvram.{nvram_magic, save_id_none, eeprom_words, nvram_retention_required}
use nileswan.Eeprom.{
  Eeprom, geometry, apply_geometry, set_type, get_type, nvram_init, erase, read_data, write_data,
}
use nileswan.Eeprom.Bounds.{IsValid}

length-splice :
    (d : List ℕ) (i : ℕ) (src : List ℕ)
    → i + length src ≤ length d
    → length (splice d i src) ≡ length d
length-splice d i src h = omega (
  arith,
  length-append {0} (take i d) (src ++ drop (i + length src) d),
  length-append {0} src (drop (i + length src) d),
  length-take {0} i d,
  length-drop {0} (i + length src) d,
)

drop-splice :
    (d : List ℕ) (i : ℕ) (src : List ℕ)
    → i ≤ length d
    → drop i (splice d i src) ≡ src ++ drop (i + length src) d
drop-splice d i src h =
    let e : length (take i d) ≡ i = omega (arith, length-take {0} i d) in
    subst (λ n. drop n (splice d i src) ≡ src ++ drop (i + length src) d) e
      (drop-length-append (take i d) (src ++ drop (i + length src) d))

-- After a write that is made, reading as many words at the same place gives the words that were
-- written; the length of the array stays.
pub read_data-write_data :
    (source : List ℕ) (address : ℕ) (e : Eeprom) {e1 : Eeprom}
    → write_data source address e ≡ some e1
    → (read_data address (length source) e1 ≡ some source)
      × (length e1.nvram.eeprom_data ≡ length e.nvram.eeprom_data)
unfolding write_data read_data
read_data-write_data source address e {e1} h = ground (
  arith,
  length-splice e.nvram.eeprom_data address source,
  drop-splice e.nvram.eeprom_data address source,
  take-length-append source (drop (address + length source) e.nvram.eeprom_data),
)

-- A write is refused exactly when it would leave the array.
pub write_data-none_iff :
    (source : List ℕ) (address : ℕ) (e : Eeprom)
    → (write_data source address e ≡ none) ↔ (length e.nvram.eeprom_data < address + length source)
unfolding write_data
write_data-none_iff source address e = ground arith

drop-replicate : (i n v : ℕ) → drop i (replicate n v) ≡ replicate (n - i) v
drop-replicate zero n v = let e : n ≡ n - 0 = omega arith in ap (λ k. replicate k v) e
drop-replicate (suc i) zero v =
    let e : ◌≡◌ {A = ℕ} 0 (0 - suc i) = omega arith in ap (λ k. replicate k v) e
drop-replicate (suc i) (suc n) v =
    let e : n - i ≡ suc n - suc i = omega arith in drop-replicate i n v ∙ ap (λ k. replicate k v) e

take-replicate : (i n v : ℕ) → i ≤ n → take i (replicate n v) ≡ replicate i v
take-replicate zero n v h = refl
take-replicate (suc i) zero v h = absurd (omega arith)
take-replicate (suc i) (suc n) v h = ap (λ l. v ∷ l) (take-replicate i n v (omega arith))

pub get_or-replicate-lt : (n i v : ℕ) → v < 2 ^ 16 → get_or (replicate n v) i 0 < 2 ^ 16
get_or-replicate-lt zero i v h = omega arith
get_or-replicate-lt (suc n) zero v h = h
get_or-replicate-lt (suc n) (suc i) v h = get_or-replicate-lt n i v h

-- Erasing keeps the state valid.
erase-IsValid : {e : Eeprom} → IsValid e → IsValid (erase e)
unfolding erase
erase-IsValid {e} v = record {
  words = length-replicate (length e.nvram.eeprom_data) 0xffff ∙ v.words;
  mask = v.mask;
  fits = λ i. get_or-replicate-lt (length e.nvram.eeprom_data) i 0xffff (omega arith);
}

-- After an erase the state is valid and reading any block inside the array gives words that are
-- all 0xFFFF.
pub read_data-erase :
    (address count : ℕ) {e : Eeprom}
    → IsValid e
    → address + count ≤ eeprom_words
    → IsValid (erase e) × (read_data address count (erase e) ≡ some (replicate count 0xffff))
unfolding erase read_data
read_data-erase address count {e} v h = (
  erase-IsValid v,
  ground (
    arith,
    v.words,
    length-replicate {A = ℕ} (length e.nvram.eeprom_data) 0xffff,
    drop-replicate address (length e.nvram.eeprom_data) 0xffff,
    take-replicate count (length e.nvram.eeprom_data - address) 0xffff (omega (arith, v.words)),
  ),
)

module _ (full : Bool) where
  -- Selecting any type keeps the state valid, drops a pending write, and is read back by
  -- `eeprom_get_type`, cut to a byte.
  pub set_type_lem :
      (type : ℕ) {e : Eeprom}
      → IsValid e
      → IsValid (set_type full type e)
        × ((set_type full type e).write_command ≡ 0)
        × (get_type (set_type full type e) ≡ u8 type)
  unfolding set_type geometry get_type
  set_type_lem type {e} v = (
    record {
      words = ground (arith, v.words);
      mask = ground (arith, v.mask);
      fits = λ i. ground (arith, v.fits i);
    },
    ground arith,
    ground arith,
  )

  nvram-apply_geometry : (g : Option (ℕ × ℕ)) (e : Eeprom) → (apply_geometry g e).nvram ≡ e.nvram
  unfolding apply_geometry
  nvram-apply_geometry none e = refl
  nvram-apply_geometry (some g) e = refl

  nvram-set_type :
      (type : ℕ) (e : Eeprom)
      → (set_type full type e).nvram ≡ record e.nvram { eeprom_type = u8 type }
  unfolding set_type
  nvram-set_type type e = nvram-apply_geometry (geometry type) _

  -- `nvram_init` keeps memory with the right magic number as it is. Other memory becomes one
  -- with no EEPROM and no save, its data kept; a shutdown need not retain it.
  pub nvram_init_lem :
      (e : Eeprom)
      → e.nvram.eeprom_type < 2 ^ 8
      → let n = (nvram_init full e).nvram in
        (n.magic ≡ nvram_magic)
        × (n.eeprom_data ≡ e.nvram.eeprom_data)
        × (n.save_id ≡ (if e.nvram.magic == nvram_magic then e.nvram.save_id else save_id_none))
        × (nvram_retention_required n
            ≡ (e.nvram.magic == nvram_magic && nvram_retention_required e.nvram))
  unfolding nvram_init nvram_retention_required
  nvram_init_lem e small = elim (Bool-cases (e.nvram.magic == nvram_magic)) [
    | inl same ↦ ground (arith, nvram-set_type e.nvram.eeprom_type e)
    | inr other ↦ ground (
      arith,
      nvram-set_type 0 (record e {
        nvram = record e.nvram { magic = nvram_magic; save_id = save_id_none; eeprom_type = 0 };
      }),
    )
  ]

some_of : (o : Option Eeprom) → ¬ (o ≡ none) → (e1 : Eeprom) × (o ≡ some e1)
some_of none h = absurd (h refl)
some_of (some e1) h = (e1, refl)

-- A transfer that stays inside the array is made.
pub write_data_fits :
    (source : List ℕ) (address : ℕ) (e : Eeprom)
    → address + length source ≤ length e.nvram.eeprom_data
    → (e1 : Eeprom) × (write_data source address e ≡ some e1)
write_data_fits source address e h =
    some_of (write_data source address e)
      (λ n. omega (arith, (write_data-none_iff source address e).0 n))
