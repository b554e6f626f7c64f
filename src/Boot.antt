-- ===== src/Boot.antt =====
-- The loading of the menu by the boot loader: load_menu and update_progress of
-- software/ipl1/src/boot/main.c. FatFs and the memory card are parameters.
pub mod Fill
pub mod Laws
mod Tests
use nileswan.Base.{
  ℕ, zero, suc, ◌+◌, ◌-◌, ◌*◌, ◌/◌, ◌%◌, ◌^◌, min, Bool, true, false, ◌&&◌, ◌||◌, ◌==◌,
}
use nileswan.Base.{
  ◌!=◌, ltb, leb, if◌then◌else◌, u16, u32, not16, ◌>>>◌, ◌<<<◌, Option, none, some, flag,
}

-- What FatFs answers: the results of f_mount and f_open, the size and the bytes of the file, and the
-- result of f_read at a position of the file; 0 is FR_OK.
pub record Disk : Type 0 where
  pub mount : ℕ
  pub open_file : ℕ
  pub size : ℕ
  pub byte : ℕ → ℕ
  pub read_result : ℕ → ℕ

-- The PSRAM by linear address, the position in the file, and the progress that is shown
pub record Loader : Type 0 where
  pub psram : ℕ → ℕ
  pub position : ℕ
  pub bank_count : ℕ
  pub bank_count_max : ℕ
  pub window_end : ℕ

abbrev pub psram_max_bank : ℕ
psram_max_bank = 255

-- ERR_FILE_CORRUPT
abbrev pub file_corrupt : ℕ
file_corrupt = 128

-- `update_progress`
unfoldable pub update_progress : Loader → Loader
update_progress s =
    let count = s.bank_count + 1 in
    let progress_end = u16 (u32 (count <<< 7) / s.bank_count_max) in
    let shown = if ltb 128 progress_end then 128 else progress_end in
    record s { bank_count = count; window_end = 48 + shown - 1 }

-- A step after a read: an error ends the loading.
abbrev pub then_read : ℕ × Loader → (Loader → ℕ × Loader) → ℕ × Loader
then_read (zero, s) f = f s
then_read (suc e, s) f = (suc e, s)

-- The reset vector at the end of the last bank: a far jump, to a segment that is not too low
unfoldable pub check_header : Loader → ℕ
check_header s =
    let header : ℕ = 16777200 in
    if s.psram header != 234 || ltb (s.psram (header + 4)) 32 then file_corrupt else 0

abbrev pub then_check : ℕ × Loader → ℕ × Loader
then_check (zero, s) = (check_header s, s)
then_check (suc e, s) = (suc e, s)

module _ (d : Disk) where
  -- The bytes that a read of `count` bytes brings to an address; at the end of the file it stops.
  abbrev pub copy : ℕ → ℕ → Loader → Loader
  copy address count s =
      let length = min count (d.size - s.position) in
      let position = s.position in
      let psram = s.psram in
      record s {
        psram = λ a.
            if leb address a && ltb a (address + length)
            then d.byte (position + (a - address))
            else psram a;
        position = position + length;
      }

  -- `f_read` to an offset of the bank: the state, or the error
  unfoldable pub read_to : ℕ → ℕ → ℕ → Loader → ℕ × Loader
  read_to bank offset count s =
      if d.read_result s.position == 0
      then (0, copy (bank * 65536 + offset) count s)
      else (d.read_result s.position, s)

  -- The half of the bank below 0x8000, when the file reaches it, and the half above
  unfoldable pub low_half : ℕ → ℕ → Loader → ℕ × Loader
  unfolding read_to update_progress
  low_half bank offset s =
      if ltb offset 32768 then read_to bank offset (32768 - offset) (update_progress s) else (0, s)

  unfoldable pub high_half : ℕ → ℕ → Loader → ℕ × Loader
  unfolding read_to update_progress
  high_half bank offset s = read_to bank offset (u16 (65536 - offset)) (update_progress s)

  -- The loop over the banks
  unfoldable pub load_banks : ℕ → ℕ → ℕ → Loader → ℕ × Loader
  unfolding low_half high_half
  load_banks zero bank offset s = (0, s)
  load_banks (suc n) bank offset s = elim (leb bank psram_max_bank) [
    | false ↦ (0, s)
    | true ↦
        let middle = if ltb offset 32768 then 32768 else offset in
        then_read (low_half bank offset s)
          λ s1. then_read (high_half bank middle s1) λ s2. load_banks n (bank + 1) 0 s2
  ]

  -- The bank and the offset in it where the file begins, so that it ends at the top of the PSRAM
  unfoldable pub first_offset : ℕ
  first_offset = not16 (u16 (d.size - 1))

  unfoldable pub first_bank : ℕ
  first_bank = u16 (psram_max_bank + 65536 - ((d.size - 1) >>> 16))

  unfoldable pub start : (ℕ → ℕ) → Loader
  unfolding first_offset first_bank
  start psram = record {
    psram = psram;
    position = 0;
    bank_count = 0;
    bank_count_max = u16 (
        u16 (psram_max_bank + 1 + 65536 - first_bank) * 2
        + 65536
        - flag (leb 32768 first_offset) 1);
    window_end = 0;
  }

  -- `load_menu` after the file has been opened
  unfoldable pub load_file : (ℕ → ℕ) → ℕ × Loader
  unfolding load_banks start
  load_file psram = then_check (load_banks 256 first_bank first_offset (start psram))

  -- `load_menu`: its result, and the loader where it got so far
  unfoldable pub load_menu : (ℕ → ℕ) → ℕ × Option Loader
  unfolding load_file
  load_menu psram =
      if d.mount != 0
      then (d.mount, none)
      else if d.open_file != 0
      then (d.open_file, none)
      else if ltb d.size 16
      then (file_corrupt, none)
      else let (result, s) = load_file psram in (result, some s)
