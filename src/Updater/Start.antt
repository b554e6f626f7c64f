-- ===== src/Updater/Start.antt =====
-- flash_chip_supported, print_version's test and main of software/userland/src/updater/main.c: from
-- power on to the end of the update. The keys that are waited for are taken to be pressed.
pub mod Laws
use nileswan.Base.{ℕ, zero, suc, ◌+◌, ◌*◌, ◌^◌, Bool, true, false, List, [], ◌∷◌, ◌&&◌, ◌||◌, not}
use nileswan.Base.{◌==◌, ◌!=◌, ltb, if◌then◌else◌, take, drop, splice, replicate, get_or}
use nileswan.Crc.{crc16}
use nileswan.Updater.{Hardware, Updater, Outcome, done, halted, overrun, ◌>>=◌, require, Halt}
use nileswan.Updater.{early_error, unknown_flash, no_downgrade, corrupt_data}
use nileswan.Updater.Command.{word_at}
use nileswan.Updater.Flash.{version_size, version}
use nileswan.Updater.Run.{run_update_manifest}

-- The fields of `um_version_t` that are compared; UM_ID is 0x5746.
pub record Version : Type 0 where
  pub id : ℕ
  pub major : ℕ
  pub minor : ℕ

abbrev pub um_id : ℕ
um_id = 22342

abbrev pub version_of : List ℕ → Version
version_of bytes = record { id = word_at bytes 0; major = word_at bytes 2; minor = word_at bytes 4 }

unfoldable pub is_downgrade : Version → Version → Bool
is_downgrade installed update =
    installed.id == um_id
    && (ltb update.major installed.major
        || (update.major == installed.major && ltb update.minor installed.minor))

-- `flash_chip_supported`, over the identifiers that libnile names
unfoldable pub flash_chip_supported : List ℕ → ℕ → Bool
flash_chip_supported [] flash_id = false
flash_chip_supported (chip ∷ chips) flash_id =
    let rest = flash_chip_supported chips flash_id in chip == flash_id || rest

-- sizeof(update_manifest_data)
abbrev pub manifest_size : ℕ
manifest_size = 512

-- Where the part of the flash ends that a factory image occupies, 0x40000
abbrev pub factory_end : ℕ
factory_end = 262144

module _ (H : Hardware) where
  -- The copy of the manifest. Its size and its checksum stand in front of it. The checksum of no
  -- bytes runs over 64 KiB, which is more than the array.
  unfoldable pub load_manifest : ℕ → Updater H → Outcome (Updater H)
  load_manifest segment u =
      let start = H.rom segment in
      let size = word_at start 0 in
      let contents = splice (replicate manifest_size 0) 0 (take size (drop 4 start)) in
      let actual_crc16 = crc16 contents size 0 in
      require (not (ltb manifest_size size)) (early_error corrupt_data segment) u >>= λ u'.
      if size == 0
      then overrun
      else require (actual_crc16 == word_at start 2) (early_error corrupt_data actual_crc16)
          (record u' { update_manifest_data = contents })

  -- The installed version is read, and must not be newer than the update, except in the factory
  -- part, where the user is only warned.
  unfoldable pub check_version : Updater H → Outcome (Updater H)
  check_version u =
      let (s, ok, bytes) = H.read u.flash_version_address version_size u.hardware in
      let update = version_of (version H u) in
      let refused =
        is_downgrade (version_of bytes) update && not (ltb u.flash_version_address factory_end) in
      require (update.id == um_id) (early_error corrupt_data update.id) (record u { hardware = s })
      >>= λ u'. require (not refused) no_downgrade u'

  -- What comes before the user is asked to go on
  unfoldable pub prepare : List ℕ → ℕ → ℕ → Updater H → Outcome (Updater H)
  unfolding load_manifest check_version
  prepare chips flash_id segment u =
      require (flash_chip_supported chips flash_id) (unknown_flash flash_id) u >>= λ u0.
      load_manifest segment u0 >>= λ u1. run_update_manifest H true u1 >>= λ u2. check_version u2

  abbrev pub unlock : Updater H → Updater H
  unlock u =
      if ltb u.flash_version_address factory_end
      then record u { hardware = H.unlock u.hardware }
      else u

  unfoldable pub main : List ℕ → ℕ → ℕ → Updater H → Outcome (Updater H)
  unfolding prepare
  main chips flash_id segment u =
      prepare chips flash_id segment u >>= λ u'. run_update_manifest H false (unlock u')
