-- ===== src/Nvram.antt =====
-- firmware/src/nvram.h: the memory that outlives a reset of the MCU, and its sentinel values.
-- `nvram_init` calls into the EEPROM and stands in `Eeprom`.
use nileswan.Base.{ℕ, Bool, List, ◌&&◌, ◌!=◌}

-- `nvram_t`. `eeprom_data` is the array of 1024 16-bit words.
pub record Nvram : Type 0 where
  pub magic : ℕ
  pub save_id : ℕ
  pub eeprom_data : List ℕ
  pub eeprom_type : ℕ

abbrev pub nvram_magic : ℕ
nvram_magic = 0xaa55_7113

abbrev pub save_id_none : ℕ
save_id_none = 0xffff_ffff

abbrev pub eeprom_words : ℕ
eeprom_words = 1024

-- `nvram_retention_required`: standby must keep the memory powered.
unfoldable pub nvram_retention_required : Nvram → Bool
nvram_retention_required n = (n.eeprom_type != 0) && (n.save_id != save_id_none)
