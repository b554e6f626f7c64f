-- ===== src/Irq.antt =====
-- firmware/src/spi.c, lines 39 to 83: the interrupt register that the MCU shows to the console,
-- and the IRQ line to the FPGA.
pub mod Laws
pub mod Tests
use nileswan.Base.{ℕ, Bool, List, [], ◌∷◌, bit_and, bit_or, not16, ◌!=◌}

-- `spi_irq`, `spi_irq_enable` and the level of the line, `true` while it is asserted
pub record Irq : Type 0 where
  pub status : ℕ
  pub enable : ℕ
  pub line : Bool

abbrev pub tf_insert : ℕ
tf_insert = 0x0001

abbrev pub tf_remove : ℕ
tf_remove = 0x0002

abbrev pub rtc_alarm : ℕ
rtc_alarm = 0x0004

-- The bits that an acknowledgement leaves alone.
abbrev pub non_ack_mask : ℕ
non_ack_mask = rtc_alarm

-- `mcu_spi_update_irq`
update_irq : Irq → Irq
update_irq i = record i { line = bit_and i.status i.enable != 0 }

-- `mcu_spi_irq_set`
unfoldable pub irq_set : ℕ → Irq → Irq
unfolding update_irq
irq_set irq i = update_irq (record i { status = bit_or i.status irq })

-- `mcu_spi_irq_clear`
unfoldable pub irq_clear : ℕ → Irq → Irq
unfolding update_irq
irq_clear irq i = update_irq (record i { status = bit_and i.status (not16 irq) })

-- `mcu_spi_irq_ack_status`
unfoldable pub irq_ack_status : ℕ → Irq → Irq
unfolding update_irq
irq_ack_status value i =
    update_irq (record i { status = bit_and i.status (bit_or (not16 value) non_ack_mask) })

-- `mcu_spi_irq_set_enable`
unfoldable pub irq_set_enable : ℕ → Irq → Irq
unfolding update_irq
irq_set_enable value i = update_irq (record i { enable = value })

-- What interrupt handlers and the console do to the register.
pub data Event : Type 0 where
  raise drop acknowledge set_enable : ℕ → Event

unfoldable pub handle : Event → Irq → Irq
unfolding irq_set irq_clear irq_ack_status irq_set_enable
handle (raise m) i = irq_set m i
handle (drop m) i = irq_clear m i
handle (acknowledge v) i = irq_ack_status v i
handle (set_enable v) i = irq_set_enable v i

unfoldable pub handle_all : List Event → Irq → Irq
unfolding handle
handle_all [] i = i
handle_all (v ∷ vs) i = handle_all vs (handle v i)
