-- ===== src/Power.antt =====
-- The interrupts of the pins of firmware/src/mcu.c: the memory card, the host's power and the battery.
pub mod Laws
use nileswan.Base.{ℕ, Bool, true, false, List, [], ◌∷◌, ◌&&◌, Option, none, some, if◌then◌else◌}
use nileswan.Irq.{Irq, irq_set, tf_insert, tf_remove}
use nileswan.Usb.{Usb, on_power_change}

-- What the pins say in `__mcu_bat_on_power_change`: whether the cartridge runs on its battery, and whether one is inserted.
pub record Pins : Type 0 where
  pub running_on_battery : Bool
  pub battery_inserted : Bool

-- The edges that EXTI has noted for a pin when its handler runs
pub record Edges : Type 0 where
  pub rising : Bool
  pub falling : Bool

-- EXTI2_3_IRQHandler
unfoldable pub card_edges : Edges → Irq → Irq
card_edges e i =
    let removed = if e.rising then irq_set tf_remove i else i in
    if e.falling then irq_set tf_insert removed else removed

-- `__mcu_bat_on_power_change`: whether it shuts down
abbrev pub battery_shuts_down : Pins → Bool
battery_shuts_down p = p.running_on_battery && p.battery_inserted

-- EXTI4_15_IRQHandler: the port after the edges of the host's power, and whether an edge of the
-- battery shuts the microcontroller down
unfoldable pub power_edges : Edges → Edges → Pins → Usb → Usb × Bool
power_edges host battery p u =
    let u1 = if host.rising then on_power_change u else u in
    let u2 = if host.falling then on_power_change u1 else u1 in
    let edge = if battery.rising then true else battery.falling in
    (u2, edge && battery_shuts_down p)
