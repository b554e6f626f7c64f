-- ===== src/Power/Laws.antt =====
-- Edges that come together at the pins of firmware/src/mcu.c.
use nileswan.Base.{Bool, true, false, ◌||◌, ◌≡◌, refl, arith}
use nileswan.Base.{if◌then◌else◌, bit_or}
use nileswan.Irq.{Irq, irq_set, tf_insert, tf_remove}
use nileswan.Usb.{Usb, on_power_change}
use nileswan.Power.{Pins, Edges, card_edges, power_edges}

-- However the edges of the card come together, both interrupts are noted: inserting it and taking it
-- out again leaves the two bits set, as taking it out and inserting it does.
pub card_edges_noted :
    (i : Irq)
    → (card_edges (record { rising = true; falling = true }) i).status
      ≡ bit_or (bit_or i.status tf_remove) tf_insert
unfolding card_edges irq_set
card_edges_noted i = refl

on_power_change_again : (u : Usb) → on_power_change (on_power_change u) ≡ on_power_change u
unfolding on_power_change
on_power_change_again u = ground arith

-- The port looks at the level of the host's power and not at the edges, so a second edge before the
-- handler runs changes nothing more.
pub power_edges_once :
    (host battery : Edges) (p : Pins) (u : Usb)
    → (power_edges host battery p u).0
      ≡ (if host.rising || host.falling then on_power_change u else u)
unfolding power_edges
power_edges_once host battery p u = go host.rising host.falling
  where
    go :
        (r f : Bool)
        → (if f
            then on_power_change (if r then on_power_change u else u)
            else (if r then on_power_change u else u))
          ≡ (if r || f then on_power_change u else u)
    go true true = on_power_change_again u
    go true false = refl
    go false true = refl
    go false false = refl
