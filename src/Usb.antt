-- ===== src/Usb.antt =====
-- The USB power state machine of firmware/src/mcu.c, and the shutdown, which ends it.
pub mod Ports
pub mod Laws
pub mod Tests
use nileswan.Base.{ℕ, zero, suc, Bool, true, false, not, ◌&&◌, ◌||◌, List, [], ◌∷◌, if◌then◌else◌}
use nileswan.Nvram.{Nvram, nvram_retention_required}

-- `usb_init_status_t`
pub data Status : Type 0 where
  off request_on on request_off : Status

-- `usb_enabled` and `usb_init_status`, with what the functions do to the hardware: whether the
-- port has power, the stack runs, and the pull-up (DPPU) was asked for; `connected` is the level
-- of the pin that senses the host's power.
pub record Usb : Type 0 where
  pub connected : Bool
  pub enabled : Bool
  pub status : Status
  pub powered : Bool
  pub stack : Bool
  pub pull_up : Bool

abbrev pub wanted : Usb → Bool
wanted u = u.connected && u.enabled

-- `__mcu_usb_on_power_change`: where a host's power is there and USB is enabled, and where not.
attach : Status → Usb → Usb
attach off u = record u { status = request_on }
attach on u = record u { pull_up = true }
attach request_on u = u
attach request_off u = u

detach : Status → Usb → Usb
detach on u = record u { status = request_off }
detach off u = u
detach request_on u = u
detach request_off u = u

unfoldable pub on_power_change : Usb → Usb
unfolding attach detach
on_power_change u = if wanted u then attach u.status u else detach u.status u

-- `mcu_usb_set_enabled`
unfoldable pub set_enabled : Bool → Usb → Usb
unfolding on_power_change
set_enabled b u = on_power_change (record u { enabled = b })

-- The two branches of `mcu_usb_power_task`: `tusb_init` with `__mcu_usb_power_on`, and
-- `tusb_deinit` with `__mcu_usb_power_off`. Whether `tusb_init` sets the pull-up is its business.
turn_on : Usb → Usb
unfolding on_power_change
turn_on u = on_power_change (record u { powered = true; status = on; stack = true })

turn_off : Usb → Usb
turn_off u = record u { pull_up = false; stack = false; powered = false; status = off }

task_of : Status → Usb → Usb
unfolding turn_on turn_off
task_of request_on u = turn_on u
task_of request_off u = turn_off u
task_of off u = u
task_of on u = u

-- `mcu_usb_power_task`
unfoldable pub power_task : Usb → Usb
unfolding task_of
power_task u = task_of u.status u

unfoldable pub power_tasks : ℕ → Usb → Usb
unfolding power_task
power_tasks zero u = u
power_tasks (suc n) u = power_tasks n (power_task u)

-- What happens: a cable edge, whose interrupt (EXTI4_15_IRQHandler, line 5) runs
-- `__mcu_usb_on_power_change`, a call of `mcu_usb_set_enabled`, and a round of the main loop.
pub data Event : Type 0 where
  plug unplug : Event
  enable : Bool → Event
  round : Event

unfoldable pub handle : Event → Usb → Usb
unfolding on_power_change set_enabled power_task
handle plug u = on_power_change (record u { connected = true })
handle unplug u = on_power_change (record u { connected = false })
handle (enable b) u = set_enabled b u
handle round u = power_task u

unfoldable pub handle_all : List Event → Usb → Usb
unfolding handle
handle_all [] u = u
handle_all (v ∷ vs) u = handle_all vs (handle v u)

-- `mcu_usb_is_powered`
unfoldable pub is_powered : Usb → Bool
is_powered u = elim u.status [ on ↦ true | _ ↦ false ]

pub data PowerMode : Type 0 where
  standby power_down : PowerMode

-- What `mcu_shutdown` leaves: the mode, whether the memory is kept, and the USB port.
pub record Shutdown : Type 0 where
  pub mode : PowerMode
  pub sram_retained : Bool
  pub usb : Usb

shutdown_usb : Status → Usb → Usb
unfolding power_task
shutdown_usb off u = u
shutdown_usb _ u = power_task (record u { status = request_off })

-- `mcu_shutdown`; `lsi` tells that the clock runs on the internal oscillator.
unfoldable pub shutdown : Nvram → Bool → Usb → Shutdown
unfolding shutdown_usb
shutdown n lsi u =
    let keep = nvram_retention_required n || lsi in
    record {
      mode = if keep then standby else power_down;
      sram_retained = keep;
      usb = shutdown_usb u.status u;
    }
