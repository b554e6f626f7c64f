-- ===== src/Usb/Tests.antt =====
-- The USB port on concrete states.
use nileswan.Base.{◌≡◌, refl, true, false, [], ◌∷◌}
use nileswan.Nvram.{Nvram, nvram_magic}
use nileswan.Usb.{
  off, request_on, on, Usb, wanted, power_tasks, plug, unplug, enable, round, handle, handle_all,
}
use nileswan.Usb.Ports.{is_valid}
use nileswan.Usb.Laws.{handle_all-is_valid, power_tasks_settle, reconnection_lost}

abbrev idle : Usb
idle = record {
  connected = false;
  enabled = true;
  status = off;
  powered = false;
  stack = false;
  pull_up = false;
}

abbrev pub attached : Usb
attached = record {
  connected = true;
  enabled = true;
  status = on;
  powered = true;
  stack = true;
  pull_up = true;
}

abbrev asked : Usb
asked = record idle { connected = true; status = request_on }

abbrev saved : Nvram
saved = record { magic = nvram_magic; save_id = 7; eeprom_data = []; eeprom_type = 1 }

plug_and_pull : handle_all (plug ∷ round ∷ unplug ∷ round ∷ []) idle ≡ idle
unfolding handle_all
plug_and_pull = refl

handle_all-is_valid_example : is_valid (handle_all (plug ∷ round ∷ enable false ∷ []) idle) ≡ true
handle_all-is_valid_example = handle_all-is_valid (plug ∷ round ∷ enable false ∷ []) idle refl

power_tasks_settle_example :
    let v = power_tasks 3 asked in (v.status ≡ on) × (v.stack ≡ true) × (v.powered ≡ true)
power_tasks_settle_example = power_tasks_settle 1 asked refl

reconnection_lost_example :
    let v = power_tasks 5 (handle plug (handle unplug attached)) in
    (wanted v ≡ true) × (v.status ≡ off) × (v.stack ≡ false)
reconnection_lost_example = reconnection_lost 4 attached refl refl refl
