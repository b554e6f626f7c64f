-- ===== src/Usb/Ports.antt =====
-- The states of the port: which are valid, and a test of all of them by evaluation.
use nileswan.Base.{&&-split, ◌≡◌, Bool, true, false, not, ◌&&◌, ◌||◌}
use nileswan.Usb.{Status, off, request_on, on, request_off, Usb, wanted}

-- The stack runs exactly in these states.
abbrev pub running : Status → Bool
running off = false
running request_on = false
running on = true
running request_off = true

-- The states that lead to `on` while the port is wanted.
abbrev pub coming_up : Status → Bool
coming_up off = false
coming_up request_on = true
coming_up on = true
coming_up request_off = false

abbrev pub is_on : Status → Bool
is_on on = true
is_on _ = false

abbrev pub same : Bool → Bool → Bool
same true b = b
same false b = not b

-- Power and stack follow the status, the pull-up is only asked for while the stack runs, and a
-- port that is not wanted is not left on.
abbrev pub is_valid : Usb → Bool
is_valid u =
    same u.powered (running u.status)
    && same u.stack (running u.status)
    && (not u.pull_up || running u.status)
    && (wanted u || not (is_on u.status))

-- A test of every state of the port, run by evaluation.
abbrev pub every_bool : (Bool → Bool) → Bool
every_bool t = t true && t false

abbrev pub every_status : (Status → Bool) → Bool
every_status t = (t off && t request_on) && (t on && t request_off)

every_bool_sound : (t : Bool → Bool) (b : Bool) → every_bool t ≡ true → t b ≡ true
every_bool_sound t true h = (&&-split _ _ h).0
every_bool_sound t false h = (&&-split _ _ h).1

every_status_sound : (t : Status → Bool) (s : Status) → every_status t ≡ true → t s ≡ true
every_status_sound t off h = (&&-split _ _ (&&-split _ (t on && t request_off) h).0).0
every_status_sound t request_on h = (&&-split _ _ (&&-split _ (t on && t request_off) h).0).1
every_status_sound t on h = (&&-split _ _ (&&-split (t off && t request_on) _ h).1).0
every_status_sound t request_off h = (&&-split _ _ (&&-split (t off && t request_on) _ h).1).1

module _ (t : Usb → Bool) where
  abbrev pub at_pull : Bool → Bool → Status → Bool → Bool → Bool → Bool
  at_pull c e s p k d =
      t (record { connected = c; enabled = e; status = s; powered = p; stack = k; pull_up = d })

  abbrev pub at_stack : Bool → Bool → Status → Bool → Bool → Bool
  at_stack c e s p k = every_bool (at_pull c e s p k)

  abbrev pub at_power : Bool → Bool → Status → Bool → Bool
  at_power c e s p = every_bool (at_stack c e s p)

  abbrev pub at_status : Bool → Bool → Status → Bool
  at_status c e s = every_bool (at_power c e s)

  abbrev pub at_enabled : Bool → Bool → Bool
  at_enabled c e = every_status (at_status c e)

  abbrev pub at_connected : Bool → Bool
  at_connected c = every_bool (at_enabled c)

  abbrev pub every_port : Bool
  every_port = every_bool at_connected

  pub every_port_sound : (u : Usb) → every_port ≡ true → t u ≡ true
  every_port_sound u h =
      let h1 = every_bool_sound at_connected u.connected h in
      let h2 = every_bool_sound (at_enabled u.connected) u.enabled h1 in
      let h3 = every_status_sound (at_status u.connected u.enabled) u.status h2 in
      let h4 = every_bool_sound (at_power u.connected u.enabled u.status) u.powered h3 in
      let h5 = every_bool_sound (at_stack u.connected u.enabled u.status u.powered) u.stack h4 in
      every_bool_sound (at_pull u.connected u.enabled u.status u.powered u.stack) u.pull_up h5
