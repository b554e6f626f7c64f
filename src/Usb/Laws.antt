-- ===== src/Usb/Laws.antt =====
-- The USB state machine of mcu.c over sequences of events and rounds, and its shutdown.
use nileswan.Base.{
  &&-split, ℕ, zero, suc, ◌≡◌, ◌⊎◌, refl, ◌∙◌, ap, Bool, true, false, not, ◌&&◌, ◌||◌, List, [],
  ◌∷◌, arith, if◌then◌else◌, inl, inr,
}
use nileswan.Nvram.{Nvram, nvram_retention_required}
use nileswan.Usb.{
  Status, off, request_on, on, request_off, Usb, wanted, power_task, power_tasks, Event, plug,
  unplug, enable, round, handle, handle_all, standby, power_down, shutdown, shutdown_usb, task_of,
}
use nileswan.Usb.Ports.{coming_up, is_on, same, is_valid, every_port, every_port_sound}

abbrev keeps_valid : Event → Usb → Bool
keeps_valid v u = not (is_valid u) || is_valid (handle v u)

handle_table : (v : Event) → every_port (keeps_valid v) ≡ true
unfolding handle
handle_table plug = refl
handle_table unplug = refl
handle_table (enable true) = refl
handle_table (enable false) = refl
handle_table round = refl

-- From a valid state, cable edges, calls of `mcu_usb_set_enabled` and rounds of the main loop,
-- in any order, lead to a valid one: power and stack follow the status, the pull-up is there
-- only while the stack runs, and the port is not on unwanted.
pub handle_all-is_valid :
    (vs : List Event) (u : Usb) → is_valid u ≡ true → is_valid (handle_all vs u) ≡ true
unfolding handle_all
handle_all-is_valid [] u h = h
handle_all-is_valid (v ∷ vs) u h =
    handle_all-is_valid vs (handle v u)
      (ground (arith, h, every_port_sound (keeps_valid v) u (handle_table v)))

power_task-on : (u : Usb) → u.status ≡ on → power_task u ≡ u
unfolding power_task
power_task-on u e = ap (λ s. task_of s u) e

power_task-off : (u : Usb) → u.status ≡ off → power_task u ≡ u
unfolding power_task
power_task-off u e = ap (λ s. task_of s u) e

power_tasks-on : (n : ℕ) (u : Usb) → u.status ≡ on → power_tasks n u ≡ u
unfolding power_tasks
power_tasks-on zero u e = refl
power_tasks-on (suc n) u e = ap (power_tasks n) (power_task-on u e) ∙ power_tasks-on n u e

power_tasks-off : (n : ℕ) (u : Usb) → u.status ≡ off → power_tasks n u ≡ u
unfolding power_tasks
power_tasks-off zero u e = refl
power_tasks-off (suc n) u e = ap (power_tasks n) (power_task-off u e) ∙ power_tasks-off n u e

abbrev is_off : Status → Bool
is_off off = true
is_off _ = false

on_or_off : (s : Status) → (is_on s || is_off s) ≡ true → (s ≡ on) ⊎ (s ≡ off)
on_or_off on h = inl refl
on_or_off off h = inr refl
on_or_off request_on h = cc
on_or_off request_off h = cc

abbrev two_rounds : Usb → Usb
two_rounds u = power_tasks 2 u

abbrev settles_as : Usb → Usb → Bool
settles_as u v =
    let up = wanted u && coming_up u.status in
    (same (is_on v.status) up && same v.stack up)
    && (same v.powered up && (is_on v.status || is_off v.status))

settle_table : every_port (λ u. not (is_valid u) || settles_as u (two_rounds u)) ≡ true
unfolding power_tasks
settle_table = refl

still_settled : (n : ℕ) (v : Usb) → (is_on v.status || is_off v.status) ≡ true → power_tasks n v ≡ v
still_settled n v h = elim (on_or_off v.status h) [
  | inl e ↦ power_tasks-on n v e
  | inr e ↦ power_tasks-off n v e
]

same-eq : (a b : Bool) → same a b ≡ true → a ≡ b
same-eq true true h = refl
same-eq true false h = cc
same-eq false true h = cc
same-eq false false h = refl

status-is :
    (s : Status) (up : Bool)
    → same (is_on s) up ≡ true
    → (is_on s || is_off s) ≡ true
    → s ≡ (if up then on else off)
status-is on true h f = refl
status-is on false h f = cc
status-is off true h f = cc
status-is off false h f = refl
status-is request_on up h f = cc
status-is request_off up h f = cc

rounds_more : (n : ℕ) (u : Usb) → power_tasks (suc (suc n)) u ≡ power_tasks n (two_rounds u)
unfolding power_tasks
rounds_more n u = refl

-- From a valid state, two rounds of the main loop settle the port, and more change nothing: it
-- ends on, with power and stack, exactly if it is wanted and was on or asked to come on;
-- otherwise it ends off, without them.
pub power_tasks_settle :
    (n : ℕ) (u : Usb)
    → is_valid u ≡ true
    → let v = power_tasks (suc (suc n)) u in
      let up = wanted u && coming_up u.status in
      (v.status ≡ (if up then on else off)) × (v.stack ≡ up) × (v.powered ≡ up)
power_tasks_settle n u h =
    let v = two_rounds u in
    let up = wanted u && coming_up u.status in
    let t =
      every_port_sound (λ u. not (is_valid u) || settles_as u (two_rounds u)) u settle_table in
    let parts : settles_as u v ≡ true = ground (arith, h, t) in
    let (a, b) = &&-split _ _ parts in
    let (s, k) = &&-split _ _ a in
    let (p, f) = &&-split _ _ b in
    rw (rounds_more n u, still_settled n v f)
      (status-is v.status up s f, same-eq _ _ k, same-eq _ _ p)

abbrev after_reconnection : Usb → Usb
after_reconnection u = power_task (handle plug (handle unplug u))

abbrev stays_off : Usb → Usb → Bool
stays_off u v = (is_off v.status && wanted v) && (not v.stack && same v.connected true)

reconnection_table :
    every_port
      (λ u. not (is_valid u && (is_on u.status && wanted u)) || stays_off u (after_reconnection u))
    ≡ true
unfolding power_task handle
reconnection_table = refl

is_off-eq : (s : Status) → is_off s ≡ true → s ≡ off
is_off-eq off h = refl
is_off-eq on h = cc
is_off-eq request_on h = cc
is_off-eq request_off h = cc

rounds_after : (n : ℕ) (u : Usb) → power_tasks (suc n) u ≡ power_tasks n (power_task u)
unfolding power_tasks
rounds_after n u = refl

-- On a valid port that is on and wanted, a cable that is pulled and put back before the main
-- loop comes round leaves the port off: after any number of rounds, from one on, it is still
-- wanted, its status is off and the stack does not run.
pub reconnection_lost :
    (n : ℕ) (u : Usb)
    → is_valid u ≡ true
    → u.status ≡ on
    → wanted u ≡ true
    → let v = power_tasks (suc n) (handle plug (handle unplug u)) in
      (wanted v ≡ true) × (v.status ≡ off) × (v.stack ≡ false)
reconnection_lost n u h e w =
    let v = after_reconnection u in
    let t =
      every_port_sound
        (λ u.
          not (is_valid u && (is_on u.status && wanted u)) || stays_off u (after_reconnection u))
        u reconnection_table in
    let up : is_on u.status ≡ true = ap is_on e in
    let parts : stays_off u v ≡ true = ground (arith, h, up, w, t) in
    let (a, b) = &&-split _ _ parts in
    let (f, still) = &&-split _ _ a in
    let (k, c) = &&-split (not v.stack) (same v.connected true) b in
    let s = is_off-eq v.status f in
    rw (rounds_after n (handle plug (handle unplug u)), power_tasks-off n v s)
      (still, s, ground (arith, k))

abbrev came_up : Usb → Bool
came_up v = (is_on v.status && v.stack) && (v.powered && v.pull_up)

abbrev after_connection : Usb → Usb
after_connection u = power_task (handle plug u)

connection_table :
    every_port (λ u. not (is_off u.status && u.enabled) || came_up (after_connection u)) ≡ true
unfolding power_task handle
connection_table = refl

is_on-eq : (s : Status) → is_on s ≡ true → s ≡ on
is_on-eq on h = refl
is_on-eq off h = cc
is_on-eq request_on h = cc
is_on-eq request_off h = cc

-- A cable that is put into an enabled port whose status is off brings it up: after any number
-- of rounds of the main loop, from one on, it is on, with power, stack and pull-up.
pub connection_comes_up :
    (n : ℕ) (u : Usb)
    → u.status ≡ off
    → u.enabled ≡ true
    → let v = power_tasks (suc n) (handle plug u) in
      (v.status ≡ on) × (v.powered ≡ true) × (v.stack ≡ true) × (v.pull_up ≡ true)
connection_comes_up n u e w =
    let v = after_connection u in
    let t =
      every_port_sound (λ u. not (is_off u.status && u.enabled) || came_up (after_connection u)) u
        connection_table in
    let down : is_off u.status ≡ true = ap is_off e in
    let parts : came_up v ≡ true = ground (arith, down, w, t) in
    let (a, b) = &&-split _ _ parts in
    let (s, k) = &&-split _ _ a in
    let (p, d) = &&-split _ _ b in
    let up = is_on-eq v.status s in
    rw (rounds_after n (handle plug u), power_tasks-on n v up) (up, p, k, d)

abbrev shut_down : Usb → Bool
shut_down v = (is_off v.status && not v.stack) && (not v.powered && not v.pull_up)

shutdown_table : every_port (λ u. not (is_valid u) || shut_down (shutdown_usb u.status u)) ≡ true
unfolding shutdown_usb
shutdown_table = refl

-- A shutdown from a valid state leaves the port off, without power, stack or pull-up, and keeps
-- the memory exactly in standby: if a save depends on it or the clock has no oscillator of its own.
pub shutdown_lem :
    (n : Nvram) (lsi : Bool) (u : Usb)
    → is_valid u ≡ true
    → let s = shutdown n lsi u in
      (s.usb.status ≡ off)
      × (s.usb.stack ≡ false)
      × (s.usb.powered ≡ false)
      × (s.usb.pull_up ≡ false)
      × (s.sram_retained ≡ (nvram_retention_required n || lsi))
      × (s.mode ≡ (if s.sram_retained then standby else power_down))
unfolding shutdown
shutdown_lem n lsi u h =
    let v = shutdown_usb u.status u in
    let t =
      every_port_sound (λ u. not (is_valid u) || shut_down (shutdown_usb u.status u)) u
        shutdown_table in
    let parts : shut_down v ≡ true = ground (arith, h, t) in
    let (a, b) = &&-split _ (not v.powered && not v.pull_up) parts in
    let (s, k) = &&-split _ (not v.stack) a in
    let (p, d) = &&-split _ (not v.pull_up) b in
    (is_off-eq v.status s, ground (arith, k), ground (arith, p), ground (arith, d), refl, refl)
