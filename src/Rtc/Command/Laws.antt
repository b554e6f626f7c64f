-- ===== src/Rtc/Command/Laws.antt =====
-- The commands of the clock: the lengths, the state they leave, and a date and time sent and
-- fetched again.
use nileswan.Base.{
  ℕ, ◌≤◌, ◌≡◌, ◌⊎◌, refl, sym, ◌∙◌, ap, ap₂, Bool, true, false, ◌&&◌, List, [], ◌∷◌, Option, none,
  some, length, arith, join, ◌<<<◌, ◌==◌, if◌then◌else◌, Bool-cases, inl, inr,
}
use nileswan.Rtc.State.{Rtc, Board, is_configured}
use nileswan.Rtc.Alarm.{write_alarm}
use nileswan.Rtc.Status.{reset, read_status}
use nileswan.Rtc.Status.Laws.{
  reset_lem, write_status-curr_cmd, write_status_lem, read_status_configured, read_status_unset,
}
use nileswan.Rtc.Calendar.{Date, Time, write_datetime, read_stable, unpack_date, unpack_time}
use nileswan.Rtc.Calendar.Correct.{hour_12}
use nileswan.Rtc.Calendar.RoundTrip.{
  IsDate, IsTime, read_date-write_datetime, read_time-write_datetime_12,
}
use nileswan.Rtc.Command.{
  Command, reset_clock, put_status, get_status, put_datetime, get_datetime, put_time, get_time,
  put_alarm, get_alarm, put_test, get_test, ignored, command, is_processing_command,
  start_command_rx, read_datetime, argument_length, perform, finish_command_rx, answer, rx_byte,
  rx_date, rx_time, tx_time, tx_datetime,
}

read_stable-again : (now : ℕ × ℕ) (later : List (ℕ × ℕ)) → read_stable now (now ∷ later) ≡ some now
unfolding read_stable
read_stable-again (tr, dr) later = ground arith

-- Some read sees what the read before it saw.
abbrev pub Repeats : ℕ × ℕ → List (ℕ × ℕ) → Type 0
Repeats now [] = ⊥
Repeats now (next ∷ later) = (next ≡ now) ⊎ Repeats next later

-- The number of bytes that a command answers with.
abbrev pub answer_length : Command → ℕ
answer_length get_status = 1
answer_length get_datetime = 7
answer_length get_time = 3
answer_length get_alarm = 2
answer_length get_test = 2
answer_length _ = 0

-- The state between commands: nothing in progress, the registers protected.
pub record IsIdle (r : Rtc) : Type 0 where
  pub no_command : is_processing_command r ≡ false
  pub is_protected : r.write_protected ≡ true
  pub no_init : r.init_mode ≡ false

-- A result that has the length of the command's answer and leaves the clock idle.
abbrev pub IsAnswer : Command → List ℕ × Rtc → Type 0
IsAnswer c (tx, s) = (length tx ≡ answer_length c) × IsIdle s

-- The loop of a read ends as soon as the registers are read twice with the same values.
read_stable-Repeats :
    (now : ℕ × ℕ) (later : List (ℕ × ℕ))
    → Repeats now later
    → (seen : ℕ × ℕ) × (read_stable now later ≡ some seen)
unfolding read_stable
read_stable-Repeats now [] h = elim h [ ]
read_stable-Repeats (tr2, dr2) ((tr, dr) ∷ later) h = elim (Bool-cases (tr == tr2 && dr == dr2)) [
  | inl same ↦ ((tr, dr), ground (arith, same))
  | inr moved ↦ elim h [
    | inl e ↦ ((tr, dr), ground (arith, ap (λ p. p.0) e, ap (λ p. p.1) e))
    | inr h ↦
        let (seen, e) = read_stable-Repeats (tr, dr) later h in (seen, ground (arith, moved, e))
  ]
]

write_datetime-idle :
    (o : Option Date) (t : Time) (r : Rtc)
    → let s = write_datetime o t r in
      (s.curr_cmd ≡ r.curr_cmd) × (s.write_protected ≡ true) × (s.init_mode ≡ false)
unfolding write_datetime
write_datetime-idle none t r = (refl, refl, refl)
write_datetime-idle (some d) t r = (refl, refl, refl)

write_alarm-idle :
    (value : ℕ) (r : Rtc)
    → let s = write_alarm value r in
      (s.curr_cmd ≡ r.curr_cmd) × (s.write_protected ≡ true) × (s.init_mode ≡ r.init_mode)
unfolding write_alarm
write_alarm-idle value r = (refl, refl, refl)

reset-curr_cmd : (b : Board) (r : Rtc) → (reset b r).curr_cmd ≡ r.curr_cmd
unfolding reset
reset-curr_cmd b r = elim (Bool-cases b.lse_ready) [
  | inl on ↦ rw on (ground arith)
  | inr off ↦ rw off (ground arith)
]

read_status-idle :
    (b : Board) (r : Rtc)
    → r.write_protected ≡ true
    → r.init_mode ≡ false
    → let s = (read_status b r).1 in
      (s.curr_cmd ≡ r.curr_cmd) × (s.write_protected ≡ true) × (s.init_mode ≡ false)
read_status-idle b r p i = elim (Bool-cases (is_configured r)) [
  | inl on ↦ rw (read_status_configured b r on) (refl, p, i)
  | inr off ↦ let z = reset_lem b r in rw (read_status_unset b r off) (reset-curr_cmd b r, z.8, z.9)
]

idle : (r : Rtc) → (r.curr_cmd ≡ 0) × (r.write_protected ≡ true) × (r.init_mode ≡ false) → IsIdle r
unfolding is_processing_command
idle r h = record { no_command = ground (arith, h.0); is_protected = h.1; no_init = h.2 }

abbrev read_time_of : Bool → Rtc → Option (ℕ × ℕ) → Option (List ℕ)
read_time_of date r o = elim o [
  | none ↦ none
  | some seen ↦ some (
      if date
      then tx_datetime (unpack_date seen.1) (unpack_time r.regs.fmt seen.0)
      else tx_time (unpack_time r.regs.fmt seen.0))
]

read_datetime-length :
    (date : Bool) (later : List (ℕ × ℕ)) (r : Rtc)
    → Repeats (r.regs.tr, r.regs.dr) later
    → (tx : List ℕ) × (read_datetime date later r ≡ some tx) × (length tx ≡ (if date then 7 else 3))
unfolding read_datetime
read_datetime-length true later r h =
    let (seen, e) = read_stable-Repeats (r.regs.tr, r.regs.dr) later h in
    (
      tx_datetime (unpack_date seen.1) (unpack_time r.regs.fmt seen.0),
      ap (read_time_of true r) e,
      refl,
    )
read_datetime-length false later r h =
    let (seen, e) = read_stable-Repeats (r.regs.tr, r.regs.dr) later h in
    (tx_time (unpack_time r.regs.fmt seen.0), ap (read_time_of false r) e, refl)

perform_answers :
    (b : Board) (later : List (ℕ × ℕ)) (c : Command) (rx : List ℕ) (r : Rtc)
    → Repeats (r.regs.tr, r.regs.dr) later
    → r.curr_cmd ≡ 0
    → r.write_protected ≡ true
    → r.init_mode ≡ false
    → (result : List ℕ × Rtc) × (perform b later c rx r ≡ some result) × IsAnswer c result
unfolding perform
perform_answers b later reset_clock rx r h n p i =
    let z = reset_lem b r in (_, refl, (refl, idle _ (reset-curr_cmd b r ∙ n, z.8, z.9)))
perform_answers b later put_status rx r h n p i =
    let w = write_status_lem (rx_byte rx 0) r i in
    (_, refl, (refl, idle _ (write_status-curr_cmd (rx_byte rx 0) r ∙ n, w.7, w.8)))
perform_answers b later get_status rx r h n p i =
    let s = read_status-idle b r p i in (_, refl, (refl, idle _ (s.0 ∙ n, s.1, s.2)))
perform_answers b later put_datetime rx r h n p i =
    let w = write_datetime-idle (some (rx_date rx)) (rx_time rx 4) r in
    (_, refl, (refl, idle _ (w.0 ∙ n, w.1, w.2)))
perform_answers b later get_datetime rx r h n p i =
    let (tx, e, l) = read_datetime-length true later r h in
    ((tx, r), ap (answer r) e, (l, idle r (n, p, i)))
perform_answers b later put_time rx r h n p i =
    let w = write_datetime-idle none (rx_time rx 0) r in
    (_, refl, (refl, idle _ (w.0 ∙ n, w.1, w.2)))
perform_answers b later get_time rx r h n p i =
    let (tx, e, l) = read_datetime-length false later r h in
    ((tx, r), ap (answer r) e, (l, idle r (n, p, i)))
perform_answers b later put_alarm rx r h n p i =
    let w = write_alarm-idle (join (rx_byte rx 0) (rx_byte rx 1 <<< 8)) r in
    (_, refl, (refl, idle _ (w.0 ∙ n, w.1, w.2 ∙ i)))
perform_answers b later get_alarm rx r h n p i =
    let w = write_alarm-idle 0xffff r in (_, refl, (refl, idle _ (w.0 ∙ n, w.1, w.2 ∙ i)))
perform_answers b later put_test rx r h n p i = (_, refl, (refl, idle r (n, p, i)))
perform_answers b later get_test rx r h n p i = (_, refl, (refl, idle r (n, p, i)))
perform_answers b later ignored rx r h n p i = (_, refl, (refl, idle r (n, p, i)))

-- Given that the registers come out the same twice in a row while they are reread, and that
-- they are protected and out of the initialisation mode, whatever command was started is
-- carried out: its answer has the length of that command's answers, and the clock ends with no
-- command in progress, its registers protected and out of the initialisation mode.
pub finish_command_rx_answers :
    (b : Board) (later : List (ℕ × ℕ)) (rx : List ℕ) (r : Rtc)
    → Repeats (r.regs.tr, r.regs.dr) later
    → r.write_protected ≡ true
    → r.init_mode ≡ false
    → (result : List ℕ × Rtc) × (finish_command_rx b later rx r ≡ some result)
      × IsAnswer (command r.curr_cmd) result
unfolding finish_command_rx
finish_command_rx_answers b later rx r h p i =
    perform_answers b later (command r.curr_cmd) rx (record r { curr_cmd = 0 }) h refl p i

-- A whole command: it is started, and finished once its bytes are there.
abbrev pub run_command : Board → List (ℕ × ℕ) → ℕ → List ℕ → Rtc → Option (List ℕ × Rtc)
run_command b later cmd rx r = finish_command_rx b later rx (start_command_rx cmd r).1

run-put_datetime :
    (b : Board) (later : List (ℕ × ℕ)) (d : Date) (t : Time) (r : Rtc)
    → run_command b later 4 (tx_datetime d t) r
      ≡ some ([], write_datetime (some d) t (record r { curr_cmd = 0 }))
unfolding finish_command_rx perform start_command_rx command rx_date rx_time rx_byte
run-put_datetime b later d t r = refl

run-get_datetime :
    (b : Board) (later : List (ℕ × ℕ)) (r : Rtc)
    → run_command b ((r.regs.tr, r.regs.dr) ∷ later) 5 [] r
      ≡ some (
        tx_datetime (unpack_date r.regs.dr) (unpack_time r.regs.fmt r.regs.tr),
        record r { curr_cmd = 0 },
      )
unfolding finish_command_rx perform start_command_rx command read_datetime answer
run-get_datetime b later r =
    let r0 : Rtc = record r { curr_cmd = 0 } in
    ap (λ o. answer r0 (read_time_of true r0 o)) (read_stable-again (r.regs.tr, r.regs.dr) later)

fmt-write_datetime :
    (o : Option Date) (t : Time) (r : Rtc) → (write_datetime o t r).regs.fmt ≡ r.regs.fmt
unfolding write_datetime
fmt-write_datetime none t r = refl
fmt-write_datetime (some d) t r = refl

-- In 12-hour format, a command that sets a valid date and time, and then one that fetches them
-- while the clock does not tick, give back the seven bytes that were sent.
pub get_datetime-put_datetime :
    (b : Board) (later : List (ℕ × ℕ)) (d : Date) (t : Time) (r : Rtc)
    → r.regs.fmt ≡ true
    → IsDate d
    → IsTime hour_12 t
    → (s : Rtc) × (run_command b later 4 (tx_datetime d t) r ≡ some ([], s))
      × (run_command b ((s.regs.tr, s.regs.dr) ∷ later) 5 [] s ≡ some (tx_datetime d t, s))
get_datetime-put_datetime b later d t r fmt vd vt =
    let r0 : Rtc = record r { curr_cmd = 0 } in
    let s = write_datetime (some d) t r0 in
    let idle = write_datetime-idle (some d) t r0 in
    (
      s,
      run-put_datetime b later d t r,
      run-get_datetime b later s
          ∙ ap
              (λ f. some (
                tx_datetime (unpack_date s.regs.dr) (unpack_time f s.regs.tr),
                record s { curr_cmd = 0 },
              ))
              (fmt-write_datetime (some d) t r0 ∙ fmt)
          ∙ ap₂ (λ x y. some (tx_datetime x y, record s { curr_cmd = 0 }))
              (read_date-write_datetime d t r0 vd)
              (read_time-write_datetime_12 (some d) t r0 fmt vt)
          ∙ ap (λ n. some (tx_datetime d t, record s { curr_cmd = n })) (sym idle.0),
    )

-- No command of the clock is followed by more than seven bytes.
pub argument_length_bound : (c : Command) → argument_length c ≤ 7
unfolding argument_length
argument_length_bound put_datetime = omega arith
argument_length_bound _ = omega arith
