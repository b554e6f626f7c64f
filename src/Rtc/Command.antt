-- ===== src/Rtc/Command.antt =====
-- The commands of the S-3511A: how many bytes follow a command, and what it does and answers.
pub mod Laws
use nileswan.Base.{
  ℕ, zero, suc, Bool, true, false, not, List, [], ◌∷◌, Option, none, some, low_bits, ◌<<<◌, ◌>>>◌,
  join, ◌==◌, ◌!=◌, get_or, if◌then◌else◌,
}
use nileswan.Rtc.State.{Rtc, Board}
use nileswan.Rtc.Alarm.{write_alarm}
use nileswan.Rtc.Status.{reset, write_status, read_status}
use nileswan.Rtc.Calendar.{Date, Time, write_datetime, read_stable, unpack_date, unpack_time}

-- The cases of the two `switch`es, by the low four bits of the command; `ignored` is `default`.
pub data Command : Type 0 where
  reset_clock put_status get_status put_datetime get_datetime put_time get_time put_alarm : Command
  get_alarm put_test get_test ignored : Command

unfoldable pub command : ℕ → Command
command cmd =
    let c = low_bits cmd 4 in
    if c == 0
    then reset_clock
    else if c == 1
    then reset_clock
    else if c == 2
    then put_status
    else if c == 3
    then get_status
    else if c == 4
    then put_datetime
    else if c == 5
    then get_datetime
    else if c == 6
    then put_time
    else if c == 7
    then get_time
    else if c == 8
    then put_alarm
    else if c == 9
    then get_alarm
    else if c == 10
    then put_test
    else if c == 11
    then get_test
    else ignored

-- `rtc_is_processing_command`
unfoldable pub is_processing_command : Rtc → Bool
is_processing_command r = r.curr_cmd != 0

unfoldable pub argument_length : Command → ℕ
argument_length put_status = 1
argument_length put_datetime = 7
argument_length put_time = 3
argument_length put_alarm = 2
argument_length put_test = 2
argument_length _ = 0

-- `rtc_start_command_rx`: the number of bytes to receive, and the state.
unfoldable pub start_command_rx : ℕ → Rtc → ℕ × Rtc
unfolding argument_length command
start_command_rx cmd r = (argument_length (command cmd), record r { curr_cmd = cmd })

-- The byte `i` of the receive buffer; the bytes that were not sent are left over, and no command
-- reads them.
rx_byte : List ℕ → ℕ → ℕ
rx_byte rx i = get_or rx i 0

rx_time : List ℕ → ℕ → Time
unfolding rx_byte
rx_time rx i = record {
  hour = rx_byte rx i;
  minute = rx_byte rx (suc i);
  second = rx_byte rx (suc (suc i));
}

rx_date : List ℕ → Date
unfolding rx_byte
rx_date rx = record {
  year = rx_byte rx 0;
  month = rx_byte rx 1;
  day = rx_byte rx 2;
  weekday = rx_byte rx 3;
}

abbrev pub tx_time : Time → List ℕ
tx_time t = t.hour ∷ t.minute ∷ t.second ∷ []

abbrev pub tx_datetime : Date → Time → List ℕ
tx_datetime d t = d.year ∷ d.month ∷ d.day ∷ d.weekday ∷ tx_time t

-- `rtc_read_datetime`: `later` is what the reads of the registers see after the first.
unfoldable pub read_datetime : Bool → List (ℕ × ℕ) → Rtc → Option (List ℕ)
read_datetime date later r = elim (read_stable (r.regs.tr, r.regs.dr) later) [
  | none ↦ none
  | some seen ↦ some (
      if date
      then tx_datetime (unpack_date seen.1) (unpack_time r.regs.fmt seen.0)
      else tx_time (unpack_time r.regs.fmt seen.0))
]

answer : Rtc → Option (List ℕ) → Option (List ℕ × Rtc)
answer r none = none
answer r (some tx) = some (tx, r)

-- The `switch` of `rtc_finish_command_rx`; the answer is the bytes that the returned count
-- covers.
perform : Board → List (ℕ × ℕ) → Command → List ℕ → Rtc → Option (List ℕ × Rtc)
unfolding read_datetime rx_date rx_time answer
perform b later reset_clock rx r = some ([], reset b r)
perform b later put_status rx r = some ([], write_status (rx_byte rx 0) r)
perform b later get_status rx r = let (status, s) = read_status b r in some (status ∷ [], s)
perform b later put_datetime rx r = some ([], write_datetime (some (rx_date rx)) (rx_time rx 4) r)
perform b later get_datetime rx r = answer r (read_datetime true later r)
perform b later put_time rx r = some ([], write_datetime none (rx_time rx 0) r)
perform b later get_time rx r = answer r (read_datetime false later r)
perform b later put_alarm rx r = some ([], write_alarm (join (rx_byte rx 0) (rx_byte rx 1 <<< 8)) r)
perform b later get_alarm rx r = some (0xff ∷ 0xff ∷ [], write_alarm 0xffff r)
perform b later put_test rx r = some ([], r)
perform b later get_test rx r = some (0xff ∷ 0xff ∷ [], r)
perform b later ignored rx r = some ([], r)

-- `rtc_finish_command_rx`
unfoldable pub finish_command_rx : Board → List (ℕ × ℕ) → List ℕ → Rtc → Option (List ℕ × Rtc)
unfolding perform
finish_command_rx b later rx r = perform b later (command r.curr_cmd) rx (record r { curr_cmd = 0 })
