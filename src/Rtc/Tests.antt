-- ===== src/Rtc/Tests.antt =====
-- The clock on concrete registers and bytes.
use nileswan.Base.{
  ℕ, ◌/◌, ◌%◌, ◌^◌, ◌≡◌, ◌↔◌, inl, inr, refl, true, false, List, [], ◌∷◌, some, arith,
}
use nileswan.Rtc.State.{no_clock, lse, Registers, Rtc, Board, is_configured}
use nileswan.Rtc.Hour.{hour_mcu_to_rtc}
use nileswan.Rtc.Alarm.{alarm_matches}
use nileswan.Rtc.Alarm.Laws.{alarm_matches_iff}
use nileswan.Rtc.Calendar.{Date, Time}
use nileswan.Rtc.Calendar.Correct.{hour_24, hour_12}
use nileswan.Rtc.Calendar.RoundTrip.{IsDate, IsTime}
use nileswan.Rtc.Command.{command, tx_datetime, finish_command_rx}
use nileswan.Rtc.Command.Laws.{
  IsAnswer, run_command, finish_command_rx_answers, get_datetime-put_datetime,
}

abbrev pub powered : Registers
powered = record {
  clock_source = lse;
  fmt = true;
  alarm_enable = false;
  bypshad = true;
  lpcal = true;
  tr = 0x120000;
  dr = 0x00e101;
  ssr = 0;
  prer = 0x7f00ff;
  alarm_msk1 = false;
  alrmassr = 0;
  bkp0 = 0;
  bkp1 = 0;
  bkp8 = 7;
}

abbrev pub clock : Rtc
clock = record {
  regs = powered;
  curr_cmd = 0;
  write_protected = true;
  init_mode = false;
  irq = record { status = 0; enable = 4; line = false };
}

abbrev clock_24 : Rtc
clock_24 = record clock { regs = record powered { fmt = false } }

abbrev unset : Rtc
unset = record clock { regs = record powered { clock_source = no_clock } }

abbrev pub board : Board
board = record {
  lse_ready = true;
  after_reset = record powered { clock_source = no_clock; fmt = false; tr = 0; dr = 0; bkp8 = 0 };
}

-- Sunday, 31 December 1999
abbrev eve : Date
eve = record { year = 0x99; month = 0x12; day = 0x31; weekday = 0 }

-- 11:59:58 in the afternoon, and 23:59:58
abbrev late_12 : Time
late_12 = record { hour = 0x91; minute = 0x59; second = 0x58 }

abbrev late_24 : Time
late_24 = record { hour = 0x23; minute = 0x59; second = 0x58 }

eve-IsDate : IsDate eve
eve-IsDate = record {
  year_small = omega arith;
  year_ok = refl;
  month_small = omega arith;
  month_ok = refl;
  day_small = omega arith;
  day_ok = refl;
  weekday_small = omega arith;
}

late_12-IsTime : IsTime hour_12 late_12
late_12-IsTime = record {
  hour_small = omega arith;
  hour_byte = omega arith;
  hour_ok = refl;
  minute_small = omega arith;
  minute_ok = refl;
  second_small = omega arith;
  second_ok = refl;
}

late_24-IsTime : IsTime hour_24 late_24
late_24-IsTime = record {
  hour_small = omega arith;
  hour_byte = omega arith;
  hour_ok = refl;
  minute_small = omega arith;
  minute_ok = refl;
  second_small = omega arith;
  second_ok = refl;
}

clock_configured : is_configured clock ≡ true
unfolding is_configured
clock_configured = refl

unset_unconfigured : is_configured unset ≡ false
unfolding is_configured
unset_unconfigured = refl

get_datetime-put_datetime_example :
    (s : Rtc) × (run_command board [] 4 (tx_datetime eve late_12) clock ≡ some ([], s))
    × (run_command board ((s.regs.tr, s.regs.dr) ∷ []) 5 [] s ≡ some (tx_datetime eve late_12, s))
get_datetime-put_datetime_example =
    get_datetime-put_datetime board [] eve late_12 clock refl eve-IsDate late_12-IsTime

abbrev asked : Rtc
asked = record clock { curr_cmd = 7 }

-- the seconds tick between the first two reads
finish_command_rx_answers_example :
    (result : List ℕ × Rtc) × (finish_command_rx board
        ((0x120001, 0x00e101) ∷ (0x120001, 0x00e101) ∷ [])
        []
        asked
      ≡ some result)
    × IsAnswer (command 7) result
finish_command_rx_answers_example =
    finish_command_rx_answers board ((0x120001, 0x00e101) ∷ (0x120001, 0x00e101) ∷ []) [] asked
      (inr (inl refl)) refl refl

-- an alarm for 03:50 PM also rings at 03:10 AM
abbrev ringing : Registers
ringing = record powered { tr = 0x031000; bkp1 = 0x5083 }

ringing_level : alarm_matches ringing ≡ true
unfolding alarm_matches hour_mcu_to_rtc
ringing_level = refl

alarm_matches_iff_example : (alarm_matches ringing ≡ true) ↔ (
    (ringing.bkp1 % 2 ^ 7 ≡ hour_mcu_to_rtc true ringing.tr % 2 ^ 7)
    × (ringing.bkp1 / 2 ^ 8 % 2 ^ 6 ≡ ringing.tr / 2 ^ 8 % 2 ^ 6)
    × (ringing.bkp1 / 2 ^ 15 % 2 ≡ 0))
alarm_matches_iff_example = alarm_matches_iff ringing

abbrev garbage : Date
garbage = record { year = 0xfa; month = 0x13; day = 0x00; weekday = 0xff }
