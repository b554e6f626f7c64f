-- ===== src/Spi/Tests.antt =====
-- The bus on concrete bytes: a handler that answers a command with its bytes, and an echo.
use nileswan.Base.{
  ℕ, ◌+◌, ◌*◌, ◌^◌, ◌≡◌, refl, true, false, [], ◌∷◌, ◌++◌, none, some, arith, replicate,
}
use nileswan.Spi.{Handler, Spi, receive_all, task, tx_complete}
use nileswan.Rtc.Command.{command, argument_length, start_command_rx, finish_command_rx}
use nileswan.Rtc.Tests.{clock, board}
use nileswan.Rtc.State.{Rtc}
use nileswan.Rtc.Alarm.{write_alarm}
use nileswan.Spi.Clock.{Bus, IsIdle, clock_sent, clock_receive_all, clock_transact}
use nileswan.Spi.Laws.{IsReady, transact}

-- two bytes follow every command, and come back
abbrev mirror : Handler ℕ
mirror = record { start = λ cmd m. (2, cmd); finish = λ rx m. some (some rx, m) }

abbrev ready : {M : Type 0} → M → Spi M
ready m = record {
  queue = 0xff;
  listening = true;
  rx = [];
  left = 0;
  pending = false;
  sending = none;
  machine = m;
}

ready-IsReady : {M : Type 0} (m : M) → IsReady (ready m)
ready-IsReady m = record {
  empty = refl;
  listens = refl;
  no_dma = refl;
  no_task = refl;
  no_frame = refl;
}

transact_example :
    let received = receive_all mirror (replicate 1 0xff ++ (5 ∷ 6 ∷ 7 ∷ 8 ∷ [])) (ready 0) in
    (sent : Spi ℕ) × (task mirror received ≡ some sent)
    × (sent.sending ≡ some (7 ∷ 8 ∷ []))
    × (sent.machine ≡ 5 + 6 * 2 ^ 8)
    × IsReady (tx_complete mirror sent)
transact_example =
    transact mirror 1 5 6 (7 ∷ 8 ∷ []) (7 ∷ 8 ∷ []) (5 + 6 * 2 ^ 8) (ready 0) (ready-IsReady 0)
      (omega arith) refl refl

-- The bus in the mode of the clock, with nothing under way
abbrev quiet : Bus
quiet = record { listening = true; rx = []; left = 0; sending = none; busy = false; clock = clock }

quiet-IsIdle : IsIdle quiet
quiet-IsIdle = record { listens = refl; no_dma = refl; not_busy = refl; no_answer = refl }

no_bytes : 0 ≡ argument_length (command 9)
unfolding argument_length command
no_bytes = refl

-- The command that fetches the alarm answers with two bytes, and turns the alarm off.
abbrev fetched : Rtc
fetched = write_alarm 0xffff clock

fetch_answers :
    finish_command_rx board [] [] (start_command_rx 9 clock).1 ≡ some (0xff ∷ 0xff ∷ [], fetched)
unfolding finish_command_rx start_command_rx command
fetch_answers = refl

clock_transact_example :
    (t : Bus) × (clock_receive_all board [] (9 ∷ []) quiet ≡ some t)
    × (t.clock ≡ fetched)
    × (t.sending ≡ some (0xff ∷ 0xff ∷ []))
    × (t.listening ≡ false)
    × (t.busy ≡ false)
    × (t.left ≡ 0)
    × IsIdle (clock_sent t)
clock_transact_example = clock_transact board [] 9 [] quiet quiet-IsIdle no_bytes fetch_answers
