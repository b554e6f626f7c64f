-- ===== src/Spi/Clock.antt =====
-- firmware/src/spi.c in the mode of the real-time clock: SPI1_IRQHandler, the receive channel of
-- DMA1_Channel2_3_IRQHandler and mcu_spi_dma_finish, with the BUSY line of mcu.c, which holds the
-- FPGA back.
use nileswan.Base.{ℕ, zero, suc, Bool, true, false, List, [], ◌∷◌, ◌++◌, Option, none, some}
use nileswan.Base.{◌==◌, ◌!=◌, if◌then◌else◌, ◌≡◌, refl, ap, sym, ◌∙◌, arith, length, append_assoc}
use nileswan.Rtc.State.{Rtc, Board}
use nileswan.Rtc.Command.{start_command_rx, finish_command_rx, argument_length, command}

-- Whether the interrupt of a received byte is on, the receive buffer with the number of bytes that
-- the channel waits for, the bytes that the transmit channel sends, the BUSY line, and the clock
pub record Bus : Type 0 where
  pub listening : Bool
  pub rx : List ℕ
  pub left : ℕ
  pub sending : Option (List ℕ)
  pub busy : Bool
  pub clock : Rtc

-- `if (len) … else …` and `mcu_fpga_finish_busy`
abbrev pub send_answer : Option (List ℕ × Rtc) → Bus → Option Bus
send_answer none s = none
send_answer (some ([], r)) s = some (record s { clock = r; listening = true; busy = false })
send_answer (some (t ∷ ts, r)) s =
    some (record s { clock = r; sending = some (t ∷ ts); busy = false })

abbrev pub then_bus : Option Bus → (Bus → Option Bus) → Option Bus
then_bus none f = none
then_bus (some s) f = f s

module _ (b : Board) (later : List (ℕ × ℕ)) where
  -- `mcu_spi_dma_finish` in this mode; `none`, where the read of the clock does not settle
  unfoldable pub clock_finish : Bus → Option Bus
  clock_finish s = send_answer (finish_command_rx b later s.rx s.clock) (record s { busy = true })

  -- SPI1_IRQHandler in this mode
  unfoldable pub clock_irq : ℕ → Bus → Option Bus
  unfolding clock_finish
  clock_irq cmd s =
      let (rx_length, r) = start_command_rx cmd s.clock in
      let t = record s { listening = false; busy = true; clock = r } in
      if rx_length != 0
      then some (record t { rx = []; left = rx_length; busy = false })
      else clock_finish t

  -- The receive channel, with the interrupt at its last byte
  unfoldable pub clock_dma : ℕ → ℕ → Bus → Option Bus
  unfolding clock_finish
  clock_dma byte zero s = some s
  clock_dma byte (suc zero) s = clock_finish (record s { rx = s.rx ++ (byte ∷ []); left = 0 })
  clock_dma byte (suc (suc left)) s = some (record s { rx = s.rx ++ (byte ∷ []); left = suc left })

  unfoldable pub clock_receive : ℕ → Bus → Option Bus
  unfolding clock_irq clock_dma
  clock_receive byte s =
      if s.left != 0
      then clock_dma byte s.left s
      else if s.listening
      then clock_irq byte s
      else some s

  unfoldable pub clock_receive_all : List ℕ → Bus → Option Bus
  unfolding clock_receive
  clock_receive_all [] s = some s
  clock_receive_all (byte ∷ bytes) s = then_bus (clock_receive byte s) (clock_receive_all bytes)

-- DMA1_Channel2_3_IRQHandler (TC3) in this mode
abbrev pub clock_sent : Bus → Bus
clock_sent s = record s { sending = none; listening = true }

-- Nothing is under way.
pub record IsIdle (s : Bus) : Type 0 where
  pub listens : s.listening ≡ true
  pub no_dma : s.left ≡ 0
  pub not_busy : s.busy ≡ false
  pub no_answer : s.sending ≡ none

then_some : (o : Option Bus) → then_bus o some ≡ o
then_some none = refl
then_some (some s) = refl

-- The receive buffer of a command; without bytes to come, it is what the last command left.
abbrev pub buffer_of : List ℕ → List ℕ → List ℕ
buffer_of [] old = old
buffer_of (byte ∷ bytes) old = byte ∷ bytes

-- An answer is sent where it has bytes; what the bus is once they are out
abbrev pub to_send : List ℕ → Option (List ℕ)
to_send [] = none
to_send (byte ∷ bytes) = some (byte ∷ bytes)

abbrev pub once_sent : List ℕ → Bus → Bus
once_sent [] t = t
once_sent (byte ∷ bytes) t = clock_sent t

-- The bus when the command with its bytes has arrived
abbrev taken : ℕ → List ℕ → Bus → Bus
taken cmd payload s = record s {
  listening = false;
  rx = buffer_of payload s.rx;
  left = 0;
  busy = true;
  clock = (start_command_rx cmd s.clock).1;
}

module _ (b : Board) (later : List (ℕ × ℕ)) where
  abbrev waiting : List ℕ → ℕ → Bus → Bus
  waiting acc left s = record s { rx = acc; left = left }

  collect :
      (byte : ℕ) (bytes acc : List ℕ) (s : Bus)
      → clock_receive_all b later (byte ∷ bytes) (waiting acc (suc (length bytes)) s)
        ≡ clock_finish b later (waiting (acc ++ (byte ∷ bytes)) 0 s)
  unfolding clock_receive_all clock_receive clock_dma
  collect byte [] acc s = then_some _
  collect byte (next ∷ bytes) acc s =
      let more : (suc (suc (length bytes)) != 0) ≡ true = ground arith in
      rw more (
        collect next bytes (acc ++ (byte ∷ [])) s
        ∙ ap (λ rx. clock_finish b later (waiting rx 0 s))
            (append_assoc acc (byte ∷ []) (next ∷ bytes)))

  -- What arrives is the command with its bytes, once.
  clock_received :
      (cmd : ℕ) (payload : List ℕ) (s : Bus)
      → IsIdle s
      → length payload ≡ argument_length (command cmd)
      → clock_receive_all b later (cmd ∷ payload) s
        ≡ send_answer
            (finish_command_rx b later (buffer_of payload s.rx) (start_command_rx cmd s.clock).1)
            (taken cmd payload s)
  unfolding clock_receive_all clock_receive clock_irq start_command_rx
  clock_received cmd [] s idle size =
      let quiet : (s.left != 0) ≡ false = ground (arith, idle.no_dma) in
      let short : (argument_length (command cmd) != 0) ≡ false = ground arith in
      let clock = (start_command_rx cmd s.clock).1 in
      rw (quiet, idle.listens, short)
        (then_some _
          ∙ ap
              (λ l.
                send_answer (finish_command_rx b later s.rx clock)
                  (record s { listening = false; left = l; busy = true; clock = clock }))
              idle.no_dma)
  clock_received cmd (byte ∷ bytes) s idle size =
      let quiet : (s.left != 0) ≡ false = ground (arith, idle.no_dma) in
      let long : (argument_length (command cmd) != 0) ≡ true = ground arith in
      let clock = (start_command_rx cmd s.clock).1 in
      let t = record s { listening = false; busy = false; clock = clock } in
      rw (quiet, idle.listens, long)
        (ap (λ n. clock_receive_all b later (byte ∷ bytes) (waiting [] n t)) (sym size)
          ∙ collect byte bytes [] t)

  -- A command byte and as many bytes as the command takes, to an idle bus, run the command on those
  -- bytes once, provided that it has a result, an answer and the clock's new state. Where the answer
  -- has bytes, they are then being sent, and no byte is taken for a command until they are out, when
  -- the bus is idle; where it has none, the bus is idle at once. BUSY is released in either case.
  pub clock_transact :
      (cmd : ℕ) (payload : List ℕ) (s : Bus) {answer : List ℕ} {r : Rtc}
      → IsIdle s
      → length payload ≡ argument_length (command cmd)
      → finish_command_rx b later (buffer_of payload s.rx) (start_command_rx cmd s.clock).1
        ≡ some (answer, r)
      → (t : Bus) × (clock_receive_all b later (cmd ∷ payload) s ≡ some t)
        × (t.clock ≡ r)
        × (t.sending ≡ to_send answer)
        × (t.listening ≡ (length answer == 0))
        × (t.busy ≡ false)
        × (t.left ≡ 0)
        × IsIdle (once_sent answer t)
  clock_transact cmd payload s {answer = []} {r = r} idle size run =
      let received = clock_received cmd payload s idle size in
      let t : Bus = record s {
        listening = true;
        rx = buffer_of payload s.rx;
        left = 0;
        busy = false;
        clock = r;
      } in
      (
        t,
        received ∙ ap (λ o. send_answer o (taken cmd payload s)) run,
        refl,
        idle.no_answer,
        refl,
        refl,
        refl,
        record { listens = refl; no_dma = refl; not_busy = refl; no_answer = idle.no_answer },
      )
  clock_transact cmd payload s {answer = byte ∷ bytes} {r = r} idle size run =
      let received = clock_received cmd payload s idle size in
      let t : Bus = record s {
        listening = false;
        rx = buffer_of payload s.rx;
        left = 0;
        sending = some (byte ∷ bytes);
        busy = false;
        clock = r;
      } in
      (
        t,
        received ∙ ap (λ o. send_answer o (taken cmd payload s)) run,
        refl,
        refl,
        ground arith,
        refl,
        refl,
        record { listens = refl; no_dma = refl; not_busy = refl; no_answer = refl },
      )
