-- ===== src/Spi/Native.antt =====
-- The native commands behind the bus: `Spi.Handler` filled with spi_cmd.c, and an echo end to end.
use nileswan.Base.{
  ℕ, ◌+◌, ◌*◌, ◌^◌, ◌≡◌, ◌≢◌, refl, sym, ◌∙◌, ap, Bool, List, ◌∷◌, ◌++◌, Option, none, some, arith,
  length, replicate,
}
use nileswan.Hid.{Hat}
use nileswan.Native.State.{echo, Protocol, Stack, World, Mcu}
use nileswan.Native.Command
use nileswan.Native.Command.{
  native_cmd, native_arg, arg_to_len, Answer, bytes, unknown, word_bytes, frame,
}
use nileswan.Native.Laws.{take_all}
use nileswan.Spi.{Handler, Spi, receive_all, task, tx_complete}
use nileswan.Spi.Laws.{IsReady, transact}

module _ {U : Type 0} where
  framed : Option (Answer × Mcu U) → Option (Option (List ℕ) × Mcu U)
  framed none = none
  framed (some (a, m)) = some (frame a, m)

module _ {U : Type 0} (protocol : Protocol) (stack : Stack U) (hat : Hat → ℕ) (w : World)
    (full : Bool) where
  -- What spi.c calls of spi_cmd.c, with the frame of `mcu_spi_dma_finish`.
  unfoldable pub native_handler : Handler (Mcu U)
  unfolding framed
  native_handler = record {
    start = λ cmd m. Command.start_command_rx protocol stack hat w cmd m;
    finish = λ rx m. framed (Command.finish_command_rx protocol stack hat w full rx m);
  }

  start-echo :
      (cmd : ℕ) (m : Mcu U)
      → protocol.command_of (native_cmd cmd) ≡ echo
      → native_handler.start cmd m ≡ (arg_to_len (native_arg cmd), record m { spi_cmd = cmd })
  unfolding native_handler Command.start_command_rx Command.receive_length
  start-echo cmd m e = rw e refl

  finish-echo :
      (cmd : ℕ) (payload : List ℕ) (m : Mcu U)
      → protocol.command_of (native_cmd cmd) ≡ echo
      → length payload ≡ arg_to_len (native_arg cmd)
      → native_handler.finish payload (record m { spi_cmd = cmd })
        ≡ some (frame (bytes payload), record m { spi_cmd = cmd })
  unfolding native_handler Command.finish_command_rx Command.perform framed
  finish-echo cmd payload m e len =
      let m1 : Mcu U = record m { spi_cmd = cmd } in
      ap (λ c. framed (Command.perform protocol stack hat w full c (native_arg cmd) payload m1)) e
      ∙ ap (λ tx. some (frame (bytes tx), m1)) (take_all (arg_to_len (native_arg cmd)) payload len)

  -- On a ready bus, an echo command whose first byte is not 0xFF, after any number of 0xFF bytes and
  -- with as many bytes as its argument says (0 says 512), is answered by a frame of those bytes with
  -- twice their number before them, and leaves the bus ready.
  pub echo_transaction :
      (n lo hi : ℕ) (payload : List ℕ) (s : Spi (Mcu U))
      → IsReady s
      → lo ≢ 0xff
      → protocol.command_of (native_cmd (lo + hi * 2 ^ 8)) ≡ echo
      → length payload ≡ arg_to_len (native_arg (lo + hi * 2 ^ 8))
      → let received = receive_all native_handler (replicate n 0xff ++ (lo ∷ hi ∷ payload)) s in
        (sent : Spi (Mcu U)) × (task native_handler received ≡ some sent)
        × (sent.sending ≡ some (word_bytes (2 * length payload) ++ payload))
        × IsReady (tx_complete native_handler sent)
  unfolding frame
  echo_transaction n lo hi payload s r ne e len =
      let cmd = lo + hi * 2 ^ 8 in
      let started = start-echo cmd s.machine e in
      let t =
        transact native_handler n lo hi payload (word_bytes (length payload * 2) ++ payload)
          (record s.machine { spi_cmd = cmd }) s r ne (len ∙ sym (ap (λ p. p.0) started))
          (ap (λ p. native_handler.finish payload p.1) started
            ∙ finish-echo cmd payload s.machine e len) in
      let twice : length payload * 2 ≡ 2 * length payload = omega arith in
      (t.0, t.1, t.2 ∙ ap (λ k. some (word_bytes k ++ payload)) twice, t.4)
