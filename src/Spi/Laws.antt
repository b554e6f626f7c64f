-- ===== src/Spi/Laws.antt =====
-- A command on the bus of spi.c, from its first byte to the end of its frame.
use nileswan.Base.{
  ℕ, zero, suc, ◌+◌, ◌*◌, ◌^◌, ◌≡◌, ◌≢◌, refl, sym, ◌∙◌, ap, true, false, List, [], ◌∷◌, ◌++◌, none,
  some, arith, ◌==◌, ◌!=◌, length, replicate, append-nil, append_assoc,
}
use nileswan.Spi.{
  Handler, Spi, begin_command, byte_irq, dma_byte, receive, receive_all, dma_finish, task,
  tx_complete,
}

-- Nothing is under way, and a byte would be looked at.
pub record IsReady {M : Type 0} (s : Spi M) : Type 0 where
  pub empty : s.queue ≡ 0xff
  pub listens : s.listening ≡ true
  pub no_dma : s.left ≡ 0
  pub no_task : s.pending ≡ false
  pub no_frame : s.sending ≡ none

module _ {M : Type 0} (handler : Handler M) where
  receive-low : (b : ℕ) (s : Spi M) → IsReady s → receive handler b s ≡ record s { queue = b }
  unfolding receive byte_irq
  receive-low b s r =
      let z : (s.left != 0) ≡ false = ground (arith, r.no_dma) in
      let q : (s.queue == 0xff) ≡ true = ground (arith, r.empty) in rw (z, r.listens, q) refl

  receive-high :
      (lo hi : ℕ) (s : Spi M)
      → IsReady s
      → lo ≢ 0xff
      → receive handler hi (record s { queue = lo })
        ≡ begin_command handler (lo + hi * 2 ^ 8) (record s { queue = lo })
  unfolding receive byte_irq
  receive-high lo hi s r ne =
      let z : (s.left != 0) ≡ false = ground (arith, r.no_dma) in
      let q : (lo == 0xff) ≡ false = ground arith in rw (z, r.listens, q) refl

  padding :
      (n : ℕ) (rest : List ℕ) (s : Spi M)
      → IsReady s
      → receive_all handler (replicate n 0xff ++ rest) s ≡ receive_all handler rest s
  unfolding receive_all
  padding zero rest s r = refl
  padding (suc n) rest s r =
      ap (receive_all handler (replicate n 0xff ++ rest))
        (receive-low 0xff s r ∙ ap (λ q. record s { queue = q }) (sym r.empty))
      ∙ padding n rest s r

  abbrev collecting : List ℕ → ℕ → Spi M → Spi M
  collecting acc left s = record s { rx = acc; left = left; pending = left == 0 }

  receive-collecting :
      (b : ℕ) (acc : List ℕ) (left : ℕ) (s : Spi M)
      → receive handler b (collecting acc (suc left) s) ≡ collecting (acc ++ (b ∷ [])) left s
  unfolding receive dma_byte
  receive-collecting b acc left s = let e : (suc left != 0) ≡ true = ground arith in rw e refl

  collect :
      (payload acc : List ℕ) (s : Spi M)
      → receive_all handler payload (collecting acc (length payload) s)
        ≡ collecting (acc ++ payload) 0 s
  unfolding receive_all
  collect [] acc s = ap (λ l. collecting l 0 s) (sym (append-nil acc))
  collect (b ∷ bs) acc s =
      ap (receive_all handler bs) (receive-collecting b acc (length bs) s)
      ∙ collect bs (acc ++ (b ∷ [])) s
      ∙ ap (λ l. collecting l 0 s) (append_assoc acc (b ∷ []) bs)

  -- The state once a command and its bytes are there.
  abbrev pub delivered : ℕ → List ℕ → Spi M → Spi M
  delivered cmd payload s = record s {
    queue = 0xff;
    listening = false;
    rx = payload;
    left = 0;
    pending = true;
    machine = (handler.start cmd s.machine).1;
  }

  deliver :
      (n lo hi : ℕ) (payload : List ℕ) (s : Spi M)
      → IsReady s
      → lo ≢ 0xff
      → length payload ≡ (handler.start (lo + hi * 2 ^ 8) s.machine).0
      → receive_all handler (replicate n 0xff ++ (lo ∷ hi ∷ payload)) s
        ≡ delivered (lo + hi * 2 ^ 8) payload s
  unfolding receive_all begin_command
  deliver n lo hi payload s r ne len =
      padding n (lo ∷ hi ∷ payload) s r
      ∙ ap (λ t. receive_all handler payload (receive handler hi t)) (receive-low lo s r)
      ∙ ap (receive_all handler payload) (receive-high lo hi s r ne)
      ∙ ap
          (λ k. receive_all handler payload (
            collecting [] k (record s {
              queue = 0xff;
              listening = false;
              machine = (handler.start (lo + hi * 2 ^ 8) s.machine).1;
            })))
          (sym len)
      ∙ collect payload [] (record s {
        queue = 0xff;
        listening = false;
        machine = (handler.start (lo + hi * 2 ^ 8) s.machine).1;
      })

  -- On a ready bus, two bytes of a command, the first not 0xFF, after any number of 0xFF bytes
  -- and with exactly the bytes that the handler asks for behind them, reach the handler at the
  -- next round of the main loop; where it answers with a frame, that is sent, and the bus is
  -- ready when it is out.
  pub transact :
      (n lo hi : ℕ) (payload frame : List ℕ) (m : M) (s : Spi M)
      → IsReady s
      → lo ≢ 0xff
      → length payload ≡ (handler.start (lo + hi * 2 ^ 8) s.machine).0
      → handler.finish payload (handler.start (lo + hi * 2 ^ 8) s.machine).1 ≡ some (some frame, m)
      → let received = receive_all handler (replicate n 0xff ++ (lo ∷ hi ∷ payload)) s in
        (sent : Spi M) × (task handler received ≡ some sent)
        × (sent.sending ≡ some frame)
        × (sent.machine ≡ m)
        × IsReady (tx_complete handler sent)
  unfolding task tx_complete dma_finish
  transact n lo hi payload frame m s r ne len done =
      let d = delivered (lo + hi * 2 ^ 8) payload s in
      (
        record d { pending = false; machine = m; sending = some frame },
        ap (task handler) (deliver n lo hi payload s r ne len)
            ∙ ap (λ o. dma_finish handler o (record d { pending = false })) done,
        refl,
        refl,
        record { empty = refl; listens = refl; no_dma = refl; no_task = refl; no_frame = refl },
      )
