-- ===== src/Spi.antt =====
-- firmware/src/spi.c in the native mode: how the bytes on the bus become a command, its bytes and
-- an answer, handed from the interrupt handlers to the main loop and back. The commands themselves
-- are the interface `Handler`, which `Spi.Native` fills.
pub mod Laws
pub mod Native
pub mod Clock
pub mod Console
pub mod Tests
use nileswan.Base.{
  ℕ, zero, suc, ◌+◌, Bool, true, false, List, [], ◌∷◌, ◌++◌, Option, none, some, ◌<<<◌, join, ◌==◌,
  ◌!=◌, if◌then◌else◌,
}

-- `start` gives the number of bytes that follow a command, `finish` the frame to send, if any;
-- a `finish` without a result leaves an array.
pub record Handler (M : Type 0) : Type 0 where
  pub start : ℕ → M → ℕ × M
  pub finish : List ℕ → M → Option (Option (List ℕ) × M)

-- `native_byte_queue`, the interrupt of a received byte (RXNE), the bytes that the DMA channel
-- has stored and the number that it waits for, `spi_native_idx`, and the frame that the transmit
-- channel sends; 0xFF goes out while it has none.
pub record Spi (M : Type 0) : Type 0 where
  pub queue : ℕ
  pub listening : Bool
  pub rx : List ℕ
  pub left : ℕ
  pub pending : Bool
  pub sending : Option (List ℕ)
  pub machine : M

module _ {M : Type 0} (handler : Handler M) where
  -- The rest of SPI1_IRQHandler once two bytes make a command.
  begin_command : ℕ → Spi M → Spi M
  begin_command cmd s =
      let (rx_length, m) = handler.start cmd s.machine in
      record s {
        queue = 0xff;
        listening = false;
        rx = [];
        left = rx_length;
        pending = rx_length == 0;
        machine = m;
      }

  -- SPI1_IRQHandler in native mode, for one byte
  unfoldable pub byte_irq : ℕ → Spi M → Spi M
  unfolding begin_command
  byte_irq byte s =
      if s.queue == 0xff
      then record s { queue = byte }
      else begin_command (join s.queue (byte <<< 8)) s

  -- The receive channel, with DMA1_Channel2_3_IRQHandler (TC2) at its last byte. The list goes on past
  -- the 512 bytes of the receive buffer, as the channel does into what stands behind it, for a command
  -- that is followed by more.
  dma_byte : ℕ → ℕ → Spi M → Spi M
  dma_byte byte zero s = s
  dma_byte byte (suc left) s = record s {
    rx = s.rx ++ (byte ∷ []);
    left = left;
    pending = left == 0;
  }

  -- A byte that arrives. One that nothing waits for stays in the receiver's queue, which the console
  -- does not rely on.
  unfoldable pub receive : ℕ → Spi M → Spi M
  unfolding byte_irq dma_byte
  receive byte s =
      if s.left != 0 then dma_byte byte s.left s else if s.listening then byte_irq byte s else s

  unfoldable pub receive_all : List ℕ → Spi M → Spi M
  unfolding receive
  receive_all [] s = s
  receive_all (b ∷ bs) s = receive_all bs (receive b s)

  -- `mcu_spi_dma_finish` in native mode. A command without an answer changes the mode, which sets
  -- the bus up anew.
  dma_finish : Option (Option (List ℕ) × M) → Spi M → Option (Spi M)
  dma_finish none s = none
  dma_finish (some (none, m)) s = some (record s { machine = m })
  dma_finish (some (some frame, m)) s = some (record s { machine = m; sending = some frame })

  -- `mcu_spi_task`, a round of the main loop
  unfoldable pub task : Spi M → Option (Spi M)
  unfolding dma_finish
  task s =
      if s.pending
      then dma_finish (handler.finish s.rx s.machine) (record s { pending = false })
      else some s

  -- DMA1_Channel2_3_IRQHandler (TC3): the frame is sent.
  unfoldable pub tx_complete : Spi M → Spi M
  tx_complete s = record s { sending = none; listening = true }
