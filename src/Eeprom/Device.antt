-- ===== src/Eeprom/Device.antt =====
-- What a console expects of the chip itself: a Microwire device of the M93LCx6 family, with no
-- masks, opcode bytes or arrays. An instruction is a start bit, an opcode of two bits and an
-- address whose two top bits (the `sub` code) select among the instructions of opcode 0.
use nileswan.Base.{
  ℕ, ◌/◌, ◌%◌, ◌^◌, Bool, true, false, not, ◌&&◌, ◌||◌, List, [], ◌∷◌, Option, none, some, ◌==◌,
  if◌then◌else◌,
}

pub data Instruction : Type 0 where
  disable enable erase_all write_all ignore : Instruction
  write read erase : ℕ → Instruction

pub data Target : Type 0 where
  one : ℕ → Target
  all : Target

pub record Device : Type 0 where
  pub cell : ℕ → ℕ
  pub enabled : Bool
  pub pending : Option Target

-- By the start bit, the opcode, the `sub` code and the address.
unfoldable pub classify : ℕ → ℕ → ℕ → ℕ → Instruction
classify start op sub address =
    if start == 0
    then ignore
    else if op == 1
    then write address
    else if op == 2
    then read address
    else if op == 3
    then erase address
    else if sub == 0
    then disable
    else if sub == 1
    then write_all
    else if sub == 2
    then erase_all
    else enable

-- A device of `2 ^ k` words, whose address has `shift + 2` bits on the wire.
unfoldable pub decode : ℕ → ℕ → ℕ → Instruction
unfolding classify
decode k shift w = let x = w / 2 ^ shift in classify (x / 16 % 2) (x / 4 % 4) (x % 4) (w % 2 ^ k)

unfoldable pub put : Target → ℕ → Device → Device
put (one a) v d = record d { cell = λ i. if i == a then v else d.cell i }
put all v d = record d { cell = λ i. v }

module _ (full : Bool) where
  unfoldable pub permitted : Device → Bool
  permitted d = not full || d.enabled

  -- The reply to an instruction. Without `full` the lock and the reads are the FPGA's business.
  unfoldable pub perform : Instruction → Device → ℕ × Device
  unfolding put permitted
  perform disable d = (0xffff, if full then record d { enabled = false } else d)
  perform enable d = (0xffff, if full then record d { enabled = true } else d)
  perform erase_all d = (0xffff, if permitted d then put all 0xffff d else d)
  perform write_all d = (0xffff, record d { pending = some all })
  perform (write a) d = (0xffff, record d { pending = some (one a) })
  perform (read a) d = (if full then d.cell a else 0xffff, d)
  perform (erase a) d = (0xffff, if permitted d then put (one a) 0xffff d else d)
  perform ignore d = (0xffff, d)

  unfoldable pub complete : Option Target → Instruction → ℕ → Device → ℕ × Device
  unfolding perform put permitted
  complete (some t) i w d =
      (0xffff, record (if permitted d then put t w d else d) { pending = none })
  complete none i w d = perform i d

  -- Whether an instruction heeds the lock: an erase-all of a locked chip, which does nothing here, is
  -- carried out by the firmware.
  unfoldable pub heeds_lock : Instruction → Device → Bool
  unfolding permitted
  heeds_lock erase_all d = permitted d
  heeds_lock _ d = true

  unfoldable pub word_heeds : Option Target → Instruction → Device → Bool
  unfolding heeds_lock
  word_heeds (some t) i d = true
  word_heeds none i d = heeds_lock i d

  module _ (k shift : ℕ) where
    -- One word: the data of a pending write, or an instruction.
    unfoldable pub step : ℕ → Device → ℕ × Device
    unfolding complete decode
    step w d = complete d.pending (decode k shift w) w d

    unfoldable pub run : List ℕ → Device → List ℕ × Device
    unfolding step
    run [] d = ([], d)
    run (w ∷ ws) d = let (out, d1) = step w d in let (outs, d2) = run ws d1 in (out ∷ outs, d2)

    -- A session in which no erase-all arrives while the chip is locked
    unfoldable pub run_heeds : List ℕ → Device → Bool
    unfolding step word_heeds
    run_heeds [] d = true
    run_heeds (w ∷ ws) d =
        let rest = run_heeds ws (step w d).1 in word_heeds d.pending (decode k shift w) d && rest
