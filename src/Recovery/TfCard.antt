-- ===== src/Recovery/TfCard.antt =====
-- software/userland/src/recovery/ops/tf_card.c: the memory card's start, its format and its benchmarks.
-- What is only printed (the card's type and size, the times) is left out.
pub mod Laws
use nileswan.Base.{
  ℕ, zero, suc, ◌+◌, ◌*◌, ◌%◌, ◌/◌, Bool, true, false, not, ◌&&◌, List, [], ◌∷◌, Option, none, some,
}
use nileswan.Base.{◌==◌, ◌!=◌, if◌then◌else◌, u8, length, take, drop, ◌++◌, bit_xor}
use nileswan.Recovery.{
  Platform, Machine, Action, Done, ok, ◌>>=◌, require, call, call_fr, set_spi_cnt,
}

abbrev pub test_buffer_compare : ℕ
test_buffer_compare = 0

abbrev pub test_buffer_write : ℕ
test_buffer_write = 1

abbrev pub test_buffer_erase : ℕ
test_buffer_erase = 2

-- TF_TEST_MAX_SIZE
abbrev pub tf_test_max_size : ℕ
tf_test_max_size = 16384

-- One byte of `tf_card_test_buffer`, whose tests are of the constants: what it becomes, or `none` where
-- it is compared and differs
abbrev pub test_byte : ℕ → ℕ → ℕ → Option ℕ
test_byte mode expected_value byte =
    if test_buffer_write != 0
    then some expected_value
    else if test_buffer_erase != 0
    then some (bit_xor expected_value 255)
    else if byte != expected_value
    then none
    else some byte

abbrev pub then_byte : Option ℕ → Option (List ℕ) → Option (List ℕ)
then_byte none rest = none
then_byte (some b) none = none
then_byte (some b) (some bs) = some (b ∷ bs)

-- The next `n` bytes of the buffer, from offset `k` on
unfoldable pub test_bytes : ℕ → ℕ → ℕ → List ℕ → Option (List ℕ)
test_bytes mode zero k buffer = some buffer
test_bytes mode (suc n) k [] = some []
test_bytes mode (suc n) k (b ∷ bs) =
    then_byte (test_byte mode (u8 (k % 256 + k / 256)) b) (test_bytes mode n (k + 1) bs)

-- The loop goes by whole chunks of 256 bytes, for a size of at most 65280.
abbrev pub whole_chunks : ℕ → ℕ
whole_chunks max_size = (max_size + 255) / 256 * 256

unfoldable pub tf_card_test_buffer : ℕ → ℕ → List ℕ → Option (List ℕ)
unfolding test_bytes
tf_card_test_buffer mode max_size buffer = test_bytes mode (whole_chunks max_size) 0 buffer

-- The lengths 512, 1024, … up to TF_TEST_MAX_SIZE
abbrev pub benchmark_lengths : List ℕ
benchmark_lengths = 512 ∷ 1024 ∷ 2048 ∷ 4096 ∷ 8192 ∷ 16384 ∷ []

-- What the buffer holds after a read: the bytes that came, and behind them what was there
abbrev pub received : List ℕ → List ℕ → List ℕ
received bs buffer = bs ++ drop (length bs) buffer

abbrev pub from_option : {S A : Type 0} → Option A → Action S A
from_option o s = (o, s)

module _ {S : Type 0} (p : Platform S) where
  abbrev pub eject_if : Bool → Action S Done
  eject_if force s = (some ok, if force then record s { lib = p.eject s.lib } else s)

  abbrev pub mount_if : Bool → Action S Done
  mount_if mount_filesystem s = if mount_filesystem then call_fr p.f_mount s else (some ok, s)

  -- `f_write`, whose count of bytes is not looked at
  abbrev pub write_file : List ℕ → Action S Done
  write_file bs s =
      let (r, l) = p.f_write bs s.lib in (if r.0 == 0 then some ok else none, record s { lib = l })

  abbrev pub read_file : ℕ → Action S (List ℕ)
  read_file n s =
      let (r, l) = p.f_read n s.lib in (if r.0 == 0 then some r.1 else none, record s { lib = l })

  unfoldable pub fill_file : List ℕ → Action S (List ℕ)
  unfolding tf_card_test_buffer
  fill_file iram = do
    _ ← call_fr (p.f_lseek 0)
    _ ← call_fr p.f_truncate
    filled ← from_option (tf_card_test_buffer test_buffer_write tf_test_max_size iram)
    _ ← write_file (take tf_test_max_size filled)
    from_option (some filled)

  -- The test file, made anew where its size is another, through the buffer in IRAM
  unfoldable pub tf_card_test_open : List ℕ → Action S (List ℕ)
  unfolding fill_file
  tf_card_test_open iram = do
    _ ← call_fr (p.f_open false)
    λ s. if p.f_size s.lib != tf_test_max_size then fill_file iram s else (some iram, s)

  -- `tf_card_test_read`: the buffer after it
  unfoldable pub tf_card_test_read : ℕ → List ℕ → Action S (List ℕ)
  unfolding tf_card_test_buffer
  tf_card_test_read len buffer = do
    erased ← from_option (tf_card_test_buffer test_buffer_erase len buffer)
    _ ← call_fr (p.f_lseek 0)
    bs ← read_file len
    from_option (tf_card_test_buffer test_buffer_compare len (received bs erased))

  -- One round of op_tf_card_benchmark_write
  unfoldable pub tf_card_test_write : ℕ → List ℕ → Action S (List ℕ)
  unfolding tf_card_test_buffer
  tf_card_test_write len buffer = do
    filled ← from_option (tf_card_test_buffer test_buffer_write len buffer)
    _ ← call_fr (p.f_lseek 0)
    _ ← write_file (take len filled)
    _ ← call_fr (p.f_lseek 0)
    bs ← read_file len
    from_option (tf_card_test_buffer test_buffer_compare len (received bs filled))

  -- The loop over the lengths
  unfoldable pub benchmark : (ℕ → List ℕ → Action S (List ℕ)) → List ℕ → List ℕ → Action S (List ℕ)
  benchmark round [] buffer s = (some buffer, s)
  benchmark round (len ∷ lens) buffer s = (round len buffer >>= benchmark round lens) s

  -- with the value for the control register: NILE_SPI_CLOCK_FAST | NILE_SPI_DEV_TF
  module _ (tf_cnt : ℕ) where
    abbrev pub select_card : Action S Done
    select_card s = (some ok, set_spi_cnt tf_cnt s)

    abbrev pub start_card : Bool → Bool → Action S Done
    start_card force mount_filesystem = do
      _ ← eject_if force
      _ ← call_fr p.disk_initialize
      _ ← mount_if mount_filesystem
      select_card

    unfoldable pub op_tf_card_init : Bool → Bool → Action S Done
    op_tf_card_init force mount_filesystem s =
        if not force && p.fs_type s.lib != 0
        then select_card s
        else start_card force mount_filesystem s

    unfoldable pub op_tf_card_test : Action S Done
    unfolding op_tf_card_init
    op_tf_card_test = op_tf_card_init true true

    -- The benchmarks; a model without colour has no room for the buffer in its memory.
    unfoldable pub op_tf_card_benchmark :
        (ℕ → List ℕ → Action S (List ℕ)) → Bool → Bool → List ℕ → List ℕ → Action S (List ℕ)
    unfolding op_tf_card_init tf_card_test_open benchmark
    op_tf_card_benchmark round color in_iram iram sram = do
      _ ← require (not (not color && in_iram))
      _ ← op_tf_card_init false true
      opened ← tf_card_test_open iram
      benchmark round benchmark_lengths (if in_iram then opened else sram)

    unfoldable pub op_tf_card_benchmark_read : Bool → Bool → List ℕ → List ℕ → Action S (List ℕ)
    unfolding op_tf_card_benchmark tf_card_test_read
    op_tf_card_benchmark_read = op_tf_card_benchmark tf_card_test_read

    unfoldable pub op_tf_card_benchmark_write : Bool → Bool → List ℕ → List ℕ → Action S (List ℕ)
    unfolding op_tf_card_benchmark tf_card_test_write
    op_tf_card_benchmark_write = op_tf_card_benchmark tf_card_test_write

    abbrev pub answer : Action S Bool
    answer s = let (b, l) = p.accepts s.lib in (some b, record s { lib = l })

    abbrev pub format_if : Bool → Action S Done
    format_if accepted s =
        if accepted then (call_fr p.f_mkfs >>= λ _. op_tf_card_init false true) s else (some ok, s)

    unfoldable pub op_tf_card_format : Action S Done
    unfolding op_tf_card_init
    op_tf_card_format = do _ ← op_tf_card_init true false; accepted ← answer; format_if accepted
