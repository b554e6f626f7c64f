-- ===== src/Irq/Laws.antt =====
-- The register bit by bit, and the line against the register.
use nileswan.Base.{
  ℕ, zero, suc, ◌/◌, ◌%◌, ◌^◌, ◌<◌, ◌≡◌, ◌↔◌, refl, sym, ap, ◌∙◌, Bool, true, false, not, ◌&&◌,
  ◌||◌, List, [], ◌∷◌, arith, bit_and, bit_or, not16, test_bit, ◌!=◌, ◌==◌, ==_iff, if◌then◌else◌,
}
use nileswan.Base.Bits.{
  all_below, all_below_sound, bit_and-le, bit_or-lt, test_bit-bit_and, test_bit-bit_or,
}
use nileswan.Base.Bits.Words.{test_bit-not16, zero_of_test_bit}
use nileswan.Irq.{
  Irq, Event, raise, drop, acknowledge, set_enable, non_ack_mask, handle, handle_all,
}

abbrev pub operand : Event → ℕ
operand (raise m) = m
operand (drop m) = m
operand (acknowledge v) = v
operand (set_enable v) = v

abbrev pub AllWords : List Event → Type 0
AllWords [] = Unit {0}
AllWords (v ∷ vs) = (operand v < 2 ^ 16) × AllWords vs

-- What one event makes of bit `k`, which was `b`.
abbrev pub bit_after : ℕ → Event → Bool → Bool
bit_after k (raise m) b = b || test_bit m k
bit_after k (drop m) b = b && not (test_bit m k)
bit_after k (acknowledge v) b = b && (not (test_bit v k) || k == 2)
bit_after k (set_enable v) b = b

pub record IsValid (i : Irq) : Type 0 where
  pub status_word : i.status < 2 ^ 16
  pub enable_word : i.enable < 2 ^ 16
  pub level : i.line ≡ (bit_and i.status i.enable != 0)

mask_table : all_below 16 (λ k. non_ack_mask / 2 ^ k % 2 == (if k == 2 then 1 else 0)) ≡ true
unfolding all_below
mask_table = refl

mask-bit : (k : ℕ) → k < 16 → test_bit non_ack_mask k ≡ (k == 2)
mask-bit k h = let digit = (==_iff _ _).0 (all_below_sound 16 _ k mask_table h) in ground arith

-- Each event, with an operand of 16 bits, sets, clears or keeps each of the sixteen bits of the
-- status as `bit_after` says; an acknowledgement clears the bits that it names, but never the
-- alarm's.
pub handle_bits :
    (v : Event) (i : Irq) (k : ℕ)
    → operand v < 2 ^ 16
    → k < 16
    → test_bit (handle v i).status k ≡ bit_after k v (test_bit i.status k)
unfolding handle
handle_bits (raise m) i k p q = test_bit-bit_or k i.status m
handle_bits (drop m) i k p q =
    ground (arith, test_bit-bit_and k i.status (not16 m), test_bit-not16 k m p q)
handle_bits (acknowledge v) i k p q = ground (
  arith,
  test_bit-bit_and k i.status (bit_or (not16 v) non_ack_mask),
  test_bit-bit_or k (not16 v) non_ack_mask,
  test_bit-not16 k v p q,
  mask-bit k q,
)
handle_bits (set_enable v) i k p q = refl

-- Every event keeps the register a pair of words and the line in step with it.
pub handle-IsValid : (v : Event) {i : Irq} → operand v < 2 ^ 16 → IsValid i → IsValid (handle v i)
unfolding handle
handle-IsValid (raise m) {i} p v = ground (arith, bit_or-lt 16 i.status m)
handle-IsValid (drop m) {i} p v = ground (arith, bit_and-le i.status (not16 m))
handle-IsValid (acknowledge m) {i} p v =
    ground (arith, bit_and-le i.status (bit_or (not16 m) non_ack_mask))
handle-IsValid (set_enable m) {i} p v = ground arith

handle_all-IsValid :
    (vs : List Event) {i : Irq} → AllWords vs → IsValid i → IsValid (handle_all vs i)
unfolding handle_all
handle_all-IsValid [] p v = v
handle_all-IsValid (e ∷ es) p v = handle_all-IsValid es p.1 (handle-IsValid e p.0 v)

-- A masked word is not zero exactly when some bit is set in both.
shared_bit :
    (a b : ℕ)
    → a < 2 ^ 16
    → ((bit_and a b != 0) ≡ false) ↔ ((k : ℕ) → k < 16 → (test_bit a k && test_bit b k) ≡ false)
shared_bit a b p = (
  λ h k q. ground (arith, test_bit-bit_and k a b),
  λ h. ground (
    arith,
    zero_of_test_bit (bit_and a b) (omega (arith, bit_and-le a b))
        (λ k q. test_bit-bit_and k a b ∙ h k q),
  ),
)

all_below_complete :
    (top : ℕ) (test : ℕ → Bool) → ((k : ℕ) → k < top → test k ≡ true) → all_below top test ≡ true
unfolding all_below
all_below_complete zero test h = refl
all_below_complete (suc top) test h =
    ground (arith, h top (omega arith), all_below_complete top test (λ k q. h k (omega arith)))

opposite : (l b : Bool) → (l ≡ false → b ≡ true) → (b ≡ true → l ≡ false) → l ≡ not b
opposite true true f g = g refl
opposite true false f g = refl
opposite false true f g = refl
opposite false false f g = f refl

not-true : (b : Bool) → b ≡ false → not b ≡ true
not-true b e = ap not e

not-false : (b : Bool) → not b ≡ true → b ≡ false
not-false true e = sym e
not-false false e = refl

-- From a valid state, after any events with operands of 16 bits, the line is asserted exactly
-- if some bit of the sixteen is both pending and enabled.
pub handle_all-line :
    (vs : List Event) {i : Irq}
    → AllWords vs
    → IsValid i
    → let j = handle_all vs i in
      j.line ≡ not (all_below 16 (λ k. not (test_bit j.status k && test_bit j.enable k)))
handle_all-line vs {i} p v =
    let w = handle_all-IsValid vs p v in
    let j = handle_all vs i in
    let s = shared_bit j.status j.enable w.status_word in
    let idle : ℕ → Bool = λ k. not (test_bit j.status k && test_bit j.enable k) in
    rw w.level (
      opposite (bit_and j.status j.enable != 0) (all_below 16 idle)
        (λ h.
          all_below_complete 16 idle
            (λ k q. not-true (test_bit j.status k && test_bit j.enable k) (s.0 h k q)))
        (λ h. s.1 (λ k q.
          not-false (test_bit j.status k && test_bit j.enable k) (all_below_sound 16 idle k h q))))
