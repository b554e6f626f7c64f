-- ===== src/Recovery/Laws.antt =====
-- How a sequence of steps of software/userland/src/recovery succeeds, and copies of bytes to a memory.
use nileswan.Base.{
  ℕ, ◌+◌, ◌<◌, ◌≡◌, refl, ap, ap₂, sym, ◌∙◌, Bool, true, false, List, ◌++◌, Option, none, some,
}
use nileswan.Base.{arith, ◌==◌, if◌then◌else◌, Bool-cases, inl, inr, ==_iff}
use nileswan.Updater.Bytes.{read_cells, read_cells-append, read_cells_same}
use nileswan.Recovery.{Machine, Action, Done, next, ◌>>=◌, require, call, call_bytes, call_fr}

next-some :
    {S A B : Type 0} (r : Option A × Machine S) (f : A → Action S B) {b : B} {t : Machine S}
    → next r f ≡ (some b, t)
    → (a : A) × (u : Machine S) × (r ≡ (some a, u)) × (f a u ≡ (some b, t))
unfolding next
next-some (none, u) f e = absurd cc
next-some (some a, u) f e = (a, u, refl, e)

-- A sequence that succeeds did so in both its parts.
pub bind_some :
    {S A B : Type 0} (m : Action S A) (f : A → Action S B) (s : Machine S) {b : B} {t : Machine S}
    → (m >>= f) s ≡ (some b, t)
    → (a : A) × (u : Machine S) × (m s ≡ (some a, u)) × (f a u ≡ (some b, t))
unfolding ◌>>=◌
bind_some m f s e = next-some (m s) f e

pub require-some :
    {S : Type 0} (b : Bool) (s : Machine S) {d : Done} {t : Machine S}
    → require b s ≡ (some d, t)
    → (b ≡ true) × (t ≡ s)
require-some true s e = (refl, cc)
require-some false s e = absurd cc

-- So many bytes stand from an address on, and what is below it is as it was.
abbrev pub Copied : (ℕ → ℕ) → (ℕ → ℕ) → ℕ → ℕ → List ℕ → Type 0
Copied old new a n bs = (read_cells new a n ≡ bs) × ((x : ℕ) → x < a → new x ≡ old x)

pub Copied-append :
    (f g h : ℕ → ℕ) (a m n : ℕ) (bs cs : List ℕ)
    → Copied f g a m bs
    → Copied g h (a + m) n cs
    → Copied f h a (m + n) (bs ++ cs)
Copied-append f g h a m n bs cs (bytes, below) (bytes', below') = (
  read_cells-append h a m n ∙ ap₂ (λ l r. l ++ r) (read_cells_same h g a m below' ∙ bytes) bytes',
  λ x lt. below' x (omega arith) ∙ below x lt,
)

module _ {S : Type 0} where
  pub call-some :
      (f : S → Bool × S) (s : Machine S) {a : Done} {t : Machine S}
      → call f s ≡ (some a, t)
      → ((f s.lib).0 ≡ true) × (t ≡ record s { lib = (f s.lib).1 })
  call-some f s e = (
    elim (Bool-cases (f s.lib).0) [
      | inl yes_ok ↦ yes_ok
      | inr failed ↦ ground (arith, ap (λ r. r.0) e)
    ],
    sym (ap (λ r. r.1) e),
  )

  pub call_fr-some :
      (f : S → ℕ × S) (s : Machine S) {a : Done} {t : Machine S}
      → call_fr f s ≡ (some a, t)
      → ((f s.lib).0 ≡ 0) × (t ≡ record s { lib = (f s.lib).1 })
  call_fr-some f s e = (
    elim (Bool-cases ((f s.lib).0 == 0)) [
      | inl yes_ok ↦ (==_iff _ _).0 yes_ok
      | inr failed ↦ ground (arith, ap (λ r. r.0) e)
    ],
    sym (ap (λ r. r.1) e),
  )

  pub call_bytes-some :
      (f : S → Option (List ℕ) × S) (s : Machine S) {bs : List ℕ} {t : Machine S}
      → call_bytes f s ≡ (some bs, t)
      → ((f s.lib).0 ≡ some bs) × (t ≡ record s { lib = (f s.lib).1 })
  call_bytes-some f s e = (ap (λ r. r.0) e, sym (ap (λ r. r.1) e))

pub if_none_some :
    {S A : Type 0} (b : Bool) (x : Option A × Machine S) (s : Machine S) {a : A} {t : Machine S}
    → (if b then (none, s) else x) ≡ (some a, t)
    → (b ≡ false) × (x ≡ (some a, t))
if_none_some true x s e = absurd cc
if_none_some false x s e = (refl, e)
