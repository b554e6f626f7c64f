-- ===== src/Updater/Laws.antt =====
-- Statements on every way that a part of software/userland/src/updater/main.c can end.
pub mod Verify
pub mod Contents
pub mod Devices
pub mod Second
pub mod Ends
pub mod Encode
use nileswan.Base.{ℕ, zero, suc, List, ◌≡◌, refl, Bool, true, false, if◌then◌else◌}
use nileswan.Updater.{Outcome, done, halted, overrun, stuck, ◌>>=◌, require, Halt}
use nileswan.Updater.Command.{Command, Next, finished, unknown, past_end, command, next_command}

-- Every state that is left satisfies `P`.
unfoldable pub AllStates : {S : Type 0} → (S → Type 0) → Outcome S → Type 0
AllStates P (done s) = P s
AllStates P (halted h s) = P s
AllStates P overrun = Unit
AllStates P stuck = Unit

pub AllStates->>= :
    {S : Type 0} (P : S → Type 0) (o : Outcome S) (f : S → Outcome S)
    → AllStates P o
    → ((s : S) → P s → AllStates P (f s))
    → AllStates P (o >>= f)
unfolding AllStates ◌>>=◌
AllStates->>= P (done s) f p g = g s p
AllStates->>= P (halted h s) f p g = p
AllStates->>= P overrun f p g = tt
AllStates->>= P stuck f p g = tt

-- Every command that the runner can read satisfies `P`.
abbrev pub NextSatisfies : (Command → Type 0) → (List ℕ → Type 0) → Next → Type 0
NextSatisfies P rest_of (command c rest) = P c × rest_of rest
NextSatisfies P rest_of _ = Unit

abbrev pub AllCommands : (Command → Type 0) → ℕ → List ℕ → Type 0
AllCommands P zero cmd_ptr = Unit
AllCommands P (suc n) cmd_ptr = NextSatisfies P (AllCommands P n) (next_command cmd_ptr)

-- A sequence that is done has both parts done.
pub >>=-done :
    {S : Type 0} (o : Outcome S) (f : S → Outcome S) {t : S}
    → (o >>= f) ≡ done t
    → (s : S) × (o ≡ done s) × (f s ≡ done t)
unfolding ◌>>=◌
>>=-done (done s) f h = (s, refl, h)
>>=-done (halted e s) f h = cc
>>=-done overrun f h = cc
>>=-done stuck f h = cc

-- The start of the buffer is what was unpacked.
pub require-done :
    {S : Type 0} (ok : Bool) (h : Halt) (s : S) {t : S} → require ok h s ≡ done t → ok ≡ true
unfolding require
require-done true h s e = refl
require-done false h s e = cc

pub if_false : {A : Type 0} (b : Bool) (x y : A) → b ≡ false → (if b then x else y) ≡ y
if_false true x y e = cc
if_false false x y e = refl

pub require_state :
    {S : Type 0} (ok : Bool) (h : Halt) (s : S) {t : S} → require ok h s ≡ done t → t ≡ s
unfolding require
require_state true h s e = cc
require_state false h s e = cc
