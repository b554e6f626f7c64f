-- ===== src/Irq/Tests.antt =====
-- The interrupt register on concrete events.
use nileswan.Base.{◌≡◌, refl, false, not, ◌&&◌, List, [], ◌∷◌, arith, test_bit}
use nileswan.Base.Bits.{all_below}
use nileswan.Irq.{Irq, Event, raise, acknowledge, handle_all, rtc_alarm}
use nileswan.Irq.Laws.{IsValid, handle_all-line}

abbrev at_start : Irq
at_start = record { status = 0; enable = rtc_alarm; line = false }

at_start-IsValid : IsValid at_start
at_start-IsValid = record { status_word = omega arith; enable_word = omega arith; level = refl }

-- a card is inserted, the alarm rings, and both are acknowledged
abbrev events : List Event
events = raise 1 ∷ raise 4 ∷ acknowledge 0xffff ∷ []

events_status : (handle_all events at_start).status ≡ 4
unfolding handle_all
events_status = refl

handle_all-line_example :
    let j = handle_all events at_start in
    j.line ≡ not (all_below 16 (λ k. not (test_bit j.status k && test_bit j.enable k)))
handle_all-line_example =
    handle_all-line events (omega arith, (omega arith, (omega arith, tt))) at_start-IsValid
