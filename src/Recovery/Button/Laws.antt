-- ===== src/Recovery/Button/Laws.antt =====
-- What software/userland/src/recovery/tests/button.c takes for a press of the button.
use nileswan.Base.{◌≡◌, refl, ap, sym, ◌∙◌, Bool, true, false, ◌&&◌, Bool-cases, inl, inr}
use nileswan.Base.{List, [], ◌∷◌, ◌++◌, Option, none, some, if◌then◌else◌, append_assoc}
use nileswan.Recovery.Button.{
  Button, same_state, button_press_init, button_is_pressed, Frame, wait_loop,
}
use nileswan.Recovery.Button.{test_button_wait_for_state, then_wait, test_button}

-- The state behind the samples of some frames
unfoldable pub after_frames : List Frame → Button → Button
after_frames [] s = s
after_frames (f ∷ frames) s = after_frames frames (button_is_pressed f.0 s)

-- The value of the last two samples in a row that are equal, or the one before
unfoldable pub last_pair : Bool → Bool → List Frame → Bool
last_pair value before [] = value
last_pair value before (f ∷ frames) =
    last_pair (if same_state before f.0 then f.0 else value) f.0 frames

after_frames_pressed :
    (frames : List Frame) (s : Button)
    → (after_frames frames s).pressed ≡ last_pair s.pressed s.fetch2 frames
unfolding after_frames last_pair
after_frames_pressed [] s = refl
after_frames_pressed (f ∷ frames) s = after_frames_pressed frames (button_is_pressed f.0 s)

after_frames-append :
    (xs ys : List Frame) (s : Button)
    → after_frames (xs ++ ys) s ≡ after_frames ys (after_frames xs s)
unfolding after_frames
after_frames-append [] ys s = refl
after_frames-append (f ∷ xs) ys s = after_frames-append xs ys (button_is_pressed f.0 s)

-- What a wait that succeeds has read
abbrev Waited : Bool → List Frame → Button → Button → List Frame → Type 0
Waited expected frames s t rest =
    (read : List Frame) × (frames ≡ read ++ rest)
    × (t ≡ after_frames read s)
    × (t.pressed ≡ expected)

same_state_equal : (a b : Bool) → same_state a b ≡ true → a ≡ b
same_state_equal true b h = sym h
same_state_equal false true h = absurd cc
same_state_equal false false h = refl

some_parts :
    {s t : Button} {xs ys : List Frame}
    → ◌≡◌ {A = Option (Bool × Button × List Frame)} (some (true, s, xs)) (some (true, t, ys))
    → (s ≡ t) × (xs ≡ ys)
some_parts h = (cc, cc)

not_some :
    {s t : Button} {xs ys : List Frame}
    → ◌≡◌ {A = Option (Bool × Button × List Frame)} (some (false, s, xs)) (some (true, t, ys))
    → ⊥
not_some h = cc

wait_loop-Waited :
    (expected : Bool) (frames : List Frame) (s : Button) {t : Button} {rest : List Frame}
    → wait_loop expected frames s ≡ some (true, t, rest)
    → Waited expected frames s t rest
unfolding wait_loop after_frames
wait_loop-Waited expected [] s h = absurd cc
wait_loop-Waited expected ((sample, b) ∷ frames) s {t} {rest} h =
    let u = button_is_pressed sample s in
    elim (Bool-cases (same_state u.pressed expected)) [
      | inl reached ↦
          let e = some_parts (rw reached at h) in
          (
            (sample, b) ∷ [],
            ap (λ l. (sample, b) ∷ l) e.1,
            sym e.0,
            ap (λ v. v.pressed) (sym e.0) ∙ same_state_equal u.pressed expected reached,
          )
      | inr other ↦ elim (Bool-cases b) [
        | inl leaves ↦ absurd (not_some (rw (other, leaves) at h))
        | inr stays ↦
            let (read, split, state, last) =
              wait_loop-Waited expected frames u (rw (other, stays) at h) in
            ((sample, b) ∷ read, ap (λ l. (sample, b) ∷ l) split, state, last)
      ]
    ]

wait-Waited :
    (expected : Bool) (frames : List Frame) (s : Button) {t : Button} {rest : List Frame}
    → test_button_wait_for_state expected frames s ≡ some (true, t, rest)
    → Waited expected frames s t rest
unfolding test_button_wait_for_state after_frames
wait-Waited expected [] s h = absurd cc
wait-Waited expected ((sample, b) ∷ frames) s {t} {rest} h =
    let u = button_is_pressed sample s in
    elim (Bool-cases (same_state u.pressed expected)) [
      | inl reached ↦
          let e = some_parts (rw reached at h) in
          (
            (sample, b) ∷ [],
            ap (λ l. (sample, b) ∷ l) e.1,
            sym e.0,
            ap (λ v. v.pressed) (sym e.0) ∙ same_state_equal u.pressed expected reached,
          )
      | inr other ↦
          let (read, split, state, last) = wait_loop-Waited expected frames u (rw other at h) in
          ((sample, b) ∷ read, ap (λ l. (sample, b) ∷ l) split, state, last)
    ]

then_wait-some :
    (r : Option (Bool × Button × List Frame))
    (f : List Frame → Button → Option (Bool × Button × List Frame)) {t : Button} {rest : List Frame}
    → then_wait r f ≡ some (true, t, rest)
    → (u : Button) × (frames : List Frame) × (r ≡ some (true, u, frames))
      × (f frames u ≡ some (true, t, rest))
then_wait-some none f h = absurd cc
then_wait-some (some (true, u, frames)) f h = (u, frames, refl, h)
then_wait-some (some (false, u, frames)) f h = absurd cc

-- Where test_button succeeds, the frames it has read fall in three parts. Of the samples up to the end of
-- each, the two at the start included, the last two in a row that are equal were of a released button at
-- the end of the first part, of a held one at the end of the second, and of a released one at the end
-- of the third; as long as no two in a row have been equal, the button counts as released.
pub test_button_sees :
    (a b : Bool) (frames : List Frame) (s : Button) {t : Button} {rest : List Frame}
    → test_button a b frames s ≡ some (true, t, rest)
    → (xs ys zs : List Frame) × (frames ≡ xs ++ (ys ++ (zs ++ rest)))
      × (last_pair (a && b) b xs ≡ false)
      × (last_pair (a && b) b (xs ++ ys) ≡ true)
      × (last_pair (a && b) b (xs ++ (ys ++ zs)) ≡ false)
unfolding test_button
test_button_sees a b frames s {t} {rest} h =
    let start = button_press_init a b s in
    let (v, later, two, third) =
      then_wait-some
        (then_wait (test_button_wait_for_state false frames start)
          (test_button_wait_for_state true))
        (test_button_wait_for_state false) h in
    let (u, middle, one, second) =
      then_wait-some (test_button_wait_for_state false frames start)
        (test_button_wait_for_state true) two in
    let (xs, split1, state1, low1) = wait-Waited false frames start one in
    let (ys, split2, state2, high) = wait-Waited true middle u second in
    let (zs, split3, state3, low2) = wait-Waited false later v third in
    let at2 : after_frames (xs ++ ys) start ≡ v =
      after_frames-append xs ys start ∙ ap (after_frames ys) (sym state1) ∙ sym state2 in
    let at3 : after_frames (xs ++ (ys ++ zs)) start ≡ t =
      ap (λ l. after_frames l start) (sym (append_assoc xs ys zs))
      ∙ after_frames-append (xs ++ ys) zs start
      ∙ ap (after_frames zs) at2
      ∙ sym state3 in
    (
      xs,
      ys,
      zs,
      split1 ∙ ap (λ l. xs ++ l) (split2 ∙ ap (λ l. ys ++ l) split3),
      sym (after_frames_pressed xs start) ∙ ap (λ w. w.pressed) (sym state1) ∙ low1,
      sym (after_frames_pressed (xs ++ ys) start) ∙ ap (λ w. w.pressed) at2 ∙ high,
      sym (after_frames_pressed (xs ++ (ys ++ zs)) start) ∙ ap (λ w. w.pressed) at3 ∙ low2,
    )
