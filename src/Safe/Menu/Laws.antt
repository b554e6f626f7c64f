-- ===== src/Safe/Menu/Laws.antt =====
-- What run_menu of software/ipl1/src/safe/main.c answers to the keys.
use native.Mathlib.Nat.{mod-lt, mod_self, mod-eq_of_lt, mod-add-mod, add-mod_right}
use nileswan.Base.{ℕ, zero, suc, ◌+◌, ◌-◌, ◌%◌, ◌≤◌, ◌<◌, ◌≡◌, ap, sym, subst, ◌∙◌, arith}
use nileswan.Base.{Bool, true, false, ◌||◌, Bool-cases, inl, inr, List, [], ◌∷◌, Option, none, some}
use nileswan.Base.{◌!=◌, ltb, leb, if◌then◌else◌, bit_and}
use nileswan.Safe.Menu.{
  Keys, MenuState, cancelled, chosen, release, after_release, move_up, move_down,
}
use nileswan.Safe.Menu.{keys_pressed, moved, menu_frames, run_menu}

module _ (k : Keys) (menu_count : ℕ) where
  -- By how many items the new keys of a frame move the menu down; up is the rest of a round.
  abbrev pub shift : ℕ → ℕ
  shift pressed =
      (if bit_and pressed k.up != 0 then menu_count - 1 else 0)
      + (if bit_and pressed k.down != 0 then 1 else 0)

  abbrev pub ends : ℕ → Bool
  ends pressed = bit_and pressed k.accept != 0 || bit_and pressed k.back != 0

  -- The sum of the moves, to the frame with which the menu ends
  unfoldable pub shifts : ℕ → List ℕ → ℕ
  shifts held [] = 0
  shifts held (keys ∷ scans) =
      let pressed = keys_pressed keys held in
      let rest = shifts keys scans in shift pressed + (if ends pressed then 0 else rest)

  move_up_lem :
      (pos : ℕ)
      → pos < menu_count
      → move_up k menu_count pos ≡ (pos + (menu_count - 1)) % menu_count
  move_up_lem zero below =
      let first : 0 + (menu_count - 1) ≡ menu_count - 1 = omega arith in
      sym (ap (λ n. n % menu_count) first ∙ mod-eq_of_lt (omega arith))
  move_up_lem (suc pos) below =
      let count : suc pos + (menu_count - 1) ≡ pos + menu_count = omega arith in
      let step : move_up k menu_count (suc pos) ≡ pos = ground arith in
      step
      ∙ sym (
          ap (λ n. n % menu_count) count
          ∙ add-mod_right pos menu_count
          ∙ mod-eq_of_lt (omega arith))

  move_down_lem : (pos : ℕ) → pos < menu_count → move_down k menu_count pos ≡ (pos + 1) % menu_count
  move_down_lem pos below = elim (Bool-cases (leb menu_count (pos + 1))) [
    | inl last ↦
        let count : pos + 1 ≡ menu_count = ground (arith, last) in
        rw last (sym (ap (λ n. n % menu_count) count ∙ mod_self menu_count))
    | inr inner ↦ rw inner (sym (mod-eq_of_lt (ground (arith, inner))))
  ]

  raised_lem :
      (up : Bool) (pos : ℕ)
      → pos < menu_count
      → (if up then move_up k menu_count pos else pos)
        ≡ (pos + (if up then menu_count - 1 else 0)) % menu_count
  raised_lem true pos below = move_up_lem pos below
  raised_lem false pos below =
      let none_moved : pos + 0 ≡ pos = omega arith in
      sym (ap (λ n. n % menu_count) none_moved ∙ mod-eq_of_lt below)

  moved_by :
      (up down : Bool) (pos : ℕ)
      → pos < menu_count
      → let raised = if up then move_up k menu_count pos else pos in
        (if down then move_down k menu_count raised else raised)
        ≡ (pos + ((if up then menu_count - 1 else 0) + (if down then 1 else 0))) % menu_count
  moved_by up down pos below =
      let a = if up then menu_count - 1 else 0 in
      let raised = if up then move_up k menu_count pos else pos in
      let r : raised ≡ (pos + a) % menu_count = raised_lem up pos below in
      let inside : raised < menu_count =
        subst (λ n. n < menu_count) (sym r) (mod-lt (pos + a) (omega arith)) in
      elim down
        as (λ d.
          (if d then move_down k menu_count raised else raised)
          ≡ (pos + (a + (if d then 1 else 0))) % menu_count) [
            | true ↦
                move_down_lem raised inside
                ∙ ap (λ n. (n + 1) % menu_count) r
                ∙ mod-add-mod (pos + a) menu_count 1
                ∙ ap (λ n. n % menu_count) (omega arith)
            | false ↦ r ∙ ap (λ n. n % menu_count) (omega arith)
          ]

  chosen_after :
      (q : ℕ) (t : MenuState) (r : Option (List ℕ)) {p : ℕ}
      → (after_release (chosen q) t r).0 ≡ chosen p
      → p ≡ q
  chosen_after q t none h = absurd cc
  chosen_after q t (some scans) h = cc

  not_cancelled :
      (t : MenuState) (r : Option (List ℕ)) {p : ℕ} → (after_release cancelled t r).0 ≡ chosen p → ⊥
  not_cancelled t none h = cc
  not_cancelled t (some scans) h = cc

  menu_frames_position :
      (scans : List ℕ) (s : MenuState) {p : ℕ}
      → s.menu_pos < menu_count
      → (menu_frames k menu_count scans s).0 ≡ chosen p
      → p ≡ (s.menu_pos + shifts s.keys_held scans) % menu_count
  unfolding menu_frames shifts
  menu_frames_position [] s below h = absurd cc
  menu_frames_position (keys ∷ scans) s {p} below h =
      let pressed = keys_pressed keys s.keys_held in
      let t : MenuState = record {
        menu_pos = moved k menu_count pressed s.menu_pos;
        keys_held = keys;
      } in
      let move : t.menu_pos ≡ (s.menu_pos + shift pressed) % menu_count =
        moved_by (bit_and pressed k.up != 0) (bit_and pressed k.down != 0) s.menu_pos below in
      let none_more : shift pressed ≡ shift pressed + 0 = omega arith in
      elim (Bool-cases (bit_and pressed k.accept != 0)) [
        | inl accepts ↦
            chosen_after t.menu_pos t (release scans) (rw accepts at h)
            ∙ move
            ∙ rw accepts (ap (λ n. (s.menu_pos + n) % menu_count) none_more)
        | inr other ↦ elim (Bool-cases (bit_and pressed k.back != 0)) [
          | inl leaves ↦ absurd (not_cancelled t (release scans) (rw (other, leaves) at h))
          | inr stays ↦
              let inside : t.menu_pos < menu_count =
                subst (λ n. n < menu_count) (sym move)
                  (mod-lt (s.menu_pos + shift pressed) (omega arith)) in
              menu_frames_position scans t inside (rw (other, stays) at h)
              ∙ ap (λ n. (n + shifts keys scans) % menu_count) move
              ∙ mod-add-mod (s.menu_pos + shift pressed) menu_count (shifts keys scans)
              ∙ rw (other, stays) (ap (λ n. n % menu_count) (omega arith))
        ]
      ]

  -- An item that run_menu gives back is one of the menu: the item that was marked, or the first where
  -- the mark was not in this menu, moved by one for each new press of the keys for up and down,
  -- in a circle, and no other key counts.
  pub run_menu_position :
      (scans : List ℕ) (s : MenuState) {p : ℕ}
      → 1 ≤ menu_count
      → (run_menu k menu_count scans s).0 ≡ chosen p
      → (p < menu_count)
        × (p
            ≡ ((if ltb s.menu_pos menu_count then s.menu_pos else 0) + shifts s.keys_held scans)
              % menu_count)
  unfolding run_menu
  run_menu_position scans s {p} some_item h = elim (Bool-cases (leb menu_count s.menu_pos)) [
    | inl far ↦
        let first : ltb s.menu_pos menu_count ≡ false = ground (arith, far) in
        let e =
          menu_frames_position scans (record s { menu_pos = 0 }) (omega arith) (rw far at h) in
        (
          subst (λ n. n < menu_count) (sym e) (mod-lt (0 + shifts s.keys_held scans) (omega arith)),
          rw first e,
        )
    | inr near ↦
        let marked : ltb s.menu_pos menu_count ≡ true = ground (arith, near) in
        let e = menu_frames_position scans s (ground (arith, near)) (rw near at h) in
        (
          subst (λ n. n < menu_count) (sym e)
              (mod-lt (s.menu_pos + shifts s.keys_held scans) (omega arith)),
          rw marked e,
        )
  ]
