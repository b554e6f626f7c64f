-- ===== src/Recovery/TfCard/Laws.antt =====
-- What software/userland/src/recovery/ops/tf_card.c does with the card.
use nileswan.Base.{ℕ, zero, suc, ◌+◌, ◌≡◌, ◌≢◌, ap, sym, ◌∙◌, Bool, true, false, not, ◌&&◌, arith}
use nileswan.Base.{List, [], ◌∷◌, some, ◌!=◌, u8, ◌%◌, ◌/◌, Bool-cases, inl, inr}
use nileswan.Recovery.{Platform, Machine, ok}
use nileswan.Recovery.Laws.{bind_some, call_fr-some}
use nileswan.Recovery.TfCard.{op_tf_card_init}
use nileswan.Recovery.TfCard.{start_card}

-- The pattern that a buffer is filled with, in its first `n` bytes
unfoldable pub pattern : ℕ → ℕ → List ℕ → List ℕ
pattern zero k buffer = buffer
pattern (suc n) k [] = []
pattern (suc n) k (b ∷ bs) = u8 (k % 256 + k / 256) ∷ pattern n (k + 1) bs

module _ {S : Type 0} (p : Platform S) where
  module _ (mounts : (s : S) → (p.f_mount s).0 ≡ 0 → p.fs_type (p.f_mount s).1 ≢ 0)
      (tf_cnt : ℕ) where
    -- A card that is in use, with the bus set to it
    abbrev InUse : Machine S → Type 0
    InUse t = (p.fs_type t.lib ≢ 0) × (t.spi_cnt ≡ tf_cnt)

    start_card-InUse :
        (force : Bool) (s : Machine S) {t : Machine S}
        → start_card p tf_cnt force true s ≡ (some ok, t)
        → InUse t
    start_card-InUse force s {t} h =
        let (d1, u, e1, k1) = bind_some _ _ s h in
        let (d2, v, e2, k2) = bind_some _ _ u k1 in
        let (d3, w, e3, k3) = bind_some _ _ v k2 in
        let (mounted, state) = call_fr-some p.f_mount v e3 in
        let last = ap (λ r. r.1) k3 in
        (
          λ unused.
              mounts v.lib mounted
                (ap (λ x. p.fs_type x.lib) (sym state) ∙ ap (λ x. p.fs_type x.lib) last ∙ unused),
          sym (ap (λ x. x.spi_cnt) last),
        )

    init-InUse :
        (force : Bool) (s : Machine S) {t : Machine S}
        → op_tf_card_init p tf_cnt force true s ≡ (some ok, t)
        → InUse t
    unfolding op_tf_card_init
    init-InUse force s {t} h = elim (Bool-cases (not force && p.fs_type s.lib != 0)) [
      | inr starts ↦ start_card-InUse force s (rw (op_tf_card_init, starts) at h)
      | inl used ↦
          let state = ap (λ r. r.1) (rw (op_tf_card_init, used) at h) in
          (
            λ unused. ground (arith, used, ap (λ x. p.fs_type x.lib) state ∙ unused),
            sym (ap (λ x. x.spi_cnt) state),
          )
    ]

    used_card :
        (again : Bool) (t : Machine S)
        → InUse t
        → op_tf_card_init p tf_cnt false again t ≡ (some ok, t)
    unfolding op_tf_card_init
    used_card again t (used, selected) =
        let in_use : (not false && p.fs_type t.lib != 0) ≡ true = ground arith in
        rw (op_tf_card_init, in_use) (ap (λ c. (some ok, record t { spi_cnt = c })) (sym selected))

    -- After a start that mounts the file system, another that is not forced succeeds at once and changes
    -- nothing, provided that FatFs marks a file system that it has mounted.
    pub op_tf_card_init_again :
        (force again : Bool) (s : Machine S) {t : Machine S}
        → op_tf_card_init p tf_cnt force true s ≡ (some ok, t)
        → op_tf_card_init p tf_cnt false again t ≡ (some ok, t)
    op_tf_card_init_again force again s {t} h = used_card again t (init-InUse force s h)
