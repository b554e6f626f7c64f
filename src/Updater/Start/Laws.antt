-- ===== src/Updater/Start/Laws.antt =====
-- main of software/userland/src/updater/main.c, up to the question to the user and as a whole.
use nileswan.Base.{ℕ, ◌≡◌, refl, ◌∙◌, Bool, List, arith}
use nileswan.Updater.{
  Hardware, Updater, Outcome, done, halted, overrun, stuck, ◌>>=◌, require, Halt,
}
use nileswan.Updater.Flash.{version_size}
use nileswan.Updater.Start.{load_manifest, check_version, prepare}
use nileswan.Updater.Start.{flash_chip_supported}
use nileswan.Updater.Laws.{AllStates, AllStates->>=}
use nileswan.Updater.Laws.Verify.{run_update_manifest_verify}

module _ (H : Hardware) (cells : H.State → ℕ → ℕ)
    (reset_keeps : (on : Bool) (s : H.State) → cells (H.mcu_reset on s).0 ≡ cells s)
    (read_keeps : (a n : ℕ) (s : H.State) → cells (H.read a n s).0 ≡ cells s) where
  abbrev pub FlashIs : (ℕ → ℕ) → Updater H → Type 0
  FlashIs f u = cells u.hardware ≡ f

  load-FlashIs :
      (f : ℕ → ℕ) (segment : ℕ) (u : Updater H)
      → FlashIs f u
      → AllStates (FlashIs f) (load_manifest H segment u)
  unfolding load_manifest AllStates ◌>>=◌ require
  load-FlashIs f segment u h = ground arith

  check-FlashIs :
      (f : ℕ → ℕ) (u : Updater H) → FlashIs f u → AllStates (FlashIs f) (check_version H u)
  unfolding check_version AllStates ◌>>=◌ require
  check-FlashIs f u h = ground (arith, read_keeps u.flash_version_address version_size u.hardware)

  require-FlashIs :
      (f : ℕ → ℕ) (chips : List ℕ) (flash_id : ℕ) (h : Halt) (u : Updater H)
      → FlashIs f u
      → AllStates (FlashIs f) (require (flash_chip_supported chips flash_id) h u)
  unfolding AllStates require
  require-FlashIs f chips flash_id h u p = ground arith

  AllStates-map :
      {S : Type 0} (P Q : S → Type 0) (o : Outcome S)
      → ((s : S) → P s → Q s)
      → AllStates P o
      → AllStates Q o
  unfolding AllStates
  AllStates-map P Q (done s) g h = g s h
  AllStates-map P Q (halted e s) g h = g s h
  AllStates-map P Q overrun g h = tt
  AllStates-map P Q stuck g h = tt

  -- Up to the question to the user nothing is written: whatever error comes, the flash memory is as
  -- it was, provided that resets and reads leave it alone.
  pub prepare_keeps :
      (chips : List ℕ) (flash_id segment : ℕ) (u : Updater H)
      → AllStates (FlashIs (cells u.hardware)) (prepare H chips flash_id segment u)
  unfolding prepare
  prepare_keeps chips flash_id segment u =
      let f = cells u.hardware in
      AllStates->>= (FlashIs f) _ _ (require-FlashIs f chips flash_id _ u refl) (λ u0 h0.
        AllStates->>= (FlashIs f) _ _ (load-FlashIs f segment u0 h0) (λ u1 h1.
          AllStates->>= (FlashIs f) _ _
            (AllStates-map _ (FlashIs f) _ (λ s h. h.1 ∙ h1)
              (run_update_manifest_verify H cells reset_keeps u1))
            (check-FlashIs f)))
