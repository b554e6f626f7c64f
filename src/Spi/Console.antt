-- ===== src/Spi/Console.antt =====
-- firmware/src/spi.c in the modes of the EEPROM and of the USB console: the branches of
-- SPI1_IRQHandler that answer each word at once.
use nileswan.Base.{
  ℕ, Bool, true, List, [], ◌∷◌, ◌++◌, ◌==◌, if◌then◌else◌, Bool-cases, inl, inr, ◌≡◌, refl, ap, ◌∙◌,
}

-- MCU_SPI_MODE_CDC_OUTPUT: what is written to TinyUSB for a byte, 10 being '\n' and 13 '\r'
unfoldable pub cdc_output : Bool → ℕ → List ℕ
cdc_output connected ch = if connected then (if ch == 10 then 13 ∷ ch ∷ [] else ch ∷ []) else []

unfoldable pub cdc_output_all : Bool → List ℕ → List ℕ
unfolding cdc_output
cdc_output_all connected [] = []
cdc_output_all connected (ch ∷ chs) = cdc_output connected ch ++ cdc_output_all connected chs

-- Without the '\r' of each line end, the text that was sent
unfoldable pub drop_returns : List ℕ → List ℕ
drop_returns [] = []
drop_returns (ch ∷ chs) = let rest = drop_returns chs in if ch == 13 then rest else ch ∷ rest

drop_returns-cdc_output :
    (ch : ℕ) (rest : List ℕ) → drop_returns (cdc_output true ch ++ rest) ≡ drop_returns (ch ∷ rest)
unfolding drop_returns cdc_output
drop_returns-cdc_output ch rest = elim (Bool-cases (ch == 10)) [
  | inl newline ↦ rw newline refl
  | inr other ↦ rw other refl
]

-- While a host is connected, the console's bytes reach it complete and in order: with the carriage
-- returns left out, what is written is what was sent.
pub drop_returns-cdc_output_all :
    (chs : List ℕ) → drop_returns (cdc_output_all true chs) ≡ drop_returns chs
unfolding cdc_output_all drop_returns
drop_returns-cdc_output_all [] = refl
drop_returns-cdc_output_all (ch ∷ chs) =
    drop_returns-cdc_output ch (cdc_output_all true chs)
    ∙ ap (λ l. if ch == 13 then l else ch ∷ l) (drop_returns-cdc_output_all chs)
