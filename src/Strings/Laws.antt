-- ===== src/Strings/Laws.antt =====
-- What the host can read off the strings of firmware/src/usb_descriptors.c and cdc.c.
use nileswan.Base.{
  ℕ, zero, suc, ◌+◌, ◌-◌, ◌*◌, ◌/◌, ◌%◌, ◌^◌, ◌≤◌, ◌<◌, min, ◌≡◌, refl, ap, ap₂, ◌∙◌,
}
use nileswan.Base.{Bool, true, false, List, [], ◌∷◌, Option, none, some, arith, length, take}
use nileswan.Base.{ltb, ◌==◌, if◌then◌else◌, length-take, get_elem?, join, ◌<<<◌}
use nileswan.Strings.{nibble_to_hex, bytes_to_hex, board_usb_get_serial, max_count}
use nileswan.Strings.{string_desc_arr, with_header, ascii_string, string_cb, hex16}

-- The value of a hexadecimal digit, and the bytes of a sequence of them
abbrev pub digit_value : ℕ → ℕ
digit_value ch = if ltb ch 58 then ch - 48 else ch - 55

unfoldable pub from_hex : List ℕ → List ℕ
from_hex [] = []
from_hex (high ∷ []) = []
from_hex (high ∷ low ∷ rest) = (digit_value high * 16 + digit_value low) ∷ from_hex rest

abbrev pub AllBytes : List ℕ → Type 0
AllBytes [] = Unit
AllBytes (b ∷ bs) = (b < 256) × AllBytes bs

digit_value_lem : (n : ℕ) → n < 16 → digit_value (nibble_to_hex n) ≡ n
digit_value_lem n h = ground arith

from_hex-bytes_to_hex : (bs : List ℕ) → AllBytes bs → from_hex (bytes_to_hex bs) ≡ bs
unfolding from_hex bytes_to_hex
from_hex-bytes_to_hex [] h = refl
from_hex-bytes_to_hex (b ∷ bs) h =
    ap₂ (λ x xs. x ∷ xs)
      (ap₂ (λ high low. high * 16 + low) (digit_value_lem (b / 2 ^ 4 % 2 ^ 4) (omega arith))
          (digit_value_lem (b % 2 ^ 4) (omega arith))
        ∙ (let small = h.0 in omega arith))
      (from_hex-bytes_to_hex bs h.1)

take_whole : (n : ℕ) (xs : List ℕ) → length xs ≤ n → take n xs ≡ xs
take_whole zero [] h = refl
take_whole zero (x ∷ xs) h = absurd (omega arith)
take_whole (suc n) [] h = refl
take_whole (suc n) (x ∷ xs) h = ap (λ l. x ∷ l) (take_whole n xs (omega arith))

-- The serial number names the chip: its digits give back the 12 bytes of the identifier.
pub from_hex-board_usb_get_serial :
    (uid : List ℕ)
    → length uid ≡ 12
    → AllBytes uid
    → from_hex (board_usb_get_serial uid max_count) ≡ uid
unfolding board_usb_get_serial
from_hex-board_usb_get_serial uid size h =
    ap from_hex (ap bytes_to_hex (take_whole 12 uid (omega arith))) ∙ from_hex-bytes_to_hex uid h

length-bytes_to_hex : (bs : List ℕ) → length (bytes_to_hex bs) ≡ 2 * length bs
unfolding bytes_to_hex
length-bytes_to_hex [] = refl
length-bytes_to_hex (b ∷ bs) = let rest = length-bytes_to_hex bs in omega arith

-- A descriptor that states its size, with the type of a string, and fits the buffer
abbrev pub IsSized : Option (List ℕ) → Type 0
IsSized none = Unit
IsSized (some []) = ⊥
IsSized (some (header ∷ chars)) =
    (header ≡ 768 + (2 * length chars + 2)) × (length chars ≤ max_count)

with_header-IsSized :
    (chars : List ℕ) → length chars ≤ max_count → IsSized (some (with_header chars))
with_header-IsSized chars h = (omega arith, h)

ascii_string-IsSized : (text : Option (Option (List ℕ))) → IsSized (ascii_string text)
ascii_string-IsSized none = tt
ascii_string-IsSized (some none) = tt
ascii_string-IsSized (some (some text)) =
    with_header-IsSized (take (min (length text) max_count) text)
      (omega (arith, length-take (min (length text) max_count) text))

if-IsSized :
    (b : Bool) (x y : Option (List ℕ)) → IsSized x → IsSized y → IsSized (if b then x else y)
if-IsSized true x y p q = p
if-IsSized false x y p q = q

-- Every string descriptor states its own size in bytes, is marked as a string, and has at most the 32
-- characters that the buffer holds, for any index and any identifier.
pub string_cb-IsSized : (uid : List ℕ) (index : ℕ) → IsSized (string_cb uid index)
unfolding string_cb board_usb_get_serial
string_cb-IsSized uid index =
    if-IsSized (index == 0) _ _ (with_header-IsSized (join 9 (4 <<< 8) ∷ []) (omega arith)) (
      if-IsSized (index == 3) _ _
        (with_header-IsSized (bytes_to_hex (take 12 uid))
          (omega (arith, length-bytes_to_hex (take 12 uid), length-take 12 uid)))
        (ascii_string-IsSized (get_elem? string_desc_arr index)))

-- The four digits of a 16-bit number give back its high and its low byte.
pub from_hex-hex16 : (v : ℕ) → v < 2 ^ 16 → from_hex (take 4 (hex16 v)) ≡ v / 256 ∷ v % 256 ∷ []
unfolding hex16 from_hex
from_hex-hex16 v h =
    let d3 = digit_value_lem (v / 2 ^ 12) (omega arith) in
    let d2 = digit_value_lem (v / 2 ^ 8 % 2 ^ 4) (omega arith) in
    let d1 = digit_value_lem (v / 2 ^ 4 % 2 ^ 4) (omega arith) in
    let d0 = digit_value_lem (v % 2 ^ 4) (omega arith) in
    ap₂ (λ high low. high ∷ low ∷ []) (ap₂ (λ x y. x * 16 + y) d3 d2 ∙ omega arith)
      (ap₂ (λ x y. x * 16 + y) d1 d0 ∙ omega arith)
