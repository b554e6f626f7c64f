-- ===== src/Strings.antt =====
-- The string descriptors of firmware/src/usb_descriptors.c and the hexadecimal numbers of cdc.c.
-- Characters are their codes.
pub mod Laws
mod Tests
use nileswan.Base.{ℕ, zero, suc, ◌+◌, ◌*◌, ◌/◌, ◌%◌, min, List, [], ◌∷◌, ◌++◌, Option, none, some}
use nileswan.Base.{ltb, ◌==◌, if◌then◌else◌, length, take, get_elem?, low_bits, ◌>>>◌, ◌<<<◌, join}

-- `nibble_to_hex` and `hexchars`: '0' to '9' and 'A' to 'F'
abbrev pub nibble_to_hex : ℕ → ℕ
nibble_to_hex n = if ltb n 10 then 48 + n else 55 + n

-- The two characters of a byte of the identifier
abbrev pub byte_to_hex : ℕ → List ℕ
byte_to_hex b = nibble_to_hex (low_bits (b >>> 4) 4) ∷ nibble_to_hex (low_bits b 4) ∷ []

unfoldable pub bytes_to_hex : List ℕ → List ℕ
bytes_to_hex [] = []
bytes_to_hex (b ∷ bs) = byte_to_hex b ++ bytes_to_hex bs

-- `board_usb_get_serial`: of the 12 bytes of the identifier, as many as fit
unfoldable pub board_usb_get_serial : List ℕ → ℕ → List ℕ
unfolding bytes_to_hex
board_usb_get_serial uid max_chars = bytes_to_hex (take (min 12 (max_chars / 2)) uid)

-- The characters that `_desc_str` has room for after its header
abbrev pub max_count : ℕ
max_count = 32

-- `string_desc_arr` from index 1 on; the serial number has no string there.
abbrev pub nileswan_text : List ℕ
nileswan_text = 110 ∷ 105 ∷ 108 ∷ 101 ∷ 115 ∷ 119 ∷ 97 ∷ 110 ∷ []

abbrev pub string_desc_arr : List (Option (List ℕ))
string_desc_arr =
    some (9 ∷ 4 ∷ [])
    ∷ some nileswan_text
    ∷ some (nileswan_text ++ (32 ∷ 68 ∷ 101 ∷ 118 ∷ 105 ∷ 99 ∷ 101 ∷ []))
    ∷ none
    ∷ some (nileswan_text ++ (32 ∷ 67 ∷ 68 ∷ 67 ∷ []))
    ∷ some (nileswan_text ++ (32 ∷ 72 ∷ 73 ∷ 68 ∷ []))
    ∷ []

-- `TUSB_DESC_STRING` is 3; the low byte counts the bytes with the header.
abbrev pub with_header : List ℕ → List ℕ
with_header chars = join (3 <<< 8) (2 * length chars + 2) ∷ chars

abbrev pub ascii_string : Option (Option (List ℕ)) → Option (List ℕ)
ascii_string none = none
ascii_string (some none) = none
ascii_string (some (some text)) = some (with_header (take (min (length text) max_count) text))

-- `tud_descriptor_string_cb`; `none` is NULL.
unfoldable pub string_cb : List ℕ → ℕ → Option (List ℕ)
unfolding board_usb_get_serial
string_cb uid index =
    if index == 0
    then some (with_header (join 9 (4 <<< 8) ∷ []))
    else if index == 3
    then some (with_header (board_usb_get_serial uid max_count))
    else ascii_string (get_elem? string_desc_arr index)

-- `cdc_debug_write_hex16`: four digits and the end of the line
unfoldable pub hex16 : ℕ → List ℕ
hex16 v =
    nibble_to_hex (v >>> 12)
    ∷ nibble_to_hex (low_bits (v >>> 8) 4)
    ∷ nibble_to_hex (low_bits (v >>> 4) 4)
    ∷ nibble_to_hex (low_bits v 4)
    ∷ 13
    ∷ 10
    ∷ []

-- `cdc_debug_write_hex8_space`
unfoldable pub hex8_space : ℕ → List ℕ
hex8_space v = 32 ∷ byte_to_hex v
