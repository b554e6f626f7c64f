-- ===== src/Crc/Tests.antt =====
-- Runs of the checksum.
use nileswan.Base.{ℕ, ◌≡◌, refl, [], ◌∷◌, List, take, arith}
use nileswan.Crc.{crc16, loop_count}
use nileswan.Crc.Laws.{remainder, crc16-remainder}

-- The digits 1 to 9, whose checksum is known from catalogues of checksums: 0x31C3.
abbrev digits : List ℕ
digits = 49 ∷ 50 ∷ 51 ∷ 52 ∷ 53 ∷ 54 ∷ 55 ∷ 56 ∷ 57 ∷ []

digits_sum : crc16 digits 9 0 ≡ 12739
unfolding crc16
digits_sum = refl

crc16-remainder_example : crc16 digits 9 0 ≡ remainder (take (loop_count 9) digits) 0
crc16-remainder_example = crc16-remainder digits 9 0 (ground arith) (omega arith)
