-- ===== src/Recovery/Memory/Sram.antt =====
-- The test of the cartridge's RAM in software/userland/src/recovery/tests/memory.c.
use nileswan.Base.{
  ℕ, zero, suc, ◌+◌, ◌*◌, ◌-◌, ◌^◌, ◌≤◌, ◌<◌, ◌≡◌, ◌≢◌, ◌↔◌, ◌⊎◌, inl, inr, refl, ap, ap₂, sym, ◌∙◌,
  arith,
}
use nileswan.Base.{
  Bool, true, false, ◌&&◌, &&-split, Bool-cases, ==_iff, List, [], ◌∷◌, u16, length, get_or,
}
use nileswan.Base.{◌==◌, ltb}
use nileswan.Native.Command.{bytes_of}
use nileswan.Recovery.Memory.{
  xorshift_fill, xorshift_fill_128b, Banks, store_bytes, write_bank, same_block,
}
use nileswan.Recovery.Memory.{read_bank}
use nileswan.Recovery.Memory.Firmware.{xorshift_fill_words}

length-bytes_of : (ws : List ℕ) → length (bytes_of ws) ≡ 2 * length ws
unfolding bytes_of
length-bytes_of [] = refl
length-bytes_of (v ∷ ws) = omega (arith, length-bytes_of ws)

block_size : (value : ℕ) → length (xorshift_fill_128b value).1 ≡ 128
block_size value =
    omega (arith, length-bytes_of (xorshift_fill 64 value).1, (xorshift_fill_words 64 value).0)

-- Two memories agree in a bank, between two offsets.
abbrev pub Agree : Banks → Banks → ℕ → ℕ → ℕ → Type 0
Agree f g bank from to = (x : ℕ) → from ≤ x → x < to → f bank x ≡ g bank x

abbrev block_at : ℕ → List ℕ → Banks
block_at offset bs bank x = get_or bs (x - offset) 0

same_block_iff :
    (bank offset : ℕ) (bs : List ℕ) (ram : Banks)
    → (same_block bank offset bs ram ≡ true)
      ↔ Agree ram (block_at offset bs) bank offset (offset + length bs)
unfolding same_block
same_block_iff bank offset [] ram = (λ h x l u. absurd (omega arith), λ h. refl)
same_block_iff bank offset (b ∷ bs) ram =
    let rest = same_block_iff bank (offset + 1) bs ram in
    let first : (x : ℕ) → x ≡ offset → get_or (b ∷ bs) (x - offset) 0 ≡ b =
      λ x e. ap (λ i. get_or (b ∷ bs) i 0) (let i : x - offset ≡ 0 = omega arith in i) in
    let later : (x : ℕ)
        → offset < x
        → get_or (b ∷ bs) (x - offset) 0 ≡ get_or bs (x - (offset + 1)) 0 =
      λ x l.
        ap (λ i. get_or (b ∷ bs) i 0)
          (let i : x - offset ≡ suc (x - (offset + 1)) = omega arith in i) in
    (
      λ h x l u.
          let (one, more) =
            &&-split (b == ram bank offset) (same_block bank (offset + 1) bs ram) h in
          elim (Bool-cases (x == offset)) [
            | inl here ↦
                let e = (==_iff x offset).0 here in
                ap (ram bank) e ∙ sym ((==_iff b (ram bank offset)).0 one) ∙ sym (first x e)
            | inr other ↦
                rest.0 more x (ground (arith, other)) (omega arith)
                ∙ sym (later x (ground (arith, other)))
          ],
      λ h.
          let here = h offset (omega arith) (omega arith) ∙ first offset refl in
          ap₂ (λ c d. c && d) ((==_iff b (ram bank offset)).1 (sym here))
            (rest.1 (λ x l u. h x (omega arith) (omega arith) ∙ later x (omega arith))),
    )

store_bytes_in :
    (bank offset : ℕ) (bs : List ℕ) (ram : Banks) (x : ℕ)
    → offset ≤ x
    → x < offset + length bs
    → store_bytes bank offset bs ram bank x ≡ block_at offset bs bank x
store_bytes_in bank offset bs ram x l u = ground arith

store_bytes_out :
    (bank offset : ℕ) (bs : List ℕ) (ram : Banks) (b x : ℕ)
    → (b ≢ bank) ⊎ (x < offset)
    → store_bytes bank offset bs ram b x ≡ ram b x
store_bytes_out bank offset bs ram b x (inl other) = ground arith
store_bytes_out bank offset bs ram b x (inr below) = ground arith

-- One round of each loop
write_bank_last :
    (n bank offset value : ℕ) (ram : Banks)
    → (u16 (offset + 128) == 0) ≡ true
    → write_bank (suc n) bank offset value ram
      ≡ ((xorshift_fill 64 value).0, store_bytes bank offset (xorshift_fill_128b value).1 ram)
unfolding write_bank
write_bank_last n bank offset value ram last = rw (write_bank, last) refl

write_bank_more :
    (n bank offset value : ℕ) (ram : Banks)
    → (u16 (offset + 128) == 0) ≡ false
    → write_bank (suc n) bank offset value ram
      ≡ write_bank n bank
          (u16 (offset + 128))
          (xorshift_fill 64 value).0
          (store_bytes bank offset (xorshift_fill_128b value).1 ram)
unfolding write_bank
write_bank_more n bank offset value ram more = rw (write_bank, more) refl

read_bank_last :
    (n bank offset value : ℕ) (ram : Banks)
    → (u16 (offset + 128) == 0) ≡ true
    → read_bank (suc n) bank offset value ram
      ≡ ((xorshift_fill 64 value).0, same_block bank offset (xorshift_fill_128b value).1 ram)
unfolding read_bank
read_bank_last n bank offset value ram last = rw (read_bank, last) refl

read_bank_more :
    (n bank offset value : ℕ) (ram : Banks)
    → (u16 (offset + 128) == 0) ≡ false
    → read_bank (suc n) bank offset value ram ≡ (
        let rest = read_bank n bank (u16 (offset + 128)) (xorshift_fill 64 value).0 ram in
        (rest.0, same_block bank offset (xorshift_fill_128b value).1 ram && rest.1))
unfolding read_bank
read_bank_more n bank offset value ram more = rw (read_bank, more) refl

-- What the two loops over the rest of a bank have in common
abbrev pub BankDone : Banks → Banks → ℕ → ℕ → ℕ × Banks → ℕ × Bool → Type 0
BankDone old ram bank offset written read =
    (read.0 ≡ written.0)
    × ((b x : ℕ) → (b ≢ bank) ⊎ (x < offset) → written.1 b x ≡ old b x)
    × ((read.1 ≡ true) ↔ Agree ram written.1 bank offset (2 ^ 16))

bank_last :
    (n bank offset value : ℕ) (old ram : Banks)
    → offset + 128 ≡ 2 ^ 16
    → BankDone old ram bank offset
        (write_bank (suc n) bank offset value old)
        (read_bank (suc n) bank offset value ram)
bank_last n bank offset value old ram end =
    let bs = (xorshift_fill_128b value).1 in
    let last : (u16 (offset + 128) == 0) ≡ true = ground arith in
    let size = block_size value in
    let same = same_block_iff bank offset bs ram in
    let w = write_bank_last n bank offset value old last in
    let r = read_bank_last n bank offset value ram last in
    let stored : (x : ℕ)
        → offset ≤ x
        → x < 2 ^ 16
        → store_bytes bank offset bs old bank x ≡ block_at offset bs bank x =
      λ x l u. store_bytes_in bank offset bs old x l (omega (arith, size)) in
    rw (w, r)
      (
        refl,
        (λ b x away. store_bytes_out bank offset bs old b x away),
        (
          λ h x l u. same.0 h x l (omega (arith, size)) ∙ sym (stored x l u),
          λ h. same.1 (λ x l u. h x l (omega (arith, size)) ∙ stored x l (omega (arith, size))),
        ),
      )

-- A block and the rest of the bank
bank_step :
    (bank offset value : ℕ) (old ram : Banks) (written : ℕ × Banks) (read : ℕ × Bool)
    → offset + 128 < 2 ^ 16
    → let bs = (xorshift_fill_128b value).1 in
      BankDone (store_bytes bank offset bs old) ram bank (offset + 128) written read
      → BankDone old ram bank offset written (read.0, same_block bank offset bs ram && read.1)
bank_step bank offset value old ram written read more (vals, out, (good, back)) =
    let bs = (xorshift_fill_128b value).1 in
    let size = block_size value in
    let same = same_block_iff bank offset bs ram in
    let here : (x : ℕ)
        → offset ≤ x
        → x < offset + length bs
        → written.1 bank x ≡ block_at offset bs bank x =
      λ x l u. out bank x (inr (omega (arith, size))) ∙ store_bytes_in bank offset bs old x l u in
    (
      vals,
      (λ b x away.
          out b x (elim away [ inl other ↦ inl other | inr below ↦ inr (omega arith) ])
          ∙ store_bytes_out bank offset bs old b x away),
      (
        λ h x l u.
            let (block, rest) = &&-split (same_block bank offset bs ram) read.1 h in
            elim (Bool-cases (ltb x (offset + 128))) [
              | inl inner ↦
                  let near : x < offset + length bs = ground (arith, inner, size) in
                  same.0 block x l near ∙ sym (here x l near)
              | inr outer ↦ good rest x (ground (arith, outer)) u
            ],
        λ h.
            ap₂ (λ c d. c && d) (same.1 (λ x l u. h x l (omega (arith, size)) ∙ here x l u))
              (back (λ x l u. h x (omega arith) u)),
      ),
    )

pub bank_done :
    (n bank offset value : ℕ) (old ram : Banks)
    → offset + suc n * 128 ≡ 2 ^ 16
    → BankDone old ram bank offset
        (write_bank (suc n) bank offset value old)
        (read_bank (suc n) bank offset value ram)
bank_done zero bank offset value old ram end = bank_last 0 bank offset value old ram (omega arith)
bank_done (suc n) bank offset value old ram end =
    let next = (xorshift_fill 64 value).0 in
    let stored = store_bytes bank offset (xorshift_fill_128b value).1 old in
    let more : (u16 (offset + 128) == 0) ≡ false = ground arith in
    let on : offset + 128 ≡ u16 (offset + 128) = omega arith in
    let w = write_bank_more (suc n) bank offset value old more in
    let r = read_bank_more (suc n) bank offset value ram more in
    rw (w, r, ← on)
      (bank_step bank offset value old ram (write_bank (suc n) bank (offset + 128) next stored)
        (read_bank (suc n) bank (offset + 128) next ram) (omega arith)
        (bank_done n bank (offset + 128) next stored ram (omega arith)))
