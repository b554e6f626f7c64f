-- ===== src/Updater/Bytes.antt =====
-- Bytes in the buffers and in the flash memory, for the laws of software/userland/src/updater/main.c.
use nileswan.Base.{ℕ, zero, suc, ◌+◌, ◌<◌, ◌≡◌, refl, sym, ap, ap₂}
use nileswan.Base.{◌∙◌, true, List, [], ◌∷◌, ◌++◌, arith, length, take, drop}
use nileswan.Updater.Flash.{same_bytes}
use nileswan.Updater.Flash.{slice}

-- The bytes from an address on
unfoldable pub read_cells : (ℕ → ℕ) → ℕ → ℕ → List ℕ
read_cells cells a zero = []
read_cells cells a (suc n) = cells a ∷ read_cells cells (a + 1) n

pub length-read_cells : (cells : ℕ → ℕ) (a n : ℕ) → length (read_cells cells a n) ≡ n
unfolding read_cells
length-read_cells cells a zero = refl
length-read_cells cells a (suc n) = ap suc (length-read_cells cells (a + 1) n)

pub read_cells-append :
    (cells : ℕ → ℕ) (a m n : ℕ)
    → read_cells cells a (m + n) ≡ read_cells cells a m ++ read_cells cells (a + m) n
unfolding read_cells
read_cells-append cells a zero n = ap₂ (read_cells cells) (omega arith) (omega arith)
read_cells-append cells a (suc m) n =
    let count : suc m + n ≡ suc (m + n) = omega arith in
    let next : a + 1 + m ≡ a + suc m = omega arith in
    ap (read_cells cells a) count
    ∙ ap (λ l. cells a ∷ l)
        (read_cells-append cells (a + 1) m n
          ∙ ap (λ b. read_cells cells (a + 1) m ++ read_cells cells b n) next)

pub read_cells_same :
    (f g : ℕ → ℕ) (a n : ℕ)
    → ((x : ℕ) → x < a + n → f x ≡ g x)
    → read_cells f a n ≡ read_cells g a n
unfolding read_cells
read_cells_same f g a zero same = refl
read_cells_same f g a (suc n) same =
    ap₂ (λ c l. c ∷ l) (same a (omega arith))
      (read_cells_same f g (a + 1) n (λ x h. same x (omega arith)))

pub same_bytes_equal : (xs ys : List ℕ) → same_bytes xs ys ≡ true → xs ≡ ys
unfolding same_bytes
same_bytes_equal [] [] h = refl
same_bytes_equal [] (y ∷ ys) h = cc
same_bytes_equal (x ∷ xs) [] h = cc
same_bytes_equal (x ∷ xs) (y ∷ ys) h =
    ap₂ (λ c l. c ∷ l) (ground arith) (same_bytes_equal xs ys (ground arith))

take-nil : (n : ℕ) → take {A = ℕ} n [] ≡ []
take-nil zero = refl
take-nil (suc n) = refl

drop-nil : (n : ℕ) → drop {A = ℕ} n [] ≡ []
drop-nil zero = refl
drop-nil (suc n) = refl

take_add : (m n : ℕ) (bs : List ℕ) → take (m + n) bs ≡ take m bs ++ take n (drop m bs)
take_add zero n bs = ap (λ k. take k bs) (omega arith)
take_add (suc m) n [] = take-nil (suc m + n) ∙ sym (take-nil n)
take_add (suc m) n (b ∷ bs) =
    let count : suc m + n ≡ suc (m + n) = omega arith in
    ap (λ k. take k (b ∷ bs)) count ∙ ap (λ l. b ∷ l) (take_add m n bs)

drop-drop : (i m : ℕ) (bs : List ℕ) → drop m (drop i bs) ≡ drop (i + m) bs
drop-drop zero m bs = ap (λ k. drop k bs) (omega arith)
drop-drop (suc i) m [] = drop-nil m ∙ sym (drop-nil (suc i + m))
drop-drop (suc i) m (b ∷ bs) =
    let count : suc i + m ≡ suc (i + m) = omega arith in
    drop-drop i m bs ∙ sym (ap (λ k. drop k (b ∷ bs)) count)

pub slice_append :
    (i m n : ℕ) (bs : List ℕ) → slice i (m + n) bs ≡ slice i m bs ++ slice (i + m) n bs
slice_append i m n bs =
    take_add m n (drop i bs) ∙ ap (λ l. slice i m bs ++ take n l) (drop-drop i m bs)
