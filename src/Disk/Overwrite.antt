-- ===== src/Disk/Overwrite.antt =====
-- Writes over a list of bytes: in a row, behind a prefix, and what they leave alone.
use forge_ann.Prelude.{
  ℕ, zero, suc, ◌+◌, ◌≤◌, ◌<◌, ◌≡◌, refl, ap, List, [], ◌∷◌, ◌++◌, length, take, drop, get_or, ◌⊎◌,
  inr, arith,
}
use forge_ann.Disk.{overwrite}

pub overwrite-nil : (file : List ℕ) (offset : ℕ) → overwrite file offset [] ≡ file
unfolding overwrite
overwrite-nil file zero = refl
overwrite-nil [] (suc offset) = refl
overwrite-nil (x ∷ file) (suc offset) = ap (λ l. x ∷ l) (overwrite-nil file offset)

-- Two writes in a row are one.
pub overwrite-overwrite :
    (file : List ℕ) (offset : ℕ) (xs ys : List ℕ)
    → overwrite (overwrite file offset xs) (offset + length xs) ys
      ≡ overwrite file offset (xs ++ ys)
unfolding overwrite
overwrite-overwrite file zero [] ys =
    let q : zero + zero ≡ zero = omega arith in rw (overwrite-nil file zero, q)
overwrite-overwrite [] zero (b ∷ xs) ys =
    let q : zero + suc (length xs) ≡ suc (zero + length xs) = omega arith in
    rw q (ap (λ l. b ∷ l) (overwrite-overwrite [] zero xs ys))
overwrite-overwrite (x ∷ file) zero (b ∷ xs) ys =
    let q : zero + suc (length xs) ≡ suc (zero + length xs) = omega arith in
    rw q (ap (λ l. b ∷ l) (overwrite-overwrite file zero xs ys))
overwrite-overwrite [] (suc offset) [] ys =
    let q : suc offset + zero ≡ suc offset = omega arith in rw q
overwrite-overwrite [] (suc offset) (b ∷ xs) ys =
    let q : suc offset + suc (length xs) ≡ suc (offset + suc (length xs)) = omega arith in
    rw q (ap (λ l. 0 ∷ l) (overwrite-overwrite [] offset (b ∷ xs) ys))
overwrite-overwrite (x ∷ file) (suc offset) xs ys =
    let q : suc offset + length xs ≡ suc (offset + length xs) = omega arith in
    rw q (ap (λ l. x ∷ l) (overwrite-overwrite file offset xs ys))

pub overwrite-append :
    (xs file : List ℕ) (offset : ℕ) (bytes : List ℕ)
    → overwrite (xs ++ file) (length xs + offset) bytes ≡ xs ++ overwrite file offset bytes
unfolding overwrite
overwrite-append [] file offset bytes = let q : zero + offset ≡ offset = omega arith in rw q
overwrite-append (x ∷ xs) file offset bytes =
    let q : suc (length xs) + offset ≡ suc (length xs + offset) = omega arith in
    rw q (ap (λ l. x ∷ l) (overwrite-append xs file offset bytes))

pub overwrite_prefix :
    (xs file bytes : List ℕ)
    → length xs ≡ length bytes
    → overwrite (xs ++ file) 0 bytes ≡ bytes ++ file
unfolding overwrite
overwrite_prefix [] file [] e = refl
overwrite_prefix [] file (b ∷ bytes) e = absurd (omega arith)
overwrite_prefix (x ∷ xs) file [] e = absurd (omega arith)
overwrite_prefix (x ∷ xs) file (b ∷ bytes) e =
    ap (λ l. b ∷ l) (overwrite_prefix xs file bytes (omega arith))

-- What was written is read back.
pub take-drop-overwrite :
    (file : List ℕ) (offset : ℕ) (bytes : List ℕ)
    → take (length bytes) (drop offset (overwrite file offset bytes)) ≡ bytes
unfolding overwrite
take-drop-overwrite file zero [] = refl
take-drop-overwrite [] zero (b ∷ bytes) = ap (λ l. b ∷ l) (take-drop-overwrite [] zero bytes)
take-drop-overwrite (x ∷ file) zero (b ∷ bytes) =
    ap (λ l. b ∷ l) (take-drop-overwrite file zero bytes)
take-drop-overwrite [] (suc offset) [] = refl
take-drop-overwrite [] (suc offset) (b ∷ bytes) = take-drop-overwrite [] offset (b ∷ bytes)
take-drop-overwrite (x ∷ file) (suc offset) bytes = take-drop-overwrite file offset bytes

-- A write changes no byte outside its range, where a byte behind the end reads as zero.
pub get_or-overwrite_outside :
    (file : List ℕ) (offset : ℕ) (bytes : List ℕ) (i : ℕ)
    → (i < offset) ⊎ (offset + length bytes ≤ i)
    → get_or (overwrite file offset bytes) i 0 ≡ get_or file i 0
unfolding overwrite
get_or-overwrite_outside file zero [] i h = rw (overwrite-nil file zero)
get_or-overwrite_outside [] zero (b ∷ bytes) zero h = absurd (omega arith)
get_or-overwrite_outside [] zero (b ∷ bytes) (suc i) h =
    get_or-overwrite_outside [] zero bytes i (inr (omega arith))
get_or-overwrite_outside (x ∷ file) zero (b ∷ bytes) zero h = absurd (omega arith)
get_or-overwrite_outside (x ∷ file) zero (b ∷ bytes) (suc i) h =
    get_or-overwrite_outside file zero bytes i (inr (omega arith))
get_or-overwrite_outside [] (suc offset) [] i h = refl
get_or-overwrite_outside [] (suc offset) (b ∷ bytes) zero h = refl
get_or-overwrite_outside [] (suc offset) (b ∷ bytes) (suc i) h =
    get_or-overwrite_outside [] offset (b ∷ bytes) i (omega arith)
get_or-overwrite_outside (x ∷ file) (suc offset) bytes zero h = refl
get_or-overwrite_outside (x ∷ file) (suc offset) bytes (suc i) h =
    get_or-overwrite_outside file offset bytes i (omega arith)
