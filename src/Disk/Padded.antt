-- ===== src/Disk/Padded.antt =====
-- Blocks of a file that are filled up with zeros, and parts of blocks.
use forge_ann.Prelude.{
  ℕ, zero, suc, ◌+◌, ◌-◌, ◌≤◌, ◌<◌, ◌≡◌, refl, ap, ◌∙◌, sym, List, [], ◌∷◌, length, take, drop,
  replicate, get_or, take-nil, length-append, length-take, length-replicate, arith,
}
use forge_ann.Disk.{overwrite}
use forge_ann.Disk.Overwrite.{overwrite-nil, take-drop-overwrite}
use forge_ann.Disk.Transfer.{padded}

abbrev zeros : ℕ → List ℕ
zeros n = replicate n 0

padded_nil : (n : ℕ) → padded n [] ≡ replicate n 0
padded_nil n = let q : n - 0 ≡ n = omega arith in rw (take-nil {A = ℕ} n, q)

padded_cons : (n x : ℕ) (xs : List ℕ) → padded (suc n) (x ∷ xs) ≡ x ∷ padded n xs
padded_cons n x xs = let q : suc n - suc (length xs) ≡ n - length xs = omega arith in rw q

padded_zero : (xs : List ℕ) → padded 0 xs ≡ []
padded_zero xs = let q : 0 - length xs ≡ 0 = omega arith in rw q

pub length-padded : (n : ℕ) (xs : List ℕ) → length (padded n xs) ≡ n
length-padded n xs = omega (
  arith,
  length-append {0} (take n xs) (replicate (n - length xs) 0),
  length-take n xs,
  length-replicate {0} {A = ℕ} (n - length xs) 0,
)

drop-replicate : (k n : ℕ) → k ≤ n → drop k (zeros n) ≡ zeros (n - k)
drop-replicate zero n h = ap zeros (omega arith)
drop-replicate (suc k) zero h = absurd (omega arith)
drop-replicate (suc k) (suc n) h = drop-replicate k n (omega arith) ∙ ap zeros (omega arith)

take-replicate : (k n : ℕ) → k ≤ n → take k (zeros n) ≡ zeros k
take-replicate zero n h = refl
take-replicate (suc k) zero h = absurd (omega arith)
take-replicate (suc k) (suc n) h = ap (λ l. 0 ∷ l) (take-replicate k n (omega arith))

drop_nil : (k : ℕ) → drop {A = ℕ} k [] ≡ []
drop_nil zero = refl
drop_nil (suc k) = refl

pub drop-padded :
    (k n : ℕ) (xs : List ℕ) → k ≤ n → drop k (padded n xs) ≡ padded (n - k) (drop k xs)
drop-padded zero n xs h = ap (λ m. padded m xs) (omega arith)
drop-padded (suc k) zero xs h = absurd (omega arith)
drop-padded (suc k) (suc n) [] h =
    ap (drop (suc k)) (padded_nil (suc n))
    ∙ drop-replicate (suc k) (suc n) h
    ∙ sym (padded_nil (suc n - suc k))
drop-padded (suc k) (suc n) (x ∷ xs) h =
    ap (drop (suc k)) (padded_cons n x xs)
    ∙ drop-padded k n xs (omega arith)
    ∙ ap (λ m. padded m (drop k xs)) (omega arith)

pub take-padded : (k n : ℕ) (xs : List ℕ) → k ≤ n → take k (padded n xs) ≡ padded k xs
take-padded zero n xs h = sym (padded_zero xs)
take-padded (suc k) zero xs h = absurd (omega arith)
take-padded (suc k) (suc n) [] h =
    ap (take (suc k)) (padded_nil (suc n))
    ∙ take-replicate (suc k) (suc n) h
    ∙ sym (padded_nil (suc k))
take-padded (suc k) (suc n) (x ∷ xs) h =
    ap (take (suc k)) (padded_cons n x xs)
    ∙ ap (λ l. x ∷ l) (take-padded k n xs (omega arith))
    ∙ sym (padded_cons k x xs)

get_or-replicate : (n j : ℕ) → get_or (zeros n) j 0 ≡ 0
get_or-replicate zero j = refl
get_or-replicate (suc n) zero = refl
get_or-replicate (suc n) (suc j) = get_or-replicate n j

pub get_or-padded : (n : ℕ) (xs : List ℕ) (j : ℕ) → j < n → get_or (padded n xs) j 0 ≡ get_or xs j 0
get_or-padded zero xs j h = absurd (omega arith)
get_or-padded (suc n) [] j h =
    ap (λ l. get_or l j 0) (padded_nil (suc n)) ∙ get_or-replicate (suc n) j
get_or-padded (suc n) (x ∷ xs) zero h = ap (λ l. get_or l 0 0) (padded_cons n x xs)
get_or-padded (suc n) (x ∷ xs) (suc j) h =
    ap (λ l. get_or l (suc j) 0) (padded_cons n x xs) ∙ get_or-padded n xs j (omega arith)

pub get_or-drop : (k : ℕ) (xs : List ℕ) (j : ℕ) → get_or (drop k xs) j 0 ≡ get_or xs (k + j) 0
get_or-drop zero xs j = ap (λ i. get_or xs i 0) (omega arith)
get_or-drop (suc k) [] j = refl
get_or-drop (suc k) (x ∷ xs) j =
    let q : suc k + j ≡ suc (k + j) = omega arith in rw q (get_or-drop k xs j)

pub get_or-take : (n : ℕ) (xs : List ℕ) (j : ℕ) → j < n → get_or (take n xs) j 0 ≡ get_or xs j 0
get_or-take zero xs j h = absurd (omega arith)
get_or-take (suc n) [] j h = refl
get_or-take (suc n) (x ∷ xs) zero h = refl
get_or-take (suc n) (x ∷ xs) (suc j) h = get_or-take n xs j (omega arith)

pub take-drop-take :
    (n p m : ℕ) (xs : List ℕ) → p + n ≤ m → take n (drop p (take m xs)) ≡ take n (drop p xs)
take-drop-take n p zero xs h = let q : n ≡ 0 = omega arith in rw q
take-drop-take n p (suc m) [] h = refl
take-drop-take zero zero (suc m) (x ∷ xs) h = refl
take-drop-take (suc n) zero (suc m) (x ∷ xs) h =
    ap (λ l. x ∷ l) (take-drop-take n zero m xs (omega arith))
take-drop-take n (suc p) (suc m) (x ∷ xs) h = take-drop-take n p m xs (omega arith)

pub length-overwrite :
    (file : List ℕ) (offset : ℕ) (bytes : List ℕ)
    → offset + length bytes ≤ length file
    → length (overwrite file offset bytes) ≡ length file
unfolding overwrite
length-overwrite file zero [] h = ap length (overwrite-nil file zero)
length-overwrite [] zero (b ∷ bytes) h = absurd (omega arith)
length-overwrite (x ∷ file) zero (b ∷ bytes) h =
    ap suc (length-overwrite file zero bytes (omega arith))
length-overwrite [] (suc offset) bytes h = absurd (omega arith)
length-overwrite (x ∷ file) (suc offset) bytes h =
    ap suc (length-overwrite file offset bytes (omega arith))

pub get_or-overwrite_inside :
    (file : List ℕ) (offset : ℕ) (bytes : List ℕ) (j : ℕ)
    → j < length bytes
    → get_or (overwrite file offset bytes) (offset + j) 0 ≡ get_or bytes j 0
get_or-overwrite_inside file offset bytes j h =
    sym (get_or-drop offset (overwrite file offset bytes) j)
    ∙ sym (get_or-take (length bytes) (drop offset (overwrite file offset bytes)) j h)
    ∙ ap (λ l. get_or l j 0) (take-drop-overwrite file offset bytes)
