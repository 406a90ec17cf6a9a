-- ===== src/Sampling/Taken.antt =====
-- The first of pairs that are sorted by their scores: what is taken and what is not.
use forge_ann.Prelude.{
  ◌⊎◌, ℕ, zero, suc, ◌≤◌, ◌≡◌, ◌≢◌, true, inl, inr, List, [], ◌∷◌, map, take, contains,
  contains_refl, contains_weaken, AreDistinct, All, All-imp, All-take, arith,
}
use native.Mathlib.Nat.{le_trans}
use forge_ann.Prelude.Sorting.{Ascends, DistinctBy}
use forge_ann.Sampling.Canonical.{Rises}

abbrev pub Pair : Type 0
Pair = ℕ × ℕ

Rises-low : (low : ℕ) (xs : List ℕ) → Rises low xs → All (λ x. low ≤ x) xs
Rises-low low [] r = tt
Rises-low low (x ∷ xs) (h, r) =
    (h, All-imp (λ y (k : suc x ≤ y). omega arith) xs (Rises-low (suc x) xs r))

pub Rises-AreDistinct : (low : ℕ) (xs : List ℕ) → Rises low xs → AreDistinct xs
Rises-AreDistinct low [] r = tt
Rises-AreDistinct low (x ∷ xs) (h, r) = (
  All-imp (λ y (k : suc x ≤ y). λ q. absurd (omega arith)) xs (Rises-low (suc x) xs r),
  Rises-AreDistinct (suc x) xs r,
)

abbrev pub seconds : List Pair → List ℕ
seconds = map (λ p. p.1)

pub All-seconds : (P : ℕ → Type 0) (xs : List Pair) → All (λ p. P p.1) xs → All P (seconds xs)
All-seconds P [] a = tt
All-seconds P (x ∷ xs) (p, a) = (p, All-seconds P xs a)

pub seconds-AreDistinct : (xs : List Pair) → DistinctBy (λ p. p.1) xs → AreDistinct (seconds xs)
seconds-AreDistinct [] d = tt
seconds-AreDistinct (x ∷ xs) (n, d) = (All-seconds (λ y. y ≢ x.1) xs n, seconds-AreDistinct xs d)

pub take-DistinctBy :
    (k : ℕ) (xs : List Pair) → DistinctBy (λ p. p.1) xs → DistinctBy (λ p. p.1) (take k xs)
take-DistinctBy zero xs d = tt
take-DistinctBy (suc k) [] d = tt
take-DistinctBy (suc k) (x ∷ xs) (n, d) = (All-take _ k xs n, take-DistinctBy k xs d)

-- The pair is taken, or none of those taken is above it.
abbrev pub IsKept : List Pair → Pair → Type 0
IsKept taken p = (contains p.1 (seconds taken) ≡ true) ⊎ All (λ (q : Pair). q.0 ≤ p.0) taken

IsKept-cons :
    (x : Pair) (taken rest : List Pair)
    → All (λ (p : Pair). x.0 ≤ p.0) rest
    → All (IsKept taken) rest
    → All (IsKept (x ∷ taken)) rest
IsKept-cons x taken [] low a = tt
IsKept-cons x taken (p ∷ rest) (l, low) (inl there, a) =
    (inl (contains_weaken p.1 x.1 (seconds taken) there), IsKept-cons x taken rest low a)
IsKept-cons x taken (p ∷ rest) (l, low) (inr above, a) =
    (inr (l, above), IsKept-cons x taken rest low a)

Ascends-low : (lo : ℕ) (xs : List Pair) → Ascends (λ p. p.0) lo xs → All (λ (p : Pair). lo ≤ p.0) xs
Ascends-low lo [] a = tt
Ascends-low lo (x ∷ xs) (h, a) =
    (h, All-imp (λ p (k : x.0 ≤ p.0). le_trans h k) xs (Ascends-low x.0 xs a))

nothing-IsKept : (xs : List Pair) → All (IsKept []) xs
nothing-IsKept [] = tt
nothing-IsKept (x ∷ xs) = (inr tt, nothing-IsKept xs)

pub take-IsKept :
    (k lo : ℕ) (xs : List Pair) → Ascends (λ p. p.0) lo xs → All (IsKept (take k xs)) xs
take-IsKept zero lo xs a = nothing-IsKept xs
take-IsKept (suc k) lo [] a = tt
take-IsKept (suc k) lo (x ∷ xs) (h, a) = (
  inl (contains_refl x.1 (seconds (take k xs))),
  IsKept-cons x (take k xs) xs (Ascends-low x.0 xs a) (take-IsKept k x.0 xs a),
)
