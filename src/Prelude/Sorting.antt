-- ===== src/Prelude/Sorting.antt =====
-- `sort_unstable_by`: a sort by a test of order. Elements that compare as equal keep their order here,
-- which the source leaves open.
use Prim.Native.Nat.{ℕ, suc, ◌≤◌}
use mathlib.Core.Path.{◌≡◌, refl, sym, ap, subst, ◌∙◌}
use mathlib.Core.Logic.{◌≢◌, inl, inr}
use mathlib.Core.Bool.{Bool, true, false}
use mathlib.Core.List.{List, [], ◌∷◌, Perm, map}
use mathlib.Core.List.Perm
use native.Mathlib.Nat.{le_trans}
use native.Mathlib.Omega.{arith}
use forge_ann.Prelude.Tests.{if◌then◌else◌, Bool-cases}
use forge_ann.Prelude.Lists.{All, length}

-- No two elements have the same key.
abbrev pub DistinctBy {ℓ} : {A : Type ℓ} → (A → ℕ) → List A → Type 0
DistinctBy key [] = Unit
DistinctBy key (x ∷ xs) = All (λ y. key y ≢ key x) xs × DistinctBy key xs

module _ {ℓ} {A : Type ℓ} (le : A → A → Bool) where
  unfoldable pub insert_by : A → List A → List A
  insert_by x [] = x ∷ []
  insert_by x (y ∷ ys) = let rest = insert_by x ys in if le x y then x ∷ y ∷ ys else y ∷ rest

  unfoldable pub sort_by : List A → List A
  unfolding insert_by
  sort_by [] = []
  sort_by (x ∷ xs) = insert_by x (sort_by xs)

  insert_by-perm : (x : A) (xs : List A) → Perm (insert_by x xs) (x ∷ xs)
  unfolding insert_by
  insert_by-perm x [] = Perm.refl (x ∷ [])
  insert_by-perm x (y ∷ ys) = elim (Bool-cases (le x y)) [
    | inl first ↦ rw first (Perm.refl (x ∷ y ∷ ys))
    | inr later ↦ rw later (Perm.trans (Perm.cons y (insert_by-perm x ys)) (Perm.swap x y ys))
  ]

  pub sort_by-perm : (xs : List A) → Perm (sort_by xs) xs
  unfolding sort_by
  sort_by-perm [] = Perm.refl []
  sort_by-perm (x ∷ xs) = Perm.trans (insert_by-perm x (sort_by xs)) (Perm.cons x (sort_by-perm xs))

  length-insert_by : (x : A) (xs : List A) → length (insert_by x xs) ≡ suc (length xs)
  unfolding insert_by
  length-insert_by x [] = refl
  length-insert_by x (y ∷ ys) = elim (Bool-cases (le x y)) [
    | inl first ↦ rw first refl
    | inr later ↦ rw later (ap suc (length-insert_by x ys))
  ]

  pub length-sort_by : (xs : List A) → length (sort_by xs) ≡ length xs
  unfolding sort_by
  length-sort_by [] = refl
  length-sort_by (x ∷ xs) = length-insert_by x (sort_by xs) ∙ ap suc (length-sort_by xs)

  All-insert_by {κ} :
      (P : A → Type κ) (x : A) (xs : List A) → P x → All P xs → All P (insert_by x xs)
  unfolding insert_by
  All-insert_by P x [] p h = (p, tt)
  All-insert_by P x (y ∷ ys) p (q, h) = elim (Bool-cases (le x y)) [
    | inl first ↦ rw first (p, (q, h))
    | inr later ↦ rw later (q, All-insert_by P x ys p h)
  ]

  pub All-sort_by {κ} : (P : A → Type κ) (xs : List A) → All P xs → All P (sort_by xs)
  unfolding sort_by
  All-sort_by P [] h = tt
  All-sort_by P (x ∷ xs) (p, h) = All-insert_by P x (sort_by xs) p (All-sort_by P xs h)

  All-of_insert_by {κ} :
      (P : A → Type κ) (x : A) (xs : List A) → All P (insert_by x xs) → P x × All P xs
  unfolding insert_by
  All-of_insert_by P x [] (p, h) = (p, tt)
  All-of_insert_by P x (y ∷ ys) a = elim (Bool-cases (le x y)) [
    | inl first ↦
        let h : All P (x ∷ y ∷ ys) =
          subst (λ b. All P (if b then x ∷ y ∷ ys else y ∷ insert_by x ys)) first a in
        h
    | inr later ↦
        let h : All P (y ∷ insert_by x ys) =
          subst (λ b. All P (if b then x ∷ y ∷ ys else y ∷ insert_by x ys)) later a in
        let (p, rest) = All-of_insert_by P x ys h.1 in (p, (h.0, rest))
  ]

  -- What all of the sorted elements have, all have.
  pub All-of_sort_by {κ} : (P : A → Type κ) (xs : List A) → All P (sort_by xs) → All P xs
  unfolding sort_by
  All-of_sort_by P [] h = tt
  All-of_sort_by P (x ∷ xs) h =
      let (p, rest) = All-of_insert_by P x (sort_by xs) h in (p, All-of_sort_by P xs rest)

  insert_by-DistinctBy :
      (key : A → ℕ) (x : A) (xs : List A)
      → DistinctBy key (x ∷ xs)
      → DistinctBy key (insert_by x xs)
  unfolding insert_by
  insert_by-DistinctBy key x [] d = d
  insert_by-DistinctBy key x (y ∷ ys) ((n, a), (b, d)) = elim (Bool-cases (le x y)) [
    | inl first ↦ rw first ((n, a), (b, d))
    | inr later ↦ rw later (
      All-insert_by (λ z. key z ≢ key y) x ys (λ q. n (sym q)) b,
      insert_by-DistinctBy key x ys (a, d),
    )
  ]

  pub sort_by-DistinctBy :
      (key : A → ℕ) (xs : List A) → DistinctBy key xs → DistinctBy key (sort_by xs)
  unfolding sort_by
  sort_by-DistinctBy key [] d = tt
  sort_by-DistinctBy key (x ∷ xs) (n, d) =
      insert_by-DistinctBy key x (sort_by xs)
        (All-sort_by (λ z. key z ≢ key x) xs n, sort_by-DistinctBy key xs d)

-- The keys do not fall, and none is below `lo`.
abbrev pub Ascends {ℓ} : {A : Type ℓ} → (A → ℕ) → ℕ → List A → Type 0
Ascends key lo [] = Unit
Ascends key lo (x ∷ xs) = (lo ≤ key x) × Ascends key (key x) xs

pub Ascends-weaken {ℓ} :
    {A : Type ℓ} (key : A → ℕ) (lo hi : ℕ) (xs : List A)
    → lo ≤ hi
    → Ascends key hi xs
    → Ascends key lo xs
Ascends-weaken key lo hi [] h a = tt
Ascends-weaken key lo hi (x ∷ xs) h (k, a) = (le_trans h k, a)

-- A sort whose test decides by a key first.
module _ {ℓ} {A : Type ℓ} (le : A → A → Bool) (key : A → ℕ)
    (below : (x y : A) → le x y ≡ true → key x ≤ key y)
    (above : (x y : A) → le x y ≡ false → key y ≤ key x) where
  insert_by-Ascends :
      (lo : ℕ) (x : A) (xs : List A)
      → lo ≤ key x
      → Ascends key lo xs
      → Ascends key lo (insert_by le x xs)
  unfolding insert_by
  insert_by-Ascends lo x [] h a = (h, tt)
  insert_by-Ascends lo x (y ∷ ys) h (k, a) = elim (Bool-cases (le x y)) [
    | inl first ↦ rw first (h, (below x y first, a))
    | inr later ↦ rw later (k, insert_by-Ascends (key y) x ys (above x y later) a)
  ]

  pub sort_by-Ascends : (xs : List A) → Ascends key 0 (sort_by le xs)
  unfolding sort_by
  sort_by-Ascends [] = tt
  sort_by-Ascends (x ∷ xs) =
      insert_by-Ascends 0 x (sort_by le xs) (omega arith) (sort_by-Ascends xs)

-- Sorting commutes with a map that keeps the test.
module _ {ℓ κ} {A : Type ℓ} {B : Type κ} (f : A → B) (le : A → A → Bool) (le' : B → B → Bool)
    (same : (x y : A) → le x y ≡ le' (f x) (f y)) where
  map-insert_by : (x : A) (xs : List A) → map f (insert_by le x xs) ≡ insert_by le' (f x) (map f xs)
  unfolding insert_by
  map-insert_by x [] = refl
  map-insert_by x (y ∷ xs) = elim (Bool-cases (le x y)) [
    | inl first ↦ rw (first, ← same x y, first) refl
    | inr later ↦ rw (later, ← same x y, later, map-insert_by x xs) refl
  ]

  pub map-sort_by : (xs : List A) → map f (sort_by le xs) ≡ sort_by le' (map f xs)
  unfolding sort_by
  map-sort_by [] = refl
  map-sort_by (x ∷ xs) = map-insert_by x (sort_by le xs) ∙ ap (insert_by le' (f x)) (map-sort_by xs)
