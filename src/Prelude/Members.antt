-- ===== src/Prelude/Members.antt =====
-- Membership in a list of numbers as a test, and lists without repetition.
use Prim.Native.Nat.{ℕ}
use mathlib.Core.Path.{◌≡◌, refl, subst, sym}
use mathlib.Core.Logic.{◌≢◌, inl, inr}
use mathlib.Core.Bool.{Bool, true, false, ◌||◌}
use mathlib.Core.List.{List, [], ◌∷◌, ◌++◌}
use native.Mathlib.Omega.{arith}
use forge_ann.Prelude.Tests.{◌==◌, Bool-cases}
use forge_ann.Prelude.Lists.{All, All-imp}

-- `slice::contains`
abbrev pub contains : ℕ → List ℕ → Bool
contains x [] = false
contains x (y ∷ ys) = (y == x) || contains x ys

abbrev pub AreDistinct : List ℕ → Type 0
AreDistinct [] = Unit
AreDistinct (x ∷ xs) = All (λ y. y ≢ x) xs × AreDistinct xs

-- Every element of the second list is one of the first.
abbrev pub Within : List ℕ → List ℕ → Type 0
Within ys xs = All (λ x. contains x ys ≡ true) xs

pub contains_refl : (x : ℕ) (ys : List ℕ) → contains x (x ∷ ys) ≡ true
contains_refl x ys = ground arith

pub contains_weaken : (x y : ℕ) (ys : List ℕ) → contains x ys ≡ true → contains x (y ∷ ys) ≡ true
contains_weaken x y ys h = ground arith

pub Within-weaken : (y : ℕ) (ys xs : List ℕ) → Within ys xs → Within (y ∷ ys) xs
Within-weaken y ys xs h = All-imp (λ x k. contains_weaken x y ys k) xs h

pub Within-refl : (xs : List ℕ) → Within xs xs
Within-refl [] = tt
Within-refl (x ∷ xs) = (contains_refl x xs, Within-weaken x xs xs (Within-refl xs))

-- An element of a list has what all of them have.
pub All-contains {κ} :
    (P : ℕ → Type κ) (xs : List ℕ) (x : ℕ) → All P xs → contains x xs ≡ true → P x
All-contains P [] x h e = cc
All-contains P (y ∷ xs) x (p, ps) e = elim (Bool-cases (y == x)) [
  | inl same ↦ let q : y ≡ x = ground arith in subst P q p
  | inr other ↦ All-contains P xs x ps (ground arith)
]

pub Absent-of_contains : (xs : List ℕ) (x : ℕ) → contains x xs ≡ false → All (λ y. y ≢ x) xs
Absent-of_contains [] x e = tt
Absent-of_contains (y ∷ xs) x e =
    (λ q. absurd (ground arith), Absent-of_contains xs x (ground arith))

pub All-append {ℓ κ} :
    {A : Type ℓ} (P : A → Type κ) (xs ys : List A) → All P xs → All P ys → All P (xs ++ ys)
All-append P [] ys h k = k
All-append P (x ∷ xs) ys (p, h) k = (p, All-append P xs ys h k)

pub AreDistinct-append_one :
    (xs : List ℕ) (x : ℕ) → AreDistinct xs → All (λ y. y ≢ x) xs → AreDistinct (xs ++ (x ∷ []))
AreDistinct-append_one [] x h k = (tt, tt)
AreDistinct-append_one (y ∷ xs) x (l, h) (n, k) =
    (All-append (λ z. z ≢ y) xs (x ∷ []) l ((λ q. n (sym q)), tt), AreDistinct-append_one xs x h k)

pub All-of_append {ℓ κ} :
    {A : Type ℓ} (P : A → Type κ) (xs ys : List A) → All P (xs ++ ys) → All P xs × All P ys
All-of_append P [] ys h = (tt, h)
All-of_append P (x ∷ xs) ys (p, h) = let (hs, k) = All-of_append P xs ys h in ((p, hs), k)

pub contains-append :
    (x : ℕ) (xs ys : List ℕ) → contains x (xs ++ ys) ≡ (contains x xs || contains x ys)
contains-append x [] ys = refl
contains-append x (y ∷ xs) ys =
    rw (contains-append x xs ys) (join (y == x) (contains x xs) (contains x ys))
  where
    join : (a b c : Bool) → (a || (b || c)) ≡ ((a || b) || c)
    join true b c = refl
    join false b c = refl

pub Within-trans : (xs ys zs : List ℕ) → Within zs ys → Within ys xs → Within zs xs
Within-trans xs ys zs a b = All-imp (λ x h. found ys x a h) xs b
  where
    found : (us : List ℕ) (x : ℕ) → Within zs us → contains x us ≡ true → contains x zs ≡ true
    found [] x w h = cc
    found (u ∷ us) x (p, w) h = elim (Bool-cases (u == x)) [
      | inl same ↦ let q : u ≡ x = ground arith in subst (λ k. contains k zs ≡ true) q p
      | inr other ↦ let rest : contains x us ≡ true = ground arith in found us x w rest
    ]
