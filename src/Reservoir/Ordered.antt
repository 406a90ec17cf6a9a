-- ===== src/Reservoir/Ordered.antt =====
-- The slot list under `Vec::insert` at the upper bound of a hash and `Vec::remove`: both as total
-- functions, and what they keep.
use forge_ann.Prelude.{
  ℕ, zero, suc, ◌≤◌, ◌<◌, ◌≡◌, refl, ◌≢◌, leb, ◌==◌, if◌then◌else◌, Option, none, some, List, [],
  ◌∷◌, length, get_elem?, All, All-imp, insert_at, remove_at, position, partition_point, Bool-cases,
  inl, inr, arith, subst, sym, Option-cases, All-get_elem?,
}
use mathlib.Core.Option.{some-injective}
use forge_ann.Reservoir.{Slot}

-- Insertion behind the last slot of no greater hash.
unfoldable pub ordered_insert : Slot → List Slot → List Slot
ordered_insert s [] = s ∷ []
ordered_insert s (x ∷ xs) = if leb x.hash s.hash then x ∷ ordered_insert s xs else s ∷ x ∷ xs

pub delete_at : ℕ → List Slot → List Slot
delete_at i [] = []
delete_at zero (x ∷ xs) = xs
delete_at (suc i) (x ∷ xs) = x ∷ delete_at i xs

pub find : ℕ → List Slot → Option Slot
find t [] = none
find t (x ∷ xs) = if x.target == t then some x else find t xs

-- The hashes do not fall along the list.
abbrev pub IsSorted : List Slot → Type 0
IsSorted [] = Unit
IsSorted (x ∷ xs) = All (λ (t : Slot). x.hash ≤ t.hash) xs × IsSorted xs

abbrev pub Lacks : ℕ → List Slot → Type 0
Lacks t = All (λ (s : Slot). s.target ≢ t)

-- No target occurs twice.
abbrev pub IsDistinct : List Slot → Type 0
IsDistinct [] = Unit
IsDistinct (x ∷ xs) = Lacks x.target xs × IsDistinct xs

pub insert_at-upper_bound :
    (s : Slot) (xs : List Slot)
    → insert_at (partition_point (λ (x : Slot). leb x.hash s.hash) xs) s xs
      ≡ some (ordered_insert s xs)
unfolding ordered_insert
insert_at-upper_bound s [] = refl
insert_at-upper_bound s (x ∷ xs) = ground (arith, insert_at-upper_bound s xs)

pub remove_at-delete_at :
    (i : ℕ) (xs : List Slot) → i < length xs → remove_at i xs ≡ some (delete_at i xs)
unfolding delete_at
remove_at-delete_at i [] h = absurd (omega arith)
remove_at-delete_at zero (x ∷ xs) h = refl
remove_at-delete_at (suc i) (x ∷ xs) h = ground (arith, remove_at-delete_at i xs)

pub length-ordered_insert :
    (s : Slot) (xs : List Slot) → length (ordered_insert s xs) ≡ suc (length xs)
unfolding ordered_insert
length-ordered_insert s [] = refl
length-ordered_insert s (x ∷ xs) = ground (arith, length-ordered_insert s xs)

pub length-delete_at :
    (i : ℕ) (xs : List Slot) → i < length xs → suc (length (delete_at i xs)) ≡ length xs
unfolding delete_at
length-delete_at i [] h = absurd (omega arith)
length-delete_at zero (x ∷ xs) h = refl
length-delete_at (suc i) (x ∷ xs) h = omega (arith, length-delete_at i xs)

module _ {ℓ} (P : Slot → Type ℓ) where
  pub All-ordered_insert :
      (s : Slot) (xs : List Slot) → P s → All P xs → All P (ordered_insert s xs)
  unfolding ordered_insert
  All-ordered_insert s [] p h = (p, tt)
  All-ordered_insert s (x ∷ xs) p h = ground (arith, All-ordered_insert s xs)

  pub All-delete_at : (i : ℕ) (xs : List Slot) → All P xs → All P (delete_at i xs)
  unfolding delete_at
  All-delete_at i [] h = tt
  All-delete_at zero (x ∷ xs) h = h.1
  All-delete_at (suc i) (x ∷ xs) h = (h.0, All-delete_at i xs h.1)

pub ordered_insert-IsSorted :
    (s : Slot) (xs : List Slot) → IsSorted xs → IsSorted (ordered_insert s xs)
unfolding ordered_insert
ordered_insert-IsSorted s [] h = (tt, tt)
ordered_insert-IsSorted s (x ∷ xs) h = elim (Bool-cases (leb x.hash s.hash)) [
  | inl e ↦ rw e (
    All-ordered_insert (λ t. x.hash ≤ t.hash) s xs (ground arith) h.0,
    ordered_insert-IsSorted s xs h.1,
  )
  | inr e ↦ rw e ((ground arith, All-imp (λ t p. ground arith) xs h.0), h)
]

pub delete_at-IsSorted : (i : ℕ) (xs : List Slot) → IsSorted xs → IsSorted (delete_at i xs)
unfolding delete_at
delete_at-IsSorted i [] h = tt
delete_at-IsSorted zero (x ∷ xs) h = h.1
delete_at-IsSorted (suc i) (x ∷ xs) h =
    (All-delete_at (λ t. x.hash ≤ t.hash) i xs h.0, delete_at-IsSorted i xs h.1)

pub ordered_insert-IsDistinct :
    (s : Slot) (xs : List Slot)
    → Lacks s.target xs
    → IsDistinct xs
    → IsDistinct (ordered_insert s xs)
unfolding ordered_insert
ordered_insert-IsDistinct s [] l h = (tt, tt)
ordered_insert-IsDistinct s (x ∷ xs) l h = elim (Bool-cases (leb x.hash s.hash)) [
  | inl e ↦ rw e (
    All-ordered_insert (λ t. t.target ≢ x.target) s xs (λ p. l.0 (cc)) h.0,
    ordered_insert-IsDistinct s xs l.1 h.1,
  )
  | inr e ↦ rw e (l, h)
]

pub delete_at-IsDistinct : (i : ℕ) (xs : List Slot) → IsDistinct xs → IsDistinct (delete_at i xs)
unfolding delete_at
delete_at-IsDistinct i [] h = tt
delete_at-IsDistinct zero (x ∷ xs) h = h.1
delete_at-IsDistinct (suc i) (x ∷ xs) h =
    (All-delete_at (λ t. t.target ≢ x.target) i xs h.0, delete_at-IsDistinct i xs h.1)

-- The slot taken out was the only one of its target.
pub delete_at-Lacks :
    (i : ℕ) (xs : List Slot) {s : Slot}
    → IsDistinct xs
    → get_elem? xs i ≡ some s
    → Lacks s.target (delete_at i xs)
unfolding delete_at
delete_at-Lacks i [] h e = cc
delete_at-Lacks zero (x ∷ xs) {s} h e =
    subst (λ (y : Slot). Lacks y.target xs) (some-injective _ _ e) h.0
delete_at-Lacks (suc i) (x ∷ xs) h e =
    (λ p. All-get_elem? (λ t. t.target ≢ x.target) xs i h.0 e (sym p), delete_at-Lacks i xs h.1 e)

pub find-of_Lacks : (t : ℕ) (xs : List Slot) → Lacks t xs → find t xs ≡ none
unfolding find
find-of_Lacks t [] h = refl
find-of_Lacks t (x ∷ xs) h = ground (arith, find-of_Lacks t xs)

pub Lacks-of_position :
    (t : ℕ) (xs : List Slot) → position (λ (s : Slot). s.target == t) xs ≡ none → Lacks t xs
Lacks-of_position t [] e = tt
Lacks-of_position t (x ∷ xs) e = ground (arith, Lacks-of_position t xs)

-- `position` finds the slot of a target.
pub get_elem?-position :
    (t : ℕ) (xs : List Slot) {i : ℕ}
    → position (λ (s : Slot). s.target == t) xs ≡ some i
    → (s : Slot) × (get_elem? xs i ≡ some s) × (find t xs ≡ some s) × (s.target ≡ t)
unfolding find
get_elem?-position t [] e = cc
get_elem?-position t (x ∷ xs) {i} e = elim (Bool-cases (x.target == t)) [
  | inl hit ↦ (x, ground arith, ground arith, ground arith)
  | inr miss ↦ elim (Option-cases (position (λ (s : Slot). s.target == t) xs)) [
    | inl n ↦ absurd (ground arith)
    | inr (j, f) ↦
        let (s, g, h, k) = get_elem?-position t xs f in (s, ground arith, ground arith, k)
  ]
]

-- Insertion adds a target that was absent, and deletion takes out one target.
pub find-ordered_insert :
    (t : ℕ) (s : Slot) (xs : List Slot)
    → Lacks s.target xs
    → find t (ordered_insert s xs) ≡ (if s.target == t then some s else find t xs)
unfolding find ordered_insert
find-ordered_insert t s [] h = refl
find-ordered_insert t s (x ∷ xs) h = ground (arith, find-ordered_insert t s xs h.1)

pub find-delete_at :
    (t i : ℕ) (xs : List Slot) {s : Slot}
    → IsDistinct xs
    → get_elem? xs i ≡ some s
    → find t (delete_at i xs) ≡ (if s.target == t then none else find t xs)
unfolding find delete_at
find-delete_at t i [] h e = cc
find-delete_at t zero (x ∷ xs) h e = ground (arith, find-of_Lacks t xs)
find-delete_at t (suc i) (x ∷ xs) {s} h e =
    ground (arith, find-delete_at t i xs h.1 e, All-get_elem? (λ t. t.target ≢ x.target) xs i h.0 e)

pub find-get_elem? :
    (i : ℕ) (xs : List Slot) {s : Slot}
    → IsDistinct xs
    → get_elem? xs i ≡ some s
    → find s.target xs ≡ some s
unfolding find
find-get_elem? i [] h e = cc
find-get_elem? zero (x ∷ xs) h e = ground arith
find-get_elem? (suc i) (x ∷ xs) {s} h e =
    ground (arith, find-get_elem? i xs h.1 e, All-get_elem? (λ t. t.target ≢ x.target) xs i h.0 e)
