-- ===== src/Sampling/Canonical.antt =====
-- The ids without repetition, sorted, are determined by which ids there are.
use forge_ann.Prelude.{
  ◌⊎◌, ℕ, suc, ◌≤◌, ◌<◌, ◌≡◌, refl, sym, subst, ◌∙◌, true, false, ltb, leb, ◌==◌, Bool-cases, inl,
  inr, List, [], ◌∷◌, map, contains, arith,
}
use forge_ann.Prelude.Sorting.{sort_by, Ascends, sort_by-Ascends}
use forge_ann.Prelude.Entries.{enumerate_from, dedup_after, dedup_by_id, has_key, has_key_unique}
use forge_ann.Sampling.{by_id_then_place, unique}

-- Ids that rise strictly from `low` on.
abbrev pub Rises : ℕ → List ℕ → Type 0
Rises low [] = Unit
Rises low (x ∷ xs) = (low ≤ x) × Rises (suc x) xs

abbrev pub ids_of : List (ℕ × ℕ) → List ℕ
ids_of = map (λ e. e.0)

contains-Rises : (low x : ℕ) (xs : List ℕ) → Rises low xs → x < low → contains x xs ≡ false
contains-Rises low x [] r h = refl
contains-Rises low x (y ∷ xs) (k, r) h = ground (arith, contains-Rises (suc y) x xs r (omega arith))

pub Rises-unique :
    (low : ℕ) (xs ys : List ℕ)
    → Rises low xs
    → Rises low ys
    → ((x : ℕ) → contains x xs ≡ contains x ys)
    → xs ≡ ys
Rises-unique low [] [] r q h = refl
Rises-unique low [] (y ∷ ys) r q h = absurd (ground (arith, h y))
Rises-unique low (x ∷ xs) [] r q h = absurd (ground (arith, h x))
Rises-unique low (x ∷ xs) (y ∷ ys) (k, r) (l, q) h = elim (Bool-cases (x == y)) [
  | inl same ↦
      let e : x ≡ y = ground arith in
      let rest : (z : ℕ) → contains z xs ≡ contains z ys = λ z. behind z (Bool-cases (leb z x)) e in
      rw (e, Rises-unique (suc x) xs ys r (rw e q) rest) refl
  | inr other ↦ elim (Bool-cases (ltb x y)) [
    | inl below ↦
        absurd (ground (arith, h x, contains-Rises y x (y ∷ ys) (omega arith, q) (ground arith)))
    | inr above ↦
        absurd (ground (arith, h y, contains-Rises x y (x ∷ xs) (omega arith, r) (ground arith)))
  ]
]
  where
    behind : (z : ℕ) → (leb z x ≡ true) ⊎ (leb z x ≡ false) → x ≡ y → contains z xs ≡ contains z ys
    behind z (inl low_z) e =
        contains-Rises (suc x) z xs r (ground arith)
        ∙ sym (contains-Rises (suc y) z ys q (ground arith))
    behind z (inr high_z) e = ground (arith, h z)

dedup_after-Rises :
    (key : ℕ) (entries : List (ℕ × ℕ))
    → Ascends (λ e. e.0) key entries
    → Rises (suc key) (ids_of (dedup_after key entries))
unfolding dedup_after
dedup_after-Rises key [] a = tt
dedup_after-Rises key (e ∷ entries) (k, a) = elim (Bool-cases (e.0 == key)) [
  | inl same ↦
      let q : e.0 ≡ key = ground arith in
      rw same (dedup_after-Rises key entries (subst (λ t. Ascends (λ f. f.0) t entries) q a))
  | inr other ↦ rw other (ground arith, dedup_after-Rises e.0 entries a)
]

contains-ids_of : (x : ℕ) (entries : List (ℕ × ℕ)) → contains x (ids_of entries) ≡ has_key x entries
unfolding has_key
contains-ids_of x [] = refl
contains-ids_of x (e ∷ entries) = rw (contains-ids_of x entries) refl

pub unique-Rises : (ids : List ℕ) → Rises 0 (ids_of (unique ids))
unfolding unique dedup_by_id
unique-Rises ids = first (sort_by by_id_then_place (enumerate_from 0 ids)) (
    sort_by-Ascends by_id_then_place (λ e. e.0) (λ x y e. ground arith) (λ x y e. ground arith)
      (enumerate_from 0 ids))
  where
    first :
        (entries : List (ℕ × ℕ))
        → Ascends (λ e. e.0) 0 entries
        → Rises 0 (ids_of (dedup_by_id entries))
    first [] a = tt
    first (e ∷ entries) (k, a) = (k, dedup_after-Rises e.0 entries a)

pub contains-unique : (x : ℕ) (ids : List ℕ) → contains x (ids_of (unique ids)) ≡ contains x ids
unfolding unique
contains-unique x ids = contains-ids_of x (unique ids) ∙ has_key_unique by_id_then_place x ids

pub unique_lem :
    (xs ys : List ℕ)
    → ((x : ℕ) → contains x xs ≡ contains x ys)
    → ids_of (unique xs) ≡ ids_of (unique ys)
unique_lem xs ys h =
    Rises-unique 0 (ids_of (unique xs)) (ids_of (unique ys)) (unique-Rises xs) (unique-Rises ys)
      (λ x. contains-unique x xs ∙ h x ∙ sym (contains-unique x ys))
