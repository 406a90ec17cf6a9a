-- ===== src/Reservoir/Run.antt =====
-- The slots of one hash, between its lower and its upper bound, and the loop over them.
use mathlib.Core.Option.{some-injective}
use native.Mathlib.Decide.{ℕ_discrete}
use forge_ann.Prelude.{
  ℕ, zero, suc, ◌+◌, ◌≤◌, ◌<◌, ◌≡◌, refl, sym, ltb, leb, if◌then◌else◌, some, List, [], ◌∷◌, length,
  get_elem?, All, All-get_elem?, All-of_get_elem?, lt_of_get_elem?, get_elem?_of_lt, arith, ap, ◌∙◌,
  partition_point, ◌⊎◌, inl, inr, ◌≢◌, none, Option, partition_point-le-length, ◌-◌, Option-cases,
  false,
}
use forge_ann.Float32.{key, is_nan, f32_lt, to_f32}
use forge_ann.Float32.Bounds.{key_of_f32_lt, key_of_not_f32_lt}
use forge_ann.Reservoir.{Slot, farthest_same_hash}
use forge_ann.Reservoir.Ordered.{IsSorted}
use forge_ann.Reservoir.Farthest.{distance, distance_at, IsNumber}

abbrev pub lower : ℕ → List Slot → ℕ
lower h xs = partition_point (λ (s : Slot). ltb s.hash h) xs

abbrev pub upper : ℕ → List Slot → ℕ
upper h xs = partition_point (λ (s : Slot). leb s.hash h) xs

pub distance_at-get_elem? :
    (xs : List Slot) (i : ℕ) {s : Slot} → get_elem? xs i ≡ some s → distance_at xs i ≡ distance s
distance_at-get_elem? [] i e = cc
distance_at-get_elem? (x ∷ xs) zero e = ap distance (some-injective _ _ e)
distance_at-get_elem? (x ∷ xs) (suc i) e = distance_at-get_elem? xs i e

hash-le-of_upper :
    (h i : ℕ) (xs : List Slot) {s : Slot} → get_elem? xs i ≡ some s → i < upper h xs → s.hash ≤ h
hash-le-of_upper h i [] e l = cc
hash-le-of_upper h zero (x ∷ xs) e l = ground arith
hash-le-of_upper h (suc i) (x ∷ xs) e l = ground (arith, hash-le-of_upper h i xs e)

hash-ge-of_lower :
    (h i : ℕ) (xs : List Slot) {s : Slot}
    → IsSorted xs
    → get_elem? xs i ≡ some s
    → lower h xs ≤ i
    → h ≤ s.hash
hash-ge-of_lower h i [] o e l = cc
hash-ge-of_lower h zero (x ∷ xs) o e l = ground arith
hash-ge-of_lower h (suc i) (x ∷ xs) o e l =
    ground (
      arith,
      hash-ge-of_lower h i xs o.1 e,
      All-get_elem? (λ (t : Slot). x.hash ≤ t.hash) xs i o.0 e,
    )

-- Every slot of the hash stands in the run.
run_covers :
    (h i : ℕ) (xs : List Slot) {s : Slot}
    → IsSorted xs
    → get_elem? xs i ≡ some s
    → s.hash ≡ h
    → (lower h xs ≤ i) × (i < upper h xs)
run_covers h i [] o e p = cc
run_covers h zero (x ∷ xs) o e p = ground arith
run_covers h (suc i) (x ∷ xs) o e p =
    ground
      (arith, run_covers h i xs o.1 e p, All-get_elem? (λ (t : Slot). x.hash ≤ t.hash) xs i o.0 e)

pub hash-of_run :
    (h i : ℕ) (xs : List Slot) {s : Slot}
    → IsSorted xs
    → get_elem? xs i ≡ some s
    → lower h xs ≤ i
    → i < upper h xs
    → s.hash ≡ h
hash-of_run h i xs o e l u =
    omega (arith, hash-le-of_upper h i xs e u, hash-ge-of_lower h i xs o e l)

-- No slot has the hash if the one at its lower bound does not.
abbrev pub Misses : ℕ → List Slot → Type 0
Misses h xs =
    (get_elem? xs (lower h xs) ≡ none)
    ⊎ ((s : Slot) × (get_elem? xs (lower h xs) ≡ some s) × (s.hash ≢ h))

Misses-hash :
    (h i : ℕ) (xs : List Slot) {s : Slot}
    → IsSorted xs
    → Misses h xs
    → get_elem? xs i ≡ some s
    → s.hash ≢ h
Misses-hash h i xs o (inl gone) e p =
    let (l, u) = run_covers h i xs o e p in
    let (t, f) = get_elem?_of_lt xs (lower h xs) (omega (arith, lt_of_get_elem? xs i e)) in cc
Misses-hash h i xs o (inr (t, f, other)) e p =
    let (l, u) = run_covers h i xs o e p in
    other (hash-of_run h (lower h xs) xs o f (omega arith) (omega arith))

pub no_run :
    (h : ℕ) (xs : List Slot) → IsSorted xs → Misses h xs → All (λ (s : Slot). s.hash ≢ h) xs
no_run h xs o m = All-of_get_elem? (λ (s : Slot). s.hash ≢ h) xs (λ i s e. Misses-hash h i xs o m e)

-- The loop stays in the list and ends with the index and distance of a slot that it saw.
pub farthest_same_hash_held :
    (slots : List Slot) (n idx best_idx best : ℕ)
    → idx + n ≤ length slots
    → (j d : ℕ) × (farthest_same_hash slots n idx best_idx best ≡ some (j, d))
      × (((j ≡ best_idx) × (d ≡ best)) ⊎ ((idx ≤ j) × (j < idx + n) × (distance_at slots j ≡ d)))
unfolding farthest_same_hash
farthest_same_hash_held slots zero idx best_idx best h = (best_idx, best, refl, inl (refl, refl))
farthest_same_hash_held slots (suc n) idx best_idx best h =
    let (s, e) = get_elem?_of_lt slots idx (omega arith) in
    let f = f32_lt best (to_f32 s.dist) in
    let (j, d, r, m) =
      farthest_same_hash_held slots n (idx + 1) (if f then idx else best_idx)
        (if f then to_f32 s.dist else best) (omega arith) in
    (j, d, rw (e, farthest_same_hash) r, ground (arith, distance_at-get_elem? slots idx e))

-- None of the slots that it saw is farther, if none is a NaN.
pub farthest_same_hash_most :
    (slots : List Slot) (n idx best_idx best j d : ℕ)
    → All IsNumber slots
    → is_nan best ≡ false
    → farthest_same_hash slots n idx best_idx best ≡ some (j, d)
    → (key best ≤ key d) × ((i : ℕ) → idx ≤ i → i < idx + n → key (distance_at slots i) ≤ key d)
unfolding farthest_same_hash
farthest_same_hash_most slots zero idx best_idx best j d a nan e =
    (ground arith, λ i l u. absurd (omega arith))
farthest_same_hash_most slots (suc n) idx best_idx best j d a nan e =
    elim (Option-cases (get_elem? slots idx)) [
      | inl gone ↦ absurd (ground arith)
      | inr (s, f) ↦
          let far = f32_lt best (to_f32 s.dist) in
          let number : IsNumber s = All-get_elem? IsNumber slots idx a f in
          let rest : farthest_same_hash slots n (idx + 1) (if far then idx else best_idx)
                (if far then to_f32 s.dist else best)
              ≡ some (j, d) =
            ground arith in
          let nan' : is_nan (if far then to_f32 s.dist else best) ≡ false = ground arith in
          let (k, m) = farthest_same_hash_most slots n (idx + 1) _ _ j d a nan' rest in
          let both : (key best ≤ key d) × (key (distance s) ≤ key d) =
            ground
              (arith, key_of_f32_lt best (to_f32 s.dist), key_of_not_f32_lt best (to_f32 s.dist)) in
          (
            both.0,
            λ i l u. elim (ℕ_discrete i idx) [
              | yes q ↦ rw q (omega (arith, ap key (distance_at-get_elem? slots idx f), both.1))
              | no q ↦ m i (omega arith) (omega arith)
            ],
          )
    ]

-- No slot of the hash is farther than `s`.
abbrev pub FarthestOf : ℕ → Slot → List Slot → Type 0
FarthestOf hash s = All (λ (x : Slot). x.hash ≡ hash → key (distance x) ≤ key (distance s))

-- The loop over the run of a hash finds its farthest slot.
module _ (h : ℕ) (xs : List Slot) {first : Slot} (o : IsSorted xs)
    (e : get_elem? xs (lower h xs) ≡ some first) (p : first.hash ≡ h) where
  abbrev run_loop : Option (ℕ × ℕ)
  run_loop =
      farthest_same_hash xs (upper h xs - (lower h xs + 1)) (lower h xs + 1) (lower h xs)
        (distance first)

  run_farthest_place :
      (j d : ℕ)
      → ((j ≡ lower h xs) × (d ≡ distance first))
        ⊎ ((lower h xs + 1 ≤ j)
            × (j < lower h xs + 1 + (upper h xs - (lower h xs + 1)))
            × (distance_at xs j ≡ d))
      → (lower h xs ≤ j) × (j < upper h xs) × (distance_at xs j ≡ d)
  run_farthest_place j d (inl (x, y)) =
      let (l, u) = run_covers h (lower h xs) xs o e p in
      (omega arith, omega arith, ap (distance_at xs) x ∙ distance_at-get_elem? xs _ e ∙ sym y)
  run_farthest_place j d (inr (x, y, z)) = (omega arith, omega arith, z)

  run_farthest_most :
      (j : ℕ) (s : Slot) → run_loop ≡ some (j, distance s) → All IsNumber xs → FarthestOf h s xs
  run_farthest_most j s r n =
      let (kb, m) =
        farthest_same_hash_most xs (upper h xs - (lower h xs + 1)) (lower h xs + 1) (lower h xs)
          (distance first) j (distance s) n (All-get_elem? IsNumber xs _ n e) r in
      All-of_get_elem? _ xs λ i x f hx.
        let (l, u) = run_covers h i xs o f hx in
        elim (ℕ_discrete i (lower h xs)) [
          | yes q ↦ omega (
            arith,
            ap key (distance_at-get_elem? xs i f),
            ap key (distance_at-get_elem? xs (lower h xs) e),
            ap (λ k. key (distance_at xs k)) q,
          )
          | no q ↦ omega (arith, m i, ap key (distance_at-get_elem? xs i f))
        ]

  pub run_farthest :
      (j : ℕ) × (s : Slot) × (run_loop ≡ some (j, distance s))
      × (get_elem? xs j ≡ some s)
      × (s.hash ≡ h)
      × (All IsNumber xs → FarthestOf h s xs)
  run_farthest =
      let q = partition_point-le-length (λ (s : Slot). leb s.hash h) xs in
      let (l, u) = run_covers h (lower h xs) xs o e p in
      let (j, d, r, m) =
        farthest_same_hash_held xs (upper h xs - (lower h xs + 1)) (lower h xs + 1) (lower h xs)
          (distance first) (omega arith) in
      let (a, b, c) = run_farthest_place j d m in
      let (s, f) = get_elem?_of_lt xs j (omega arith) in
      let t : run_loop ≡ some (j, distance s) = rw (sym (distance_at-get_elem? xs j f) ∙ c) r in
      (j, s, t, f, hash-of_run h j xs o f a b, run_farthest_most j s t)
