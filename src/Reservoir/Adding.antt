-- ===== src/Reservoir/Adding.antt =====
-- `insert_slot_sorted`, which keeps the farthest cache up to date without a scan where it can.
use forge_ann.Prelude.{
  ℕ, zero, suc, ◌+◌, ◌≤◌, ◌<◌, ◌≡◌, refl, leb, ◌==◌, if◌then◌else◌, some, List, [], ◌∷◌, length,
  All, Bool-cases, inl, inr, false, arith, partition_point, ap, ◌∙◌,
}
use forge_ann.Float32.{f32_le}
use forge_ann.Float32.Bounds.{key_of_not_f32_le}
use native.Mathlib.Nat.{le_refl}
use forge_ann.Reservoir.{Slot, Reservoir, upper_bound_hash, insert_slot_sorted}
use forge_ann.Reservoir.Ordered.{
  ordered_insert, Lacks, insert_at-upper_bound, length-ordered_insert, All-ordered_insert,
  ordered_insert-IsSorted, ordered_insert-IsDistinct,
}
use forge_ann.Reservoir.Farthest.{
  distance, distance_at, IsNumber, Within, refreshed, refreshed-held, recompute_farthest-refreshed,
}
use forge_ann.Reservoir.Invariant.{IsValid, IsFarthest, IsWord, refreshed-IsFarthest}

-- A slot behind the insertion point moves up by one, and the others stay.
distance_at_behind :
    (s : Slot) (xs : List Slot) (i : ℕ)
    → partition_point (λ (x : Slot). leb x.hash s.hash) xs ≤ i
    → distance_at (ordered_insert s xs) (suc i) ≡ distance_at xs i
unfolding ordered_insert
distance_at_behind s [] i h = refl
distance_at_behind s (x ∷ xs) zero h = ground arith
distance_at_behind s (x ∷ xs) (suc i) h = ground (arith, distance_at_behind s xs i)

distance_at_before :
    (s : Slot) (xs : List Slot) (i : ℕ)
    → i < partition_point (λ (x : Slot). leb x.hash s.hash) xs
    → distance_at (ordered_insert s xs) i ≡ distance_at xs i
unfolding ordered_insert
distance_at_before s [] i h = absurd (omega arith)
distance_at_before s (x ∷ xs) zero h = ground arith
distance_at_before s (x ∷ xs) (suc i) h = ground (arith, distance_at_before s xs i)

-- The reservoir after `insert_slot_sorted`.
pub appended : Reservoir → Slot → Reservoir
appended r slot =
    let slots = ordered_insert slot r.slots in
    if length slots == 1
    then record r { slots = slots; farthest_idx = 0; farthest_dist = distance slot }
    else if f32_le r.farthest_dist (distance slot)
    then refreshed r slots
    else if leb (upper_bound_hash r slot.hash) r.farthest_idx
    then record r { slots = slots; farthest_idx = r.farthest_idx + 1 }
    else record r { slots = slots }

pub insert_slot_sorted-appended :
    (r : Reservoir) (slot : Slot) → insert_slot_sorted r slot ≡ some (appended r slot)
unfolding insert_slot_sorted appended
insert_slot_sorted-appended r slot = ground (
  arith,
  insert_at-upper_bound slot r.slots,
  length-ordered_insert slot r.slots,
  recompute_farthest-refreshed r (ordered_insert slot r.slots),
)

pub slots-appended :
    (r : Reservoir) (slot : Slot)
    → ((appended r slot).slots ≡ ordered_insert slot r.slots) × ((appended r slot).l_max ≡ r.l_max)
unfolding appended
slots-appended r slot = ground arith

-- Its four cases.
appended_cases {ℓ} :
    (P : Reservoir → Type ℓ) (r : Reservoir) (slot : Slot)
    → let slots = ordered_insert slot r.slots in
      (r.slots ≡ []
        → P (record r { slots = slots; farthest_idx = 0; farthest_dist = distance slot }))
      → P (refreshed r slots)
      → (f32_le r.farthest_dist (distance slot) ≡ false
          → upper_bound_hash r slot.hash ≤ r.farthest_idx
          → 0 < length r.slots
          → P (record r { slots = slots; farthest_idx = r.farthest_idx + 1 }))
      → (f32_le r.farthest_dist (distance slot) ≡ false
          → r.farthest_idx < upper_bound_hash r slot.hash
          → 0 < length r.slots
          → P (record r { slots = slots }))
      → P (appended r slot)
unfolding appended
appended_cases P r slot first scan move stay = elim (Bool-cases (length slots == 1)) [
  | inl one ↦ rw one (first (empty r.slots (ground (arith, length-ordered_insert slot r.slots))))
  | inr more ↦ elim (Bool-cases (f32_le r.farthest_dist (distance slot))) [
    | inl far ↦ rw (more, far) scan
    | inr near ↦ elim (Bool-cases (leb (upper_bound_hash r slot.hash) r.farthest_idx)) [
      | inl behind ↦ rw (more, near, behind) (move near (ground arith) (some_slot more))
      | inr before ↦ rw (more, near, before) (stay near (ground arith) (some_slot more))
    ]
  ]
]
  where
    slots : List Slot
    slots = ordered_insert slot r.slots

    empty : (xs : List Slot) → length xs ≡ 0 → xs ≡ []
    empty [] e = refl
    empty (x ∷ xs) e = absurd (omega arith)

    some_slot : (length slots == 1) ≡ false → 0 < length r.slots
    some_slot more = ground (arith, length-ordered_insert slot r.slots)

-- Insertion with a cache that names a slot and holds its distance.
grown-IsValid :
    (r : Reservoir) (slot : Slot) (i d : ℕ)
    → IsValid r
    → IsWord slot
    → Lacks slot.target r.slots
    → length r.slots < r.l_max
    → i ≤ length r.slots
    → distance_at (ordered_insert slot r.slots) i ≡ d
    → IsValid
        (record r { slots = ordered_insert slot r.slots; farthest_idx = i; farthest_dist = d })
grown-IsValid r slot i d v w l h c e = record {
  room = v.room;
  bounded = omega (arith, length-ordered_insert slot r.slots);
  sorted = ordered_insert-IsSorted slot r.slots v.sorted;
  distinct = ordered_insert-IsDistinct slot r.slots l v.distinct;
  words = All-ordered_insert IsWord slot r.slots w v.words;
  cached_in = omega (arith, length-ordered_insert slot r.slots);
  held = e;
}

pub appended-IsValid :
    (r : Reservoir) (slot : Slot)
    → IsValid r
    → IsWord slot
    → Lacks slot.target r.slots
    → length r.slots < r.l_max
    → IsValid (appended r slot)
unfolding appended ordered_insert
appended-IsValid r slot v w l h =
    appended_cases IsValid r slot
      (λ e. grown-IsValid r slot 0 (distance slot) v w l h (omega arith) (rw e))
      (let (c, d) = refreshed-held (ordered_insert slot r.slots) in
        grown-IsValid r slot _ _ v w l h (omega (arith, length-ordered_insert slot r.slots)) d)
      (λ near behind some_slot.
        grown-IsValid r slot (r.farthest_idx + 1) r.farthest_dist v w l h (omega arith) (
          ap (distance_at (ordered_insert slot r.slots)) {y = suc r.farthest_idx} (omega arith)
          ∙ distance_at_behind slot r.slots r.farthest_idx behind
          ∙ v.held))
      (λ near before some_slot.
        grown-IsValid r slot r.farthest_idx r.farthest_dist v w l h (omega arith)
          (distance_at_before slot r.slots r.farthest_idx before ∙ v.held))

pub appended-IsFarthest :
    (r : Reservoir) (slot : Slot) → IsFarthest r → IsNumber slot → IsFarthest (appended r slot)
unfolding ordered_insert
appended-IsFarthest r slot f n =
    appended_cases IsFarthest r slot
      (λ e. record { numbers = numbers; number = n; most = rw e (le_refl _, tt) })
      (refreshed-IsFarthest r (ordered_insert slot r.slots) numbers)
      (λ near _ _. record { numbers = numbers; number = f.number; most = most near })
      (λ near _ _. record { numbers = numbers; number = f.number; most = most near })
  where
    numbers : All IsNumber (ordered_insert slot r.slots)
    numbers = All-ordered_insert IsNumber slot r.slots n f.numbers

    most :
        f32_le r.farthest_dist (distance slot) ≡ false
        → All (Within r.farthest_dist) (ordered_insert slot r.slots)
    most near =
        All-ordered_insert (Within r.farthest_dist) slot r.slots
          (omega (arith, key_of_not_f32_le _ _ f.number n near)) f.most
