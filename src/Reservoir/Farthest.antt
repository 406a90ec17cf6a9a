-- ===== src/Reservoir/Farthest.antt =====
-- The cached farthest slot: what the scan of `recompute_farthest` finds.
use forge_ann.Prelude.{
  ℕ, zero, suc, ◌+◌, ◌-◌, ◌≤◌, ◌<◌, ◌≡◌, refl, if◌then◌else◌, some, List, [], ◌∷◌, length, All, inl,
  inr, ◌⊎◌, true, false, arith, ap, Bool, sym, ◌∙◌,
}
use forge_ann.Float32.{key, is_nan, f32_lt, to_f32}
use forge_ann.Float32.Bounds.{key_of_f32_lt, key_of_not_f32_lt}
use forge_ann.Reservoir.{
  Slot, Reservoir, scan_farthest, recompute_farthest, recompute_farthest_if_nonempty,
}

-- The distance of a slot as the comparisons read it, and its place in their order.
abbrev pub distance : Slot → ℕ
distance s = to_f32 s.dist

abbrev pub IsNumber : Slot → Type 0
IsNumber s = is_nan (distance s) ≡ false

abbrev pub Within : ℕ → Slot → Type 0
Within d s = key (distance s) ≤ key d

abbrev pub distance_at : List Slot → ℕ → ℕ
distance_at [] i = 0
distance_at (x ∷ xs) zero = distance x
distance_at (x ∷ xs) (suc i) = distance_at xs i

distance_at-cons :
    (s : Slot) (rest : List Slot) (k : ℕ)
    → 0 < k
    → distance_at (s ∷ rest) k ≡ distance_at rest (k - 1)
distance_at-cons s rest zero h = absurd (omega arith)
distance_at-cons s rest (suc k) h = ap (distance_at rest) (omega arith)

abbrev ScanHeld : ℕ → ℕ → ℕ → List Slot → ℕ × ℕ → Type 0
ScanHeld idx dist i rest (j, d) =
    ((j ≡ idx) × (d ≡ dist)) ⊎ ((i ≤ j) × (j < i + length rest) × (distance_at rest (j - i) ≡ d))

ScanHeld-behind :
    (idx dist i : ℕ) (s : Slot) (rest : List Slot) (r : ℕ × ℕ)
    → i + 1 ≤ r.0
    → r.0 < i + 1 + length rest
    → distance_at rest (r.0 - (i + 1)) ≡ r.1
    → ScanHeld idx dist i (s ∷ rest) r
ScanHeld-behind idx dist i s rest (j, d) a b e = inr (
  omega arith,
  omega arith,
  distance_at-cons s rest (j - i) (omega arith) ∙ ap (distance_at rest) (omega arith) ∙ e,
)

ScanHeld-cons :
    (f : Bool) (idx dist i : ℕ) (s : Slot) (rest : List Slot) (r : ℕ × ℕ)
    → ScanHeld (if f then i else idx) (if f then distance s else dist) (i + 1) rest r
    → ScanHeld idx dist i (s ∷ rest) r
ScanHeld-cons f idx dist i s rest r (inr (a, b, e)) = ScanHeld-behind idx dist i s rest r a b e
ScanHeld-cons true idx dist i s rest (j, d) (inl (p, q)) =
    inr (omega arith, omega arith, ap (distance_at (s ∷ rest)) {y = 0} (omega arith) ∙ sym q)
ScanHeld-cons false idx dist i s rest r (inl h) = inl h

scan_held :
    (idx dist i : ℕ) (rest : List Slot) → ScanHeld idx dist i rest (scan_farthest idx dist i rest)
unfolding scan_farthest
scan_held idx dist i [] = inl (refl, refl)
scan_held idx dist i (s ∷ rest) =
    let f = f32_lt dist (to_f32 s.dist) in
    ScanHeld-cons f idx dist i s rest _
      (scan_held (if f then i else idx) (if f then to_f32 s.dist else dist) (i + 1) rest)

scan_most :
    (idx dist i : ℕ) (rest : List Slot)
    → is_nan dist ≡ false
    → All IsNumber rest
    → let d = (scan_farthest idx dist i rest).1 in
      (is_nan d ≡ false) × (key dist ≤ key d) × All (Within d) rest
unfolding scan_farthest
scan_most idx dist i [] n h = (n, omega arith, tt)
scan_most idx dist i (s ∷ rest) n h =
    let f = f32_lt dist (to_f32 s.dist) in
    ground (
      arith,
      scan_most (if f then i else idx) (if f then to_f32 s.dist else dist) (i + 1) rest,
      key_of_f32_lt dist (to_f32 s.dist),
      key_of_not_f32_lt dist (to_f32 s.dist),
    )

-- What `recompute_farthest_if_nonempty` stores.
pub scanned : List Slot → ℕ × ℕ
scanned [] = (0, 0)
scanned (s ∷ rest) = scan_farthest 0 (to_f32 s.dist) 1 rest

abbrev pub refreshed : Reservoir → List Slot → Reservoir
refreshed r slots = record r {
  slots = slots;
  farthest_idx = (scanned slots).0;
  farthest_dist = (scanned slots).1;
}

pub recompute_farthest_if_nonempty-refreshed :
    (r : Reservoir) (slots : List Slot)
    → recompute_farthest_if_nonempty (record r { slots = slots }) ≡ some (refreshed r slots)
unfolding recompute_farthest_if_nonempty scanned
recompute_farthest_if_nonempty-refreshed r [] = refl
recompute_farthest_if_nonempty-refreshed r (s ∷ rest) = refl

pub recompute_farthest-refreshed :
    (r : Reservoir) (slots : List Slot)
    → 0 < length slots
    → recompute_farthest (record r { slots = slots }) ≡ some (refreshed r slots)
unfolding recompute_farthest scanned
recompute_farthest-refreshed r [] h = absurd (omega arith)
recompute_farthest-refreshed r (s ∷ rest) h = refl

-- The stored index is in range, and the stored distance is that of its slot.
scanned_held :
    (slots : List Slot)
    → 0 < length slots
    → ((scanned slots).0 < length slots) × (distance_at slots (scanned slots).0 ≡ (scanned slots).1)
unfolding scanned
scanned_held [] h = absurd (omega arith)
scanned_held (s ∷ rest) h =
    first (scan_farthest 0 (to_f32 s.dist) 1 rest) (scan_held 0 (to_f32 s.dist) 1 rest)
  where
    first :
        (r : ℕ × ℕ)
        → ScanHeld 0 (distance s) 1 rest r
        → (r.0 < suc (length rest)) × (distance_at (s ∷ rest) r.0 ≡ r.1)
    first (j, d) (inl (p, q)) = (omega arith, ap (distance_at (s ∷ rest)) p ∙ sym q)
    first (j, d) (inr (a, b, e)) = (omega arith, distance_at-cons s rest j (omega arith) ∙ e)

-- No slot is farther than the stored distance, if no slot holds a NaN.
pub scanned_most :
    (slots : List Slot)
    → All IsNumber slots
    → (is_nan (scanned slots).1 ≡ false) × All (Within (scanned slots).1) slots
unfolding scanned is_nan
scanned_most [] h = (ground arith, tt)
scanned_most (s ∷ rest) (n, h) =
    let (m, k, w) = scan_most 0 (to_f32 s.dist) 1 rest n h in (m, (k, w))

-- A recomputed cache is right for any list.
pub refreshed-held :
    (slots : List Slot)
    → ((scanned slots).0 ≤ length slots - 1)
      × (distance_at slots (scanned slots).0 ≡ (scanned slots).1)
unfolding scanned
refreshed-held [] = (omega arith, refl)
refreshed-held (s ∷ rest) = let (a, b) = scanned_held (s ∷ rest) (omega arith) in (omega arith, b)
