-- ===== src/Reservoir/Rules.antt =====
-- `insert` by its rules, which say what happens without indices of a search or a scan.
use forge_ann.Prelude.{
  ℕ, ◌≤◌, ◌<◌, ◌≡◌, refl, sym, subst, ltb, ◌==◌, if◌then◌else◌, some, Option, length, get_elem?,
  All, lt_of_get_elem?, get_elem?_of_lt, arith, ◌∙◌, position, inl, inr, ◌≢◌, Option-cases,
  Bool-cases, true, false,
}
use forge_ann.Float32.{f32_lt}
use forge_ann.Reservoir.{
  Slot, Reservoir, new_slot, insert, insert_full, insert_collision, insert_evicting,
  replace_slot_sorted, insert_slot_sorted,
}
use forge_ann.Reservoir.Ordered.{Lacks, Lacks-of_position, get_elem?-position}
use forge_ann.Reservoir.Farthest.{distance, IsNumber, refreshed}
use forge_ann.Reservoir.Invariant.{IsValid, swapped, replace_slot_sorted-refreshed}
use forge_ann.Reservoir.Adding.{appended, insert_slot_sorted-appended}
use forge_ann.Reservoir.Run.{lower, Misses, FarthestOf, no_run, run_farthest, distance_at-get_elem?}

-- The slot that a candidate has to beat.
pub data Rival (r : Reservoir) (target hash : ℕ) : ℕ → Slot → Type 0 where
  -- the target is there already
  same_target : {pos : ℕ} {s : Slot} → s.target ≡ target → Rival r target hash pos s
  -- the reservoir is full, and holds this hash
  same_hash :
      {pos : ℕ} {s : Slot}
      → Lacks target r.slots
      → r.l_max ≤ length r.slots
      → s.hash ≡ hash
      → (All IsNumber r.slots → FarthestOf hash s r.slots)
      → Rival r target hash pos s
  -- the reservoir is full, and does not hold this hash
  farthest :
      {pos : ℕ} {s : Slot}
      → Lacks target r.slots
      → r.l_max ≤ length r.slots
      → All (λ (x : Slot). x.hash ≢ hash) r.slots
      → pos ≡ r.farthest_idx
      → Rival r target hash pos s

-- What an insertion of the candidate `(target, hash, dist)` makes of a reservoir.
pub data Change (r : Reservoir) (target hash dist : ℕ) : Reservoir → Type 0 where
  added :
      Lacks target r.slots
      → length r.slots < r.l_max
      → Change r target hash dist (appended r (new_slot target hash dist))
  refused :
      (pos : ℕ) (s : Slot)
      → get_elem? r.slots pos ≡ some s
      → Rival r target hash pos s
      → f32_lt dist (distance s) ≡ false
      → Change r target hash dist r
  replaced :
      (pos : ℕ) (s : Slot)
      → get_elem? r.slots pos ≡ some s
      → Rival r target hash pos s
      → f32_lt dist (distance s) ≡ true
      → Change r target hash dist (refreshed r (swapped r.slots pos (new_slot target hash dist)))

abbrev Follows : Reservoir → ℕ → ℕ → ℕ → Option Reservoir → Type 0
Follows r target hash dist o = (r' : Reservoir) × (o ≡ some r') × Change r target hash dist r'

-- The contest with a slot, as the three places of the source make it.
contest :
    (r : Reservoir) (target hash dist pos : ℕ) {s : Slot}
    → get_elem? r.slots pos ≡ some s
    → Rival r target hash pos s
    → Follows r target hash dist (
        if f32_lt dist (distance s)
        then replace_slot_sorted r pos (new_slot target hash dist)
        else some r)
contest r target hash dist pos {s} e v = elim (Bool-cases (f32_lt dist (distance s))) [
  | inl nearer ↦ (
    _,
    rw nearer (replace_slot_sorted-refreshed r pos _ (lt_of_get_elem? r.slots pos e)),
    replaced pos s e v nearer,
  )
  | inr not_nearer ↦ (r, rw not_nearer, refused pos s e v not_nearer)
]

collision-Follows :
    (r : Reservoir) (target hash dist : ℕ) (first : Slot)
    → IsValid r
    → Lacks target r.slots
    → r.l_max ≤ length r.slots
    → get_elem? r.slots (lower hash r.slots) ≡ some first
    → first.hash ≡ hash
    → Follows r target hash dist
        (insert_collision r first (lower hash r.slots) (new_slot target hash dist) dist)
unfolding insert_collision
collision-Follows r target hash dist first v l full e p =
    let (j, s, loop, f, q, m) = run_farthest hash r.slots v.sorted e p in
    rw loop (contest r target hash dist j f (same_hash l full q m))

evicting-Follows :
    (r : Reservoir) (target hash dist : ℕ)
    → IsValid r
    → Lacks target r.slots
    → r.l_max ≤ length r.slots
    → Misses hash r.slots
    → Follows r target hash dist (insert_evicting r (new_slot target hash dist) dist)
unfolding insert_evicting
evicting-Follows r target hash dist v l full m =
    let (s, e) = get_elem?_of_lt r.slots r.farthest_idx (omega arith) in
    subst
      (λ d. Follows r target hash dist (
        if f32_lt dist d
        then replace_slot_sorted r r.farthest_idx (new_slot target hash dist)
        else some r))
      (sym (distance_at-get_elem? r.slots r.farthest_idx e) ∙ v.held)
      (contest r target hash dist r.farthest_idx e
        (farthest l full (no_run hash r.slots v.sorted m) refl))

full-Follows :
    (r : Reservoir) (target hash dist : ℕ)
    → IsValid r
    → Lacks target r.slots
    → r.l_max ≤ length r.slots
    → Follows r target hash dist (insert_full r target hash dist)
unfolding insert_full
full-Follows r target hash dist v l full =
    elim (Option-cases (get_elem? r.slots (lower hash r.slots))) [
      | inl gone ↦ rw (gone, insert_full) (evicting-Follows r target hash dist v l full (inl gone))
      | inr (first, e) ↦ elim (Bool-cases (first.hash == hash)) [
        | inl hit ↦
            rw (e, insert_full)
              (rw hit (collision-Follows r target hash dist first v l full e (ground arith)))
        | inr miss ↦
            rw (e, insert_full)
              (rw miss
                (evicting-Follows r target hash dist v l full (inr (first, e, ground arith))))
      ]
    ]

absent-Follows :
    (r : Reservoir) (target hash dist : ℕ)
    → IsValid r
    → Lacks target r.slots
    → Follows r target hash dist (
        if ltb (length r.slots) r.l_max
        then insert_slot_sorted r (new_slot target hash dist)
        else insert_full r target hash dist)
absent-Follows r target hash dist v l = elim (Bool-cases (ltb (length r.slots) r.l_max)) [
  | inl room ↦ (
    _,
    rw room (insert_slot_sorted-appended r (new_slot target hash dist)),
    added l (ground arith),
  )
  | inr full ↦ rw full (full-Follows r target hash dist v l (ground arith))
]

-- Every insertion into a valid reservoir succeeds, and follows the rules.
pub insert-Follows :
    (r : Reservoir) (target hash dist : ℕ)
    → IsValid r
    → (r' : Reservoir) × (insert r target hash dist ≡ some r') × Change r target hash dist r'
unfolding insert
insert-Follows r target hash dist v =
    elim (Option-cases (position (λ (s : Slot). s.target == target) r.slots)) [
      | inl absent ↦
          rw (absent, insert)
            (absent-Follows r target hash dist v (Lacks-of_position target r.slots absent))
      | inr (pos, f) ↦
          let (s, e, _, t) = get_elem?-position target r.slots f in
          rw (f, insert) (rw e (contest r target hash dist pos e (same_target t)))
    ]
