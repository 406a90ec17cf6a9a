-- ===== src/Reservoir.antt =====
-- `HashPruneReservoir` of ForgeANN/src/forgeann/hash_prune.rs: the bounded, hash-ordered candidate
-- list of one point. A method that updates `self` returns the new reservoir; `none` is a panic of
-- the source (an index out of range). Distances are f32 bit patterns.
pub mod Ordered
pub mod Farthest
pub mod Invariant
pub mod Adding
pub mod Run
pub mod Rules
pub mod Insert
pub mod Outcome
pub mod Batch
mod Tests
use forge_ann.Prelude.{
  ℕ, zero, suc, ◌+◌, ◌-◌, ltb, leb, ◌==◌, if◌then◌else◌, Option, none, some, ◌>>=◌, List, [], ◌∷◌,
  map, length, get_elem?, insert_at, remove_at, position, partition_point,
}
use forge_ann.Float32.{f32_lt, f32_le, from_f32, to_f32}

-- `dist` holds the `BFloat16` bits.
pub record Slot : Type 0 where
  pub target : ℕ
  pub hash : ℕ
  pub dist : ℕ

pub record Reservoir : Type 0 where
  pub l_max : ℕ
  pub slots : List Slot
  pub farthest_idx : ℕ
  pub farthest_dist : ℕ

-- `Slot::new`
abbrev pub new_slot : ℕ → ℕ → ℕ → Slot
new_slot target hash dist = record { target = target; hash = hash; dist = from_f32 dist }

-- `HashPruneReservoir::new` asserts a positive capacity.
unfoldable pub new : ℕ → Option Reservoir
new zero = none
new (suc l) = some (record { l_max = suc l; slots = []; farthest_idx = 0; farthest_dist = 0 })

pub clear : Reservoir → Reservoir
clear r = record r { slots = []; farthest_idx = 0; farthest_dist = 0 }

-- The scan of `recompute_farthest`: index and distance of the first greatest slot so far.
pub scan_farthest : ℕ → ℕ → ℕ → List Slot → ℕ × ℕ
scan_farthest idx dist i [] = (idx, dist)
scan_farthest idx dist i (s ∷ rest) =
    let farther = f32_lt dist (to_f32 s.dist) in
    scan_farthest (if farther then i else idx) (if farther then to_f32 s.dist else dist) (i + 1)
      rest

-- `recompute_farthest` reads `slots[0]`.
pub recompute_farthest : Reservoir → Option Reservoir
unfolding scan_farthest
recompute_farthest r = elim r.slots [
  | [] ↦ none
  | s ∷ rest ↦
      let (idx, dist) = scan_farthest 0 (to_f32 s.dist) 1 rest in
      some (record r { farthest_idx = idx; farthest_dist = dist })
]

pub recompute_farthest_if_nonempty : Reservoir → Option Reservoir
unfolding recompute_farthest
recompute_farthest_if_nonempty r = elim r.slots [
  | [] ↦ some (record r { farthest_idx = 0; farthest_dist = 0 })
  | _ ∷ _ ↦ recompute_farthest r
]

abbrev pub lower_bound_hash : Reservoir → ℕ → ℕ
lower_bound_hash r hash = partition_point (λ s. ltb s.hash hash) r.slots

abbrev pub upper_bound_hash : Reservoir → ℕ → ℕ
upper_bound_hash r hash = partition_point (λ s. leb s.hash hash) r.slots

pub insert_slot_sorted : Reservoir → Slot → Option Reservoir
unfolding recompute_farthest
insert_slot_sorted r slot = do
  let insert_pos = upper_bound_hash r slot.hash
  let dist = to_f32 slot.dist
  slots ← insert_at insert_pos slot r.slots
  let r' = record r { slots = slots }
  if length slots == 1
      then some (record r' { farthest_idx = 0; farthest_dist = dist })
      else if f32_le r.farthest_dist dist
      then recompute_farthest r'
      else if leb insert_pos r.farthest_idx
      then some (record r' { farthest_idx = r.farthest_idx + 1 })
      else some r'

pub replace_slot_sorted : Reservoir → ℕ → Slot → Option Reservoir
unfolding recompute_farthest_if_nonempty
replace_slot_sorted r pos slot = do
  removed ← remove_at pos r.slots
  let r' = record r { slots = removed }
  slots ← insert_at (upper_bound_hash r' slot.hash) slot removed
  recompute_farthest_if_nonempty (record r { slots = slots })

abbrev pub target_position : Reservoir → ℕ → Option ℕ
target_position r target = position (λ s. s.target == target) r.slots

-- The loop of `insert` over `idx .. idx + n`, the slots of one hash.
pub farthest_same_hash : List Slot → ℕ → ℕ → ℕ → ℕ → Option (ℕ × ℕ)
farthest_same_hash slots zero idx best_idx best = some (best_idx, best)
farthest_same_hash slots (suc n) idx best_idx best = elim (get_elem? slots idx) [
  | none ↦ none
  | some s ↦
      let farther = f32_lt best (to_f32 s.dist) in
      farthest_same_hash slots n (idx + 1) (if farther then idx else best_idx)
        (if farther then to_f32 s.dist else best)
]

-- The full reservoir holds a slot of this hash, from `hash_start` on: its farthest one competes.
pub insert_collision : Reservoir → Slot → ℕ → Slot → ℕ → Option Reservoir
unfolding farthest_same_hash replace_slot_sorted
insert_collision r first hash_start slot dist = do
  let hash_end = upper_bound_hash r slot.hash
  found ←
      farthest_same_hash r.slots (hash_end - (hash_start + 1)) (hash_start + 1) hash_start
        (to_f32 first.dist)
  if f32_lt dist found.1 then replace_slot_sorted r found.0 slot else some r

-- The full reservoir holds no slot of this hash: the farthest slot of all competes.
pub insert_evicting : Reservoir → Slot → ℕ → Option Reservoir
unfolding replace_slot_sorted
insert_evicting r slot dist =
    if f32_lt dist r.farthest_dist then replace_slot_sorted r r.farthest_idx slot else some r

pub insert_full : Reservoir → ℕ → ℕ → ℕ → Option Reservoir
unfolding insert_collision insert_evicting
insert_full r target hash dist =
    let hash_start = lower_bound_hash r hash in
    elim (get_elem? r.slots hash_start) [
      | none ↦ insert_evicting r (new_slot target hash dist) dist
      | some first ↦
          if first.hash == hash
          then insert_collision r first hash_start (new_slot target hash dist) dist
          else insert_evicting r (new_slot target hash dist) dist
    ]

-- `HashPruneReservoir::insert`
pub insert : Reservoir → ℕ → ℕ → ℕ → Option Reservoir
unfolding insert_slot_sorted replace_slot_sorted insert_full
insert r target hash dist = elim (target_position r target) [
  | some pos ↦ do
    s ← get_elem? r.slots pos
    if f32_lt dist (to_f32 s.dist)
        then replace_slot_sorted r pos (new_slot target hash dist)
        else some r
  | none ↦
      if ltb (length r.slots) r.l_max
      then insert_slot_sorted r (new_slot target hash dist)
      else insert_full r target hash dist
]

-- `into_neighbors`
pub into_neighbors : Reservoir → List ℕ
into_neighbors r = map (λ s. s.target) r.slots

-- `drain_slots` and `drain_neighbors`
pub drain_slots : Reservoir → List Slot × Reservoir
unfolding clear
drain_slots r = (r.slots, clear r)

unfoldable pub drain_neighbors : Reservoir → List ℕ × Reservoir
unfolding clear
drain_neighbors r = (map (λ s. s.target) r.slots, clear r)
