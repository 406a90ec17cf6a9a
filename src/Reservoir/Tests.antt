-- ===== src/Reservoir/Tests.antt =====
-- Runs of the reservoir on the inputs of the source's tests, and instances of the theorems.
use forge_ann.Prelude.{ℕ, ◌≤◌, ◌≡◌, ◌≢◌, refl, some, false, ◌⊎◌, List, [], ◌∷◌, length, All, arith}
use forge_ann.Float32.{key, f32_lt, f32_le, is_nan, to_f32, from_f32}
use forge_ann.Reservoir.{Slot, Reservoir, new, insert, drain_neighbors}
use forge_ann.Reservoir.Ordered.{find, find-get_elem?}
use forge_ann.Reservoir.Farthest.{distance_at}
use forge_ann.Reservoir.Invariant.{IsValid, IsFarthest}
use forge_ann.Reservoir.Outcome.{Outcome, insert-Outcome}
use forge_ann.Reservoir.Insert.{
  Evicted, Nearer, insert-IsValid, insert-IsFarthest, insert-find_other, insert-find_present,
}
use forge_ann.Reservoir.Batch.{
  Candidate, insert_all, Offered, AreDistinct, drain_neighbors-insert_all,
}

-- 10.0, 9.0, 8.0, 7.0 and 6.0
abbrev ten : ℕ
ten = 0x41200000

abbrev nine : ℕ
nine = 0x41100000

abbrev eight : ℕ
eight = 0x41000000

abbrev seven : ℕ
seven = 0x40e00000

abbrev empty : Reservoir
empty = record { l_max = 2; slots = []; farthest_idx = 0; farthest_dist = 0 }

abbrev one_slot : Slot
one_slot = record { target = 10; hash = 7; dist = 0x4120 }

abbrev other_slot : Slot
other_slot = record { target = 11; hash = 9; dist = 0x4110 }

-- Two slots, of 10.0 and 9.0.
abbrev full : Reservoir
full = record {
  l_max = 2;
  slots = one_slot ∷ other_slot ∷ [];
  farthest_idx = 0;
  farthest_dist = ten;
}

-- The first test of hash_prune.rs with capacity 2.
abbrev batch : List Candidate
batch =
    record { target = 10; hash = 7; dist = ten }
    ∷ record { target = 11; hash = 9; dist = nine }
    ∷ record { target = 12; hash = 3; dist = eight }
    ∷ []

run_batch :
    insert_all empty batch
    ≡ some (record {
      l_max = 2;
      slots = record { target = 12; hash = 3; dist = 0x4100 } ∷ other_slot ∷ [];
      farthest_idx = 1;
      farthest_dist = nine;
    })
unfolding insert_all insert f32_lt f32_le to_f32 from_f32
run_batch = refl

full-IsValid : IsValid full
unfolding to_f32
full-IsValid = record {
  room = omega arith;
  bounded = omega arith;
  sorted = omega arith;
  distinct = omega arith;
  words = omega arith;
  cached_in = omega arith;
  held = refl;
}

full-IsFarthest : IsFarthest full
unfolding to_f32 is_nan key
full-IsFarthest = record { numbers = (refl, (refl, tt)); number = refl; most = omega arith }

-- `full` after `insert(12, 3, 8.0)`, which evicts target 10, and after `insert(10, 5, 7.0)`.
abbrev evicted : Reservoir
evicted = record {
  l_max = 2;
  slots = record { target = 12; hash = 3; dist = 0x4100 } ∷ other_slot ∷ [];
  farthest_idx = 1;
  farthest_dist = nine;
}

abbrev moved : Reservoir
moved = record {
  l_max = 2;
  slots = record { target = 10; hash = 5; dist = 0x40e0 } ∷ other_slot ∷ [];
  farthest_idx = 1;
  farthest_dist = nine;
}

insert_evicts : insert full 12 3 eight ≡ some evicted
unfolding insert f32_lt to_f32 from_f32
insert_evicts = refl

insert_moves : insert full 10 5 seven ≡ some moved
unfolding insert f32_lt to_f32 from_f32
insert_moves = refl

eight_number : is_nan eight ≡ false
unfolding is_nan
eight_number = refl

-- A collision of a full reservoir replaces the farthest slot of the hash only.
collision :
    insert full 13 9 seven
    ≡ some (record full { slots = one_slot ∷ record { target = 13; hash = 9; dist = 0x40e0 } ∷ [] })
unfolding insert f32_lt to_f32 from_f32
collision = refl

insert-Outcome_example :
    (r' : Reservoir) × (insert full 12 3 eight ≡ some r')
    × Outcome full 12 3 eight r'
    × IsValid r'
    × IsFarthest r'
    × (r'.l_max ≡ 2)
insert-Outcome_example =
    insert-Outcome full 12 3 eight full-IsValid full-IsFarthest (omega arith) eight_number

insert-IsValid_example :
    (r' : Reservoir) × (insert full 12 3 eight ≡ some r') × IsValid r' × (r'.l_max ≡ 2)
insert-IsValid_example = insert-IsValid full 12 3 eight full-IsValid (omega arith)

insert-IsFarthest_example :
    (distance_at evicted.slots evicted.farthest_idx ≡ evicted.farthest_dist) × IsFarthest evicted
insert-IsFarthest_example =
    insert-IsFarthest full 12 3 eight full-IsValid full-IsFarthest (omega arith) eight_number
      insert_evicts

insert-find_other_example : (find 10 evicted.slots ≡ find 10 full.slots) ⊎ Evicted full evicted 10
insert-find_other_example =
    insert-find_other full 12 3 eight 10 full-IsValid insert_evicts (omega arith)

insert-find_present_example :
    Nearer 10 one_slot moved × ((u : ℕ) → u ≢ 10 → find u moved.slots ≡ find u full.slots)
insert-find_present_example =
    insert-find_present full 10 5 seven full-IsValid (omega arith) find_one insert_moves
  where
    find_one : find 10 full.slots ≡ some one_slot
    find_one = find-get_elem? 0 full.slots full-IsValid.distinct refl

drain_neighbors-insert_all_example :
    (r' : Reservoir) × (insert_all empty batch ≡ some r')
    × (length (drain_neighbors r').0 ≤ 2)
    × AreDistinct (drain_neighbors r').0
    × All (Offered batch) (drain_neighbors r').0
unfolding new
drain_neighbors-insert_all_example = drain_neighbors-insert_all 2 batch refl (omega arith)
