-- ===== src/Resident/Tests.antt =====
-- A store of three points whose ids do not rise.
use forge_ann.Prelude.{ℕ, ◌≡◌, refl, true, false, List, [], ◌∷◌, arith}
use forge_ann.Prelude.Entries.{enumerate_from, dedup_by_id}
use forge_ann.Prelude.Sorting.{sort_by}
use forge_ann.Resident.{
  ResidentSubsetPointStore, is_strictly_increasing, id_table, read_points_into,
}
use forge_ann.Resident.{read_range_into}
use forge_ann.Resident.Ranges.{range_ids, read_range_into-rows_of}
use forge_ann.Resident.Rows.{IsStore, rows_of}
use forge_ann.Resident.Reads.{read_points_into-rows_of}

abbrev three_ids : List ℕ
three_ids = 30 ∷ 10 ∷ 20 ∷ []

abbrev six_floats : List ℕ
six_floats = 1 ∷ 2 ∷ 3 ∷ 4 ∷ 5 ∷ 6 ∷ []

abbrev store : ResidentSubsetPointStore
store = record {
  global_ids = three_ids;
  id_to_row = (10, 1) ∷ (20, 2) ∷ (30, 0) ∷ [];
  vectors = six_floats;
  dim = 2;
  sorted_unique_ids = false;
  point_id_capacity = 31;
}

store-IsStore : IsStore store
unfolding is_strictly_increasing id_table sort_by enumerate_from dedup_by_id
store-IsStore = record {
  fits = refl;
  table = refl;
  flag = refl;
  distinct = (
    ((λ q. absurd (omega arith)), ((λ q. absurd (omega arith)), tt)),
    (((λ q. absurd (omega arith)), tt), (tt, tt)),
  );
}

read_points_into-rows_of_example :
    read_points_into store (20 ∷ 30 ∷ []) (0 ∷ 0 ∷ 0 ∷ 0 ∷ []) ≡ rows_of store (20 ∷ 30 ∷ [])
read_points_into-rows_of_example =
    read_points_into-rows_of store (20 ∷ 30 ∷ []) (0 ∷ 0 ∷ 0 ∷ 0 ∷ []) store-IsStore refl
      (omega arith)

abbrev rising_store : ResidentSubsetPointStore
rising_store = record {
  global_ids = 4 ∷ 5 ∷ 6 ∷ [];
  id_to_row = [];
  vectors = six_floats;
  dim = 2;
  sorted_unique_ids = true;
  point_id_capacity = 7;
}

rising_store-IsStore : IsStore rising_store
unfolding is_strictly_increasing
rising_store-IsStore = record {
  fits = refl;
  table = refl;
  flag = refl;
  distinct = (
    ((λ q. absurd (omega arith)), ((λ q. absurd (omega arith)), tt)),
    (((λ q. absurd (omega arith)), tt), (tt, tt)),
  );
}

read_range_into-rows_of_example :
    read_range_into rising_store 5 2 (0 ∷ 0 ∷ 0 ∷ 0 ∷ []) ≡ rows_of rising_store (range_ids 5 2)
read_range_into-rows_of_example =
    read_range_into-rows_of rising_store 5 2 (0 ∷ 0 ∷ 0 ∷ 0 ∷ []) rising_store-IsStore (omega arith)
      (omega arith) refl (omega arith)
