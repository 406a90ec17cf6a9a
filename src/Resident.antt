-- ===== src/Resident.antt =====
-- `ResidentSubsetPointStore` of ForgeANN/src/forgeann/point_store.rs: the vectors of some points in memory,
-- found by their global ids. A call that fills a buffer gives the buffer's new contents.
pub mod Lookup
pub mod Rows
pub mod Merge
pub mod Reads
pub mod Ranges
mod Tests
use forge_ann.Prelude.{
  ℕ, zero, suc, ◌+◌, ◌-◌, ◌*◌, ◌%◌, ◌^◌, min, max, Bool, true, false, not, ◌&&◌, ltb, leb, ◌==◌,
  if◌then◌else◌, Option, none, some, List, [], ◌∷◌, ◌++◌, length, take, drop, get_elem?, get_or,
  position,
}
use forge_ann.Prelude.Usize.{saturating_mul}
use forge_ann.Prelude.Results.{Result, ok, err, ◌>>=◌, ◌>>◌, reject_if, ok_or}
use forge_ann.Prelude.Sorting.{sort_by}
use forge_ann.Gather.{WindowedGatherStats}
use forge_ann.Prelude.Entries.{enumerate_from, dedup_by_id}

-- `panicked` is a slice out of range of the source.
pub data StoreError : Type 0 where
  zero_dimension matrix_mismatch point_mismatch missing panicked : StoreError

pub record ResidentSubsetPointStore : Type 0 where
  pub global_ids : List ℕ
  pub id_to_row : List (ℕ × ℕ)
  pub vectors : List ℕ
  pub dim : ℕ
  pub sorted_unique_ids : Bool
  pub point_id_capacity : ℕ

pub is_strictly_increasing : List ℕ → Bool
is_strictly_increasing [] = true
is_strictly_increasing (x ∷ []) = true
is_strictly_increasing (x ∷ y ∷ xs) = ltb x y && is_strictly_increasing (y ∷ xs)

pub is_nondecreasing : List ℕ → Bool
is_nondecreasing [] = true
is_nondecreasing (x ∷ []) = true
is_nondecreasing (x ∷ y ∷ xs) = leb x y && is_nondecreasing (y ∷ xs)

-- The greatest id and one, or 0.
pub capacity_of : List ℕ → ℕ
capacity_of [] = 0
capacity_of (x ∷ xs) = max (suc x) (capacity_of xs)

abbrev pub by_id : ℕ × ℕ → ℕ × ℕ → Bool
by_id a b = leb a.0 b.0

pub id_table : List ℕ → List (ℕ × ℕ)
id_table global_ids = dedup_by_id (sort_by by_id (enumerate_from 0 global_ids))

pub new : List ℕ → ℕ → List ℕ → Result StoreError ResidentSubsetPointStore
unfolding is_strictly_increasing capacity_of id_table
new global_ids dim vectors =
    reject_if (dim == 0) zero_dimension
    >> reject_if (not (length vectors == saturating_mul (length global_ids) dim)) matrix_mismatch
    >> ok (record {
      global_ids = global_ids;
      id_to_row = if is_strictly_increasing global_ids then [] else id_table global_ids;
      vectors = vectors;
      dim = dim;
      sorted_unique_ids = is_strictly_increasing global_ids;
      point_id_capacity = capacity_of global_ids;
    })

-- `binary_search_by_key` on entries sorted by their keys, and the row that it finds.
pub row_of_key : ℕ → List (ℕ × ℕ) → Option ℕ
row_of_key pid [] = none
row_of_key pid (e ∷ entries) = if e.0 == pid then some e.1 else row_of_key pid entries

-- `binary_search` on ids that rise strictly.
pub binary_search : List ℕ → ℕ → Option ℕ
binary_search ids pid = position (λ id. id == pid) ids

pub local_row_for_global_id : ResidentSubsetPointStore → ℕ → Result StoreError ℕ
unfolding binary_search row_of_key
local_row_for_global_id s pid =
    if s.sorted_unique_ids
    then ok_or (binary_search s.global_ids pid) missing
    else ok_or (row_of_key pid s.id_to_row) missing

pub copy_row : ResidentSubsetPointStore → ℕ → Result StoreError (List ℕ)
copy_row s local_row =
    let start = local_row * s.dim in
    reject_if (ltb (length s.vectors) (start + s.dim)) panicked
    >> ok (take s.dim (drop start s.vectors))

pub check_point_buffer : ResidentSubsetPointStore → List ℕ → Result StoreError (Unit {0})
check_point_buffer s out = reject_if (not (length out == s.dim)) point_mismatch

pub check_matrix_buffer : ResidentSubsetPointStore → ℕ → List ℕ → Result StoreError (Unit {0})
check_matrix_buffer s rows out =
    reject_if (not (length out == saturating_mul rows s.dim)) matrix_mismatch

pub read_point_into : ResidentSubsetPointStore → ℕ → List ℕ → Result StoreError (List ℕ)
unfolding check_point_buffer local_row_for_global_id copy_row
read_point_into s pid out =
    check_point_buffer s out >> (local_row_for_global_id s pid >>= λ row. copy_row s row)

-- The rows from `local_row` on, and their ids: `while .. self.global_ids[local_row] < pid`.
pub skip_below : ℕ → ℕ → List ℕ → ℕ × List ℕ
skip_below pid local_row [] = (local_row, [])
skip_below pid local_row (id ∷ ids) =
    let rest = skip_below pid (suc local_row) ids in
    if ltb id pid then rest else (local_row, id ∷ ids)

pub head_is : ℕ → List ℕ → Bool
head_is pid [] = false
head_is pid (id ∷ ids) = id == pid

-- The loop of `read_sorted_points_into` from a row on, whose id is the first of `left`.
pub read_sorted : ResidentSubsetPointStore → ℕ → List ℕ → List ℕ → Result StoreError (List ℕ)
unfolding skip_below head_is copy_row
read_sorted s local_row left [] = ok []
read_sorted s local_row left (pid ∷ ids) =
    let at = skip_below pid local_row left in
    (if head_is pid at.1 then copy_row s at.0 else err missing) >>= λ row.
    read_sorted s at.0 at.1 ids >>= λ rows. ok (row ++ rows)

pub read_sorted_points_into : ResidentSubsetPointStore → List ℕ → Result StoreError (List ℕ)
unfolding read_sorted
read_sorted_points_into s ids = read_sorted s 0 s.global_ids ids

-- The loop over the ids, each looked up.
pub read_each : ResidentSubsetPointStore → List ℕ → Result StoreError (List ℕ)
unfolding local_row_for_global_id copy_row
read_each s [] = ok []
read_each s (pid ∷ ids) = local_row_for_global_id s pid >>= λ local_row.
    copy_row s local_row >>= λ row. read_each s ids >>= λ rows. ok (row ++ rows)

-- Equality of slices.
pub same_ids : List ℕ → List ℕ → Bool
same_ids [] [] = true
same_ids [] (y ∷ ys) = false
same_ids (x ∷ xs) [] = false
same_ids (x ∷ xs) (y ∷ ys) = (x == y) && same_ids xs ys

pub read_points_into : ResidentSubsetPointStore → List ℕ → List ℕ → Result StoreError (List ℕ)
unfolding check_matrix_buffer same_ids is_nondecreasing read_sorted_points_into read_each
read_points_into s ids out =
    check_matrix_buffer s (length ids) out
    >> (if length ids == 0
        then ok out
        else if (length ids == length s.global_ids) && same_ids ids s.global_ids
        then ok s.vectors
        else if s.sorted_unique_ids && is_nondecreasing ids
        then read_sorted_points_into s ids
        else read_each s ids)

abbrev pub saturating_add : ℕ → ℕ → ℕ
saturating_add a b = min (a + b) (2 ^ 32 - 1)

-- The loop over the rows of a range; each row gets its part of the buffer.
pub read_range_rows : ResidentSubsetPointStore → ℕ → ℕ → ℕ → List ℕ → Result StoreError (List ℕ)
unfolding read_point_into
read_range_rows s start_pid row zero out = ok []
read_range_rows s start_pid row (suc count) out =
    read_point_into s (saturating_add start_pid (row % 2 ^ 32)) (take s.dim out) >>= λ first.
    read_range_rows s start_pid (suc row) count (drop s.dim out) >>= λ rows. ok (first ++ rows)

-- The rows that are contiguous in the matrix, if the ids of the range are.
pub contiguous_range : ResidentSubsetPointStore → ℕ → ℕ → Option (List ℕ)
unfolding binary_search
contiguous_range s start_pid count =
    if s.sorted_unique_ids
    then elim (binary_search s.global_ids start_pid) [
      | none ↦ none
      | some local_start ↦
          let local_end = min (local_start + count) (2 ^ 64 - 1) in
          if leb local_end (length s.global_ids)
            && (get_or s.global_ids (local_end - 1) 0
                == saturating_add start_pid ((count - 1) % 2 ^ 32))
          then some (take (count * s.dim) (drop (local_start * s.dim) s.vectors))
          else none
    ]
    else none

pub read_range_into : ResidentSubsetPointStore → ℕ → ℕ → List ℕ → Result StoreError (List ℕ)
unfolding check_matrix_buffer contiguous_range read_range_rows
read_range_into s start_pid count out =
    if count == 0
    then ok out
    else (check_matrix_buffer s count out >> (elim (contiguous_range s start_pid count) [
      | some rows ↦ ok rows
      | none ↦ read_range_rows s start_pid 0 count out
    ]))

-- The windows are of no use here; the request is counted, whether or not it succeeds.
pub read_points_windowed_into_stats :
    ResidentSubsetPointStore
    → List ℕ
    → List ℕ
    → WindowedGatherStats
    → Result StoreError (List ℕ) × WindowedGatherStats
unfolding read_points_into
read_points_windowed_into_stats s ids out stats = (
  read_points_into s ids out,
  if length ids == 0 then stats else record stats {
    rows_requested = (stats.rows_requested + length ids) % 2 ^ 64;
    scatter_ops = (stats.scatter_ops + length ids) % 2 ^ 64;
  },
)
