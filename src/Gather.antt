-- ===== src/Gather.antt =====
-- The windowed gather of ForgeANN/src/forgeann/point_store.rs: requested rows are sorted, grouped into
-- windows that are read at once, and scattered back to their places. `u32` differences and `u64`
-- counters wrap as in the source.
pub mod Plan
pub mod Store
use forge_ann.Prelude.{
  ℕ, zero, suc, ◌+◌, ◌-◌, ◌*◌, ◌/◌, ◌%◌, ◌^◌, max, Bool, ◌||◌, ltb, leb, ◌==◌, if◌then◌else◌,
  Option, none, some, List, [], ◌∷◌, map, length, take, drop,
}
use forge_ann.Prelude.Results.{Result, ok, err, ◌>>=◌}
use forge_ann.Disk.{overwrite}

pub record WindowedGatherOptions : Type 0 where
  pub max_gap_rows : ℕ
  pub max_window_bytes : ℕ
  pub alignment_bytes : ℕ
  pub sort_ids : Bool

pub record WindowedGatherStats : Type 0 where
  pub rows_requested : ℕ
  pub windows_submitted : ℕ
  pub rows_per_window_sum : ℕ
  pub singleton_windows : ℕ
  pub range_windows : ℕ
  pub range_rows_read : ℕ
  pub logical_bytes : ℕ
  pub physical_bytes : ℕ
  pub alignment_waste_bytes : ℕ
  pub overread_rows : ℕ
  pub scatter_ops : ℕ

pub record GatherRow : Type 0 where
  pub row_id : ℕ
  pub original_pos : ℕ

pub record ReadWindow : Type 0 where
  pub start_row : ℕ
  pub row_count : ℕ

pub record ScatterOp : Type 0 where
  pub original_pos : ℕ
  pub row_offset_in_window : ℕ

pub record GatherPlan : Type 0 where
  pub windows : List ReadWindow
  pub scatter_by_window : List (List ScatterOp)

abbrev add_u64 : ℕ → ℕ → ℕ
add_u64 a b = (a + b) % 2 ^ 64

abbrev pub sub_u32 : ℕ → ℕ → ℕ
sub_u32 a b = (a + 2 ^ 32 - b) % 2 ^ 32

pub number_rows : ℕ → List ℕ → List GatherRow
number_rows pos [] = []
number_rows pos (id ∷ ids) = record { row_id = id; original_pos = pos } ∷ number_rows (suc pos) ids

pub insert_row : GatherRow → List GatherRow → List GatherRow
insert_row r [] = r ∷ []
insert_row r (s ∷ rows) =
    let rest = insert_row r rows in if leb r.row_id s.row_id then r ∷ s ∷ rows else s ∷ rest

-- `sort_unstable_by_key`: the order of equal rows, which the source leaves open, is kept here.
pub sort_rows : List GatherRow → List GatherRow
unfolding insert_row
sort_rows [] = []
sort_rows (r ∷ rows) = insert_row r (sort_rows rows)

-- The inner loop: the rows that join the window that `first` starts, and those behind it.
pub extend_window : ℕ → ℕ → ℕ → ℕ → List GatherRow → List GatherRow × List GatherRow
extend_window max_gap max_rows first prev [] = ([], [])
extend_window max_gap max_rows first prev (r ∷ rows) =
    let gap = r.row_id - prev - 1 in
    let proposed = r.row_id - first + 1 in
    let (joined, behind) = extend_window max_gap max_rows first r.row_id rows in
    if ltb max_gap gap || ltb max_rows proposed then ([], r ∷ rows) else (r ∷ joined, behind)

pub last_id : ℕ → List GatherRow → ℕ
last_id prev [] = prev
last_id prev (r ∷ rows) = last_id r.row_id rows

pub count_distinct : ℕ → List GatherRow → ℕ
count_distinct prev [] = 0
count_distinct prev (r ∷ rows) =
    let rest = count_distinct r.row_id rows in if r.row_id == prev then rest else suc rest

abbrev pub div_ceil : ℕ → ℕ → ℕ
div_ceil a b = if a % b == 0 then a / b else a / b + 1

-- The counters for one window of `requested` rows.
pub count_window : WindowedGatherOptions → ℕ → ℕ → ℕ → ℕ → WindowedGatherStats → WindowedGatherStats
count_window options row_bytes row_count requested distinct stats =
    let logical = row_count * row_bytes % 2 ^ 64 in
    let alignment = max options.alignment_bytes 1 in
    let physical =
      if options.sort_ids then div_ceil logical alignment * alignment % 2 ^ 64 else logical in
    let single = leb row_count 1 in
    record stats {
      windows_submitted = add_u64 stats.windows_submitted 1;
      rows_per_window_sum = add_u64 stats.rows_per_window_sum row_count;
      singleton_windows =
          if single then add_u64 stats.singleton_windows 1 else stats.singleton_windows;
      range_windows = if single then stats.range_windows else add_u64 stats.range_windows 1;
      range_rows_read =
          if single then stats.range_rows_read else add_u64 stats.range_rows_read row_count;
      physical_bytes = add_u64 stats.physical_bytes physical;
      alignment_waste_bytes = add_u64 stats.alignment_waste_bytes (physical - logical);
      overread_rows = add_u64 stats.overread_rows (row_count - distinct % 2 ^ 32);
      scatter_ops = add_u64 stats.scatter_ops requested;
    }

pub scatter_op : ℕ → GatherRow → ScatterOp
scatter_op start_row r = record {
  original_pos = r.original_pos;
  row_offset_in_window = sub_u32 r.row_id start_row;
}

-- The outer loop; each window takes a row at least, so as many rounds as rows are enough.
pub plan_windows :
    WindowedGatherOptions
    → ℕ
    → ℕ
    → ℕ
    → List GatherRow
    → WindowedGatherStats
    → GatherPlan × WindowedGatherStats
unfolding extend_window last_id count_distinct count_window scatter_op
plan_windows options row_bytes max_rows zero rows stats =
    (record { windows = []; scatter_by_window = [] }, stats)
plan_windows options row_bytes max_rows (suc fuel) [] stats =
    (record { windows = []; scatter_by_window = [] }, stats)
plan_windows options row_bytes max_rows (suc fuel) (r ∷ rows) stats =
    let start_row = r.row_id in
    let (joined, behind) = extend_window options.max_gap_rows max_rows start_row start_row rows in
    let row_count = (sub_u32 (last_id start_row joined) start_row + 1) % 2 ^ 32 in
    let counted =
      count_window options row_bytes row_count (suc (length joined))
        (suc (count_distinct start_row joined)) stats in
    let (plan, stats') = plan_windows options row_bytes max_rows fuel behind counted in
    (
      record {
        windows = record { start_row = start_row; row_count = row_count } ∷ plan.windows;
        scatter_by_window = map (scatter_op start_row) (r ∷ joined) ∷ plan.scatter_by_window;
      },
      stats',
    )

-- The counters of a request, and the rows that a window may have.
abbrev pub count_request : List ℕ → ℕ → WindowedGatherStats → WindowedGatherStats
count_request ids row_bytes stats = record stats {
  rows_requested = add_u64 stats.rows_requested (length ids);
  logical_bytes = add_u64 stats.logical_bytes (length ids * row_bytes);
}

abbrev pub max_window_rows : List ℕ → ℕ → WindowedGatherOptions → ℕ
max_window_rows ids row_bytes options =
    if row_bytes == 0 then max (length ids) 1 else max (options.max_window_bytes / row_bytes) 1

abbrev pub ordered_rows : WindowedGatherOptions → List GatherRow → List GatherRow
ordered_rows options rows = if options.sort_ids then sort_rows rows else rows

pub build_gather_plan :
    List ℕ → ℕ → WindowedGatherOptions → WindowedGatherStats → GatherPlan × WindowedGatherStats
unfolding number_rows sort_rows plan_windows
build_gather_plan ids row_bytes options stats =
    let ordered = ordered_rows options (number_rows 0 ids) in
    plan_windows options row_bytes (max_window_rows ids row_bytes options) (length ids) ordered
      (count_request ids row_bytes stats)
