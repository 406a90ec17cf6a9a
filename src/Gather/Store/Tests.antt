-- ===== src/Gather/Store/Tests.antt =====
-- A windowed read from a store of five points.
use forge_ann.Prelude.{
  ℕ, ◌+◌, ◌*◌, ◌<◌, ◌≡◌, refl, true, some, List, [], ◌∷◌, length, replicate, get_elem?, get_or,
  arith,
}
use forge_ann.Prelude.Results.{ok, err}
use forge_ann.Disk.{overwrite}
use forge_ann.Gather.{
  WindowedGatherOptions, WindowedGatherStats, number_rows, sort_rows, insert_row, extend_window,
  last_id, count_distinct, count_window, scatter_op, plan_windows, build_gather_plan,
}
use forge_ann.Gather.Store.{
  MmapPointStore, copy_row, scatter_window_rows, mapped_rows, read_windows,
  read_points_windowed_into_stats, out_of_bounds,
}
use forge_ann.Gather.Store.Read.{IsStore, read_points_windowed_lem}

abbrev store : MmapPointStore
store = record {
  values = 10 ∷ 11 ∷ 20 ∷ 21 ∷ 30 ∷ 31 ∷ 40 ∷ 41 ∷ 50 ∷ 51 ∷ [];
  num_points = 5;
  dim = 2;
}

store-IsStore : IsStore store
store-IsStore = record { filled = refl; small = omega arith }

abbrev options : WindowedGatherOptions
options = record {
  max_gap_rows = 1;
  max_window_bytes = 4096;
  alignment_bytes = 64;
  sort_ids = true;
}

abbrev no_stats : WindowedGatherStats
no_stats = record {
  rows_requested = 0;
  windows_submitted = 0;
  rows_per_window_sum = 0;
  singleton_windows = 0;
  range_windows = 0;
  range_rows_read = 0;
  logical_bytes = 0;
  physical_bytes = 0;
  alignment_waste_bytes = 0;
  overread_rows = 0;
  scatter_ops = 0;
}

abbrev asked : List ℕ
asked = 4 ∷ 0 ∷ 4 ∷ 1 ∷ []

-- Two windows: rows 0 and 1, and row 4 for two requests.
read_test :
    read_points_windowed_into_stats store asked (replicate 8 0) options no_stats
    ≡ ok (
      50 ∷ 51 ∷ 10 ∷ 11 ∷ 50 ∷ 51 ∷ 20 ∷ 21 ∷ [],
      record {
        rows_requested = 4;
        windows_submitted = 2;
        rows_per_window_sum = 3;
        singleton_windows = 1;
        range_windows = 1;
        range_rows_read = 2;
        logical_bytes = 32;
        physical_bytes = 128;
        alignment_waste_bytes = 104;
        overread_rows = 0;
        scatter_ops = 4;
      },
    )
unfolding read_points_windowed_into_stats read_windows mapped_rows scatter_window_rows copy_row
    build_gather_plan plan_windows scatter_op count_window count_distinct last_id extend_window
    sort_rows insert_row number_rows overwrite
read_test = refl

read_missing_test :
    read_points_windowed_into_stats store (5 ∷ []) (replicate 2 0) options no_stats
    ≡ err out_of_bounds
unfolding read_points_windowed_into_stats read_windows mapped_rows scatter_window_rows copy_row
    build_gather_plan plan_windows scatter_op count_window count_distinct last_id extend_window
    sort_rows insert_row number_rows overwrite
read_missing_test = refl

read_points_windowed_lem_example :
    (out' : List ℕ) × (stats' : WindowedGatherStats) × (read_points_windowed_into_stats store asked
        (replicate 8 0)
        options
        no_stats
      ≡ ok (out', stats'))
    × (length out' ≡ 8)
    × ((i id k : ℕ)
        → get_elem? asked i ≡ some id
        → k < 2
        → get_or out' (i * 2 + k) 0 ≡ get_or store.values (id * 2 + k) 0)
read_points_windowed_lem_example =
    read_points_windowed_lem store asked (replicate 8 0) options no_stats store-IsStore refl
      (omega arith, (omega arith, (omega arith, (omega arith, tt)))) refl
