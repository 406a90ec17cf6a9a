-- ===== src/Gather/Store.antt =====
-- `scatter_window_rows`, and `MmapPointStore::read_points_windowed_into_stats` of point_store.rs. The
-- mapped file is the list of its f32 values without the header, row after row: the errors of a file whose
-- bytes are too many for a usize, fewer than its header states, or not aligned are left out.
pub mod Placed
pub mod Read
mod Tests
use forge_ann.Prelude.{
  ℕ, zero, suc, ◌+◌, ◌*◌, ◌&&◌, ltb, leb, ◌==◌, if◌then◌else◌, List, [], ◌∷◌, length, take, drop,
  not,
}
use forge_ann.Prelude.Results.{Result, ok, err, ◌>>=◌}
use forge_ann.Disk.{overwrite}
use forge_ann.Gather.{
  WindowedGatherOptions, WindowedGatherStats, ReadWindow, ScatterOp, GatherPlan, build_gather_plan,
}

-- `panicked` is a slice out of range in the source.
pub data GatherError : Type 0 where
  size_mismatch out_of_bounds panicked : GatherError

-- One copy of a row into `out`.
pub copy_row : ℕ → List ℕ → ScatterOp → List ℕ → Result GatherError (List ℕ)
copy_row row_width window_slice op out =
    let src_start = op.row_offset_in_window * row_width in
    let dst_start = op.original_pos * row_width in
    if leb (src_start + row_width) (length window_slice) && leb (dst_start + row_width) (length out)
    then ok (overwrite out dst_start (take row_width (drop src_start window_slice)))
    else err panicked

pub scatter_window_rows : ℕ → List ℕ → List ScatterOp → List ℕ → Result GatherError (List ℕ)
unfolding copy_row
scatter_window_rows row_width window_slice [] out = ok out
scatter_window_rows row_width window_slice (op ∷ ops) out =
    copy_row row_width window_slice op out >>= scatter_window_rows row_width window_slice ops

pub record MmapPointStore : Type 0 where
  pub values : List ℕ
  pub num_points : ℕ
  pub dim : ℕ

module _ (store : MmapPointStore) where
  -- `row_byte_range` and `mapped_rows_as_f32`
  pub mapped_rows : ReadWindow → Result GatherError (List ℕ)
  mapped_rows window =
      if ltb store.num_points (window.start_row + window.row_count)
      then err out_of_bounds
      else ok
          (take (window.row_count * store.dim) (drop (window.start_row * store.dim) store.values))

  pub read_windows : List ReadWindow → List (List ScatterOp) → List ℕ → Result GatherError (List ℕ)
  unfolding mapped_rows scatter_window_rows
  read_windows [] scatter out = ok out
  read_windows (window ∷ windows) [] out = err panicked
  read_windows (window ∷ windows) (ops ∷ scatter) out = mapped_rows window >>= λ window_slice.
      scatter_window_rows store.dim window_slice ops out >>= read_windows windows scatter

  pub read_points_windowed_into_stats :
      List ℕ
      → List ℕ
      → WindowedGatherOptions
      → WindowedGatherStats
      → Result GatherError (List ℕ × WindowedGatherStats)
  unfolding read_windows
  read_points_windowed_into_stats ids out options stats =
      let (plan, stats') = build_gather_plan ids (store.dim * 4) options stats in
      let filled =
        read_windows plan.windows plan.scatter_by_window out >>= λ out'. ok (out', stats') in
      if length ids == 0
      then ok (out, stats)
      else if not (length out == length ids * store.dim)
      then err size_mismatch
      else filled
