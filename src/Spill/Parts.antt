-- ===== src/Spill/Parts.antt =====
-- Rows of neighbours in a part file, between the workers that reduce groups in parallel and the callback:
-- `write_neighbor_chunk` and `replay_neighbor_part`. A file is its bytes.
pub mod RoundTrip
use forge_ann.Prelude.{ℕ, zero, suc, ◌-◌, ◌%◌, ◌^◌, List, [], ◌∷◌, ◌++◌, length}
use forge_ann.Prelude.Results.{Result, ok, err, ◌>>=◌, ok_or}
use forge_ann.Bytes.{to_le_bytes, read_le}
use forge_ann.Reservoir.{Reservoir, drain_neighbors}
use forge_ann.Spill.{SpillError, panicked, unexpected_eof}

pub record NeighborPart : Type 0 where
  pub point_start : ℕ
  pub point_end : ℕ
  pub file : List ℕ

pub neighbor_bytes : List ℕ → List ℕ
neighbor_bytes [] = []
neighbor_bytes (neighbor ∷ neighbors) = to_le_bytes 4 neighbor ++ neighbor_bytes neighbors

-- `neighbors.len() as u32`, then the neighbours.
pub row_bytes : List ℕ → List ℕ
unfolding neighbor_bytes
row_bytes neighbors = to_le_bytes 4 (length neighbors % 2 ^ 32) ++ neighbor_bytes neighbors

-- The reservoirs afterwards, and the file.
pub write_points : ℕ → List Reservoir → List ℕ → Result SpillError (List Reservoir × List ℕ)
unfolding row_bytes
write_points zero reservoirs file = ok (reservoirs, file)
write_points (suc count) [] file = err panicked
write_points (suc count) (r ∷ rs) file =
    let (neighbors, drained) = drain_neighbors r in
    write_points count rs (file ++ row_bytes neighbors) >>= λ more. ok (drained ∷ more.0, more.1)

pub write_neighbor_chunk :
    ℕ → ℕ → List Reservoir → List ℕ → Result SpillError (List Reservoir × List ℕ)
unfolding write_points
write_neighbor_chunk shard_start shard_end reservoirs file =
    write_points (shard_end - shard_start) reservoirs file

-- `degree` neighbours, and the bytes behind them.
pub read_neighbors : ℕ → List ℕ → Result SpillError (List ℕ × List ℕ)
read_neighbors zero bytes = ok ([], bytes)
read_neighbors (suc degree) bytes = ok_or (read_le 4 bytes) unexpected_eof >>= λ first.
    read_neighbors degree first.1 >>= λ more. ok (first.0 ∷ more.0, more.1)

module _ {S : Type 0} (on_point_done : ℕ → List ℕ → S → Result SpillError S) where
  pub replay_points : ℕ → ℕ → List ℕ → S → Result SpillError S
  unfolding read_neighbors
  replay_points point zero bytes s = ok s
  replay_points point (suc count) bytes s = ok_or (read_le 4 bytes) unexpected_eof >>= λ degree.
      read_neighbors degree.0 degree.1 >>= λ row.
      on_point_done (point % 2 ^ 32) row.0 s >>= λ s'. replay_points (suc point) count row.1 s'

  pub replay_neighbor_part : NeighborPart → S → Result SpillError S
  unfolding replay_points
  replay_neighbor_part part s =
      replay_points part.point_start (part.point_end - part.point_start) part.file s
