-- ===== src/Spill/Tests.antt =====
-- Concrete runs of the sink in memory, of the reducer, and of the files of runs and rows.
use mathlib.Core.List.{Perm}
use forge_ann.Prelude.{ℕ, ◌-◌, ◌≡◌, refl, true, false, max, List, [], ◌∷◌, ◌++◌, All, arith, some}
use forge_ann.Prelude.Results.{Result, ok, err, ◌>>=◌}
use forge_ann.Reservoir.{Slot, Reservoir, new, drain_neighbors}
use forge_ann.Spill.{PendingEdge, SpillRecord, SpillError, source_too_large}
use forge_ann.Spill.Memory.{InMemorySpillEdgeSink, create_sharded, flush_pending_edges, finish}
use forge_ann.Spill.Memory.Contents.{IsSegment, spilled}
use forge_ann.Spill.Memory.Finish.{flush_batches, batch_records, flush_batches-finish}
use forge_ann.Spill.Memory.Refused.{has_large, flush_pending_edges-large}
use forge_ann.Spill.Reduce.{SpillReduceStats, reduce_in_memory_segments_sharded_in_order_from}
use forge_ann.Spill.Reduce.Rows.{rows, emit_rows}
use forge_ann.Spill.Reduce.{emit_shard}
use forge_ann.Spill.Parts.{write_neighbor_chunk, replay_neighbor_part}
use forge_ann.Spill.Parts.RoundTrip.{IsRow, replay_neighbor_part-write_neighbor_chunk}
use forge_ann.Spill.InMemory.{spill_and_reduce}

abbrev edge : ℕ → ℕ → ℕ → ℕ → PendingEdge
edge p c h d = record {
  p = p;
  c = c;
  hash = h;
  dist = d;
  mandatory = false;
  local_rank = 0;
  flags = 0;
}

abbrev two_batches : List (List PendingEdge)
two_batches =
    (edge 7 1 5 100 ∷ edge 1 7 5 100 ∷ edge 7 2 6 80 ∷ [])
    ∷ (edge 1 2 9 50 ∷ edge 4 3 1 20 ∷ [])
    ∷ []

abbrev reservoir : Reservoir
reservoir = record { l_max = 3; slots = []; farthest_idx = 0; farthest_dist = 0 }

reservoir-empty : new 3 ≡ some reservoir
unfolding new
reservoir-empty = refl

-- A callback that collects the rows.
abbrev collect : ℕ → List ℕ → List (ℕ × List ℕ) → Result SpillError (List (ℕ × List ℕ))
collect p row written = ok (written ++ ((p, row) ∷ []))

spill_and_reduce_example :
    (sink : InMemorySpillEdgeSink) × (flush_batches (create_sharded 32 4) two_batches ≡ ok sink)
    × (stats : SpillReduceStats) × (order : List SpillRecord) × Perm order
        (batch_records two_batches)
    × (reduce_in_memory_segments_sharded_in_order_from collect 10 1 3 (finish sink) []
        ≡ (emit_rows collect (rows 3 order 1 (10 - 1)) [] >>= λ s'. ok (stats, s')))
spill_and_reduce_example =
    spill_and_reduce collect 32 4 10 1 3 two_batches [] reservoir-empty (omega arith) (
      (
        (omega arith, omega arith, (omega arith, omega arith)),
        (
          (omega arith, omega arith, (omega arith, omega arith)),
          ((omega arith, omega arith, (omega arith, omega arith)), tt),
        ),
      ),
      (
        (
          (omega arith, omega arith, (omega arith, omega arith)),
          ((omega arith, omega arith, (omega arith, omega arith)), tt),
        ),
        tt,
      ),
    )

flush_batches-finish_example :
    (s : InMemorySpillEdgeSink) × (flush_batches (create_sharded 32 4) two_batches ≡ ok s)
    × ((finish s).shard_points ≡ max 4 1)
    × All (IsSegment (max 4 1)) (finish s).segments
    × Perm (spilled (finish s).segments) (batch_records two_batches)
flush_batches-finish_example =
    flush_batches-finish 32 4 two_batches
      ((omega arith, (omega arith, (omega arith, tt))), ((omega arith, (omega arith, tt)), tt))

abbrev large_batch : List PendingEdge
large_batch = edge 3 1 5 100 ∷ edge 5000000000 1 5 100 ∷ edge 2 1 5 100 ∷ []

large_batch_lem : has_large large_batch ≡ true
unfolding has_large
large_batch_lem = refl

flush_pending_edges-large_example :
    flush_pending_edges (create_sharded 32 4) large_batch ≡ err source_too_large
flush_pending_edges-large_example =
    flush_pending_edges-large (create_sharded 32 4) large_batch large_batch_lem

-- Two reservoirs of a chunk, and a part file of their rows.
abbrev slot : ℕ → ℕ → Slot
slot t h = record { target = t; hash = h; dist = 16256 }

abbrev two_reservoirs : List Reservoir
two_reservoirs =
    record {
      l_max = 3;
      slots = slot 9 1 ∷ slot 4 2 ∷ [];
      farthest_idx = 0;
      farthest_dist = 1065353216;
    }
    ∷ record { l_max = 3; slots = []; farthest_idx = 0; farthest_dist = 0 }
    ∷ []

two_reservoirs-IsRow : All (λ r. IsRow (drain_neighbors r).0) two_reservoirs
unfolding drain_neighbors
two_reservoirs-IsRow = ((omega arith, (omega arith, (omega arith, tt))), ((omega arith, tt), tt))

replay_neighbor_part-write_neighbor_chunk_example :
    (file : List ℕ) × (drained : List Reservoir) × (write_neighbor_chunk 5 7 two_reservoirs []
      ≡ ok (drained, file))
    × ((replay_neighbor_part collect (record { point_start = 5; point_end = 7; file = file }) []
          >>= λ s'. ok (drained, s'))
        ≡ emit_shard collect 5 7 two_reservoirs [])
replay_neighbor_part-write_neighbor_chunk_example =
    replay_neighbor_part-write_neighbor_chunk collect 5 7 two_reservoirs [] refl
      two_reservoirs-IsRow
