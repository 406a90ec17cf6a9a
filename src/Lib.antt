-- ===== src/Lib.antt =====
-- ForgeANN, an out-of-memory builder of graphs for approximate nearest neighbour search.
--
-- The builder partitions the points, finds the nearest neighbours within each leaf of the partition,
-- and offers every edge that it finds to the reservoir of the edge's source. The drained reservoirs
-- are the rows of the graph; they are pruned once more and written to the graph file, from which
-- the search loads them. Points are read from a store in windows, and files may be opened for
-- direct I/O. The parts that are modelled:
--
-- * Float32 (ForgeANN/src/forgeann/hash_prune.rs, `BFloat16`): f32 as bit patterns with the comparisons
--   of IEEE 754, and bf16 truncation. The reservoir and the prune compare distances by it.
-- * Reservoir (ForgeANN/src/forgeann/hash_prune.rs, `HashPruneReservoir`): `new`, `clear`, `insert`,
--   `drain_neighbors` and all that they call. An index out of range is the result `none`.
-- * FinalPrune (ForgeANN/src/forgeann/final_prune.rs, ForgeANN/src/model/neighbor/neighbor.rs):
--   `robust_prune_candidates` and, in FinalPrune.Rows, `final_robust_prune_rows`. The dataset and
--   the operations that round, division and multiplication, are the parameter `Dataset`. The loop
--   over `cur_alpha` has rounds as fuel; `Leaves` says that so many factors pass alpha, and the
--   program's own alpha of 1.2 needs two. An exhausted loop is the error `unfinished`. A panic of the
--   standard library's sort on NaNs is left out.
-- * Gather (ForgeANN/src/forgeann/point_store.rs): `build_gather_plan` with its counters; in
--   Gather.Store `scatter_window_rows` and the windowed read of `MmapPointStore`. The loop over
--   the windows has as much fuel as there are ids, since every window takes one at least.
-- * Spill (ForgeANN/src/forgeann/spill_hashprune.rs): Spill.Memory is `InMemorySpillEdgeSink`,
--   which keeps candidate edges in buffers and segments for each shard of the points; Spill.Reduce
--   is the reducer that feeds the segments to reservoirs and hands each point's row to a callback,
--   a parameter that may fail; Spill.InMemory composes both. Spill.Disk is `SpillEdgeSink`, which
--   writes segments to part files; their ids are u16. Spill.Runs is the records of a run file with
--   their writer and reader, Spill.Parts the part files in which workers hand rows over; both on
--   the bytes of the file. A lock makes a call of the sink one step. The loops over chunks have one
--   round more than there are points below the end of the shard, since every chunk has a point; the
--   reader of a segment has one round more than the segment has bytes.
-- * Resident (ForgeANN/src/forgeann/point_store.rs, `ResidentSubsetPointStore`): construction, lookup and
--   the reads of points, ids and ranges. A binary search of the standard library finds the place of
--   an id.
-- * Sampling (ForgeANN/src/forgeann/sampling.rs): `sample_set_bottomk`, with the score of an id by splitmix64.
-- * SpineOverlay (ForgeANN/src/forgeann/spine_overlay_prune.rs): `select_spine_overlay_row_with_stats`
--   and, in SpineOverlay.Accumulator, the slots of `RuntimeSpineOverlayRow`.
-- * Scheduler (ForgeANN/src/forgeann/scheduler.rs): the state of `ForgeannScheduler` and its atomic
--   steps; Scheduler.Budget is `SchedulerBudget` and the drain policy, Scheduler.Queue the
--   functions on the queue of leaves as one thread runs them, Scheduler.Limits the limits of the
--   drainers, and Scheduler.Emitter the loops of the emitter and of a drainer. In Scheduler.Threads
--   each thread has a phase and its next atomic step may come at any time. The processing of leaves
--   is a parameter. A loop that yields to other threads has fuel; alone, a thread needs one round
--   more than the queue has leaves to wait until idle, and two to emit a leaf.
-- * Bytes, MemGraph (ForgeANN/src/index/inmem_index/forgeann_oom_writer.rs): the little-endian
--   integers, `DirectMemGraphWriter` and `load_mem_graph`, on the bytes of the file.
-- * FixedGraph (ForgeANN/src/index/inmem_index/forgeann_oom_writer.rs): `FixedDegreeMemGraphWriter` and
--   `load_fixed_degree_mem_graph`; its writes are those of Disk.
-- * Disk (ForgeANN/src/forgeann/direct_io.rs): the loops around `read_at` and `write_at`. How much a
--   call of the operating system moves is the parameter `Os`; `Progresses` says that it is
--   something if something was asked, so that the loops need at most one round for each byte.
-- * DirectIo (ForgeANN/src/forgeann/direct_io.rs): `DirectIoConfig`, the aligned window of a request,
--   `read_exact_at` and `write_all_at` of `DirectIoFile`, on top of Disk. A request so long that its
--   slice of the scratch block would be out of range is not told apart; the bounds on the length
--   in the theorems exclude it.
--
-- Prelude holds what the parts share: lists over the native numbers, tests, membership, results.
-- Sums of machine integers wrap where the source lets them, since the release profile does not
-- check them. Allocation does not fail. Not modelled: partitioning, leaf building, the
-- reducer of spilled edges on disk, distances and their sampling, the io_uring rings,
-- threads and locks but for the steps of the scheduler, and the drivers.
pub mod Prelude
pub mod Float32
pub mod Bytes
pub mod Disk
pub mod DirectIo
pub mod MemGraph
pub mod Reservoir
pub mod FinalPrune
pub mod Gather
pub mod FixedGraph
pub mod Spill
pub mod Resident
pub mod Sampling
pub mod Scheduler
pub mod SpineOverlay
