-- ===== src/Spill/Reduce.antt =====
-- `reduce_in_memory_segments_sharded_in_order_from`: the segments of each shard feed a slab of reservoirs,
-- and the rows go to a callback in the order of the points. The callback may fail; its state is `S`.
pub mod Rows
pub mod Slab
pub mod Group
pub mod Order
pub mod Whole
use forge_ann.Prelude.{
  ℕ, zero, suc, ◌+◌, ◌-◌, ◌*◌, ◌%◌, ◌^◌, ◌≤◌, min, max, Bool, true, false, ◌&&◌, ◌||◌, ltb, leb,
  ◌==◌, if◌then◌else◌, Option, none, some, List, [], ◌∷◌, ◌++◌, map, length, contains,
}
use forge_ann.Prelude.Usize.{saturating_mul}
use forge_ann.Prelude.Results.{Result, ok, err, ◌>>=◌, ok_or}
use forge_ann.Prelude.Sorting.{sort_by}
use forge_ann.Reservoir.{Reservoir, new, clear, insert, drain_neighbors}
use forge_ann.Spill.{
  PendingEdge, SpillRecord, to_pending_edge, SpillError, outside_points, outside_shard,
  outside_range, out_of_order, panicked, unfinished,
}
use forge_ann.Spill.Memory.{InMemorySpillSegment, InMemorySpillArtifacts, by_src}

-- usize, of 64 bits
abbrev pub add_usize : ℕ → ℕ → ℕ
add_usize a b = (a + b) % 2 ^ 64

pub allocate_reservoir_slab : ℕ → ℕ → Result SpillError (List Reservoir)
allocate_reservoir_slab zero l_max = ok []
allocate_reservoir_slab (suc points) l_max =
    ok_or (new l_max) panicked >>= λ r. allocate_reservoir_slab points l_max >>= λ rs. ok (r ∷ rs)

clear_first : ℕ → List Reservoir → List Reservoir
clear_first zero rs = rs
clear_first (suc n) [] = []
clear_first (suc n) (r ∷ rs) = clear r ∷ clear_first n rs

pub resize_or_reset_reservoirs : List Reservoir → ℕ → ℕ → Result SpillError (List Reservoir)
unfolding allocate_reservoir_slab clear_first
resize_or_reset_reservoirs reservoirs points l_max =
    (if ltb (length reservoirs) points
      then (allocate_reservoir_slab (points - length reservoirs) l_max >>= λ more.
          ok (reservoirs ++ more))
      else ok reservoirs)
    >>= λ grown. ok (clear_first points grown)

-- `reservoirs[local_idx].insert(edge.c, edge.hash, edge.dist)`
pub insert_local : List Reservoir → ℕ → PendingEdge → Result SpillError (List Reservoir)
insert_local [] i edge = err panicked
insert_local (r ∷ rs) zero edge =
    ok_or (insert r edge.c edge.hash edge.dist) panicked >>= λ r'. ok (r' ∷ rs)
insert_local (r ∷ rs) (suc i) edge = insert_local rs i edge >>= λ rs'. ok (r ∷ rs')

pub record Chunk : Type 0 where
  pub chunk_start : ℕ
  pub chunk_end : ℕ
  pub reservoirs : List Reservoir

pub record SpillReduceStats : Type 0 where
  pub shard_groups : ℕ
  pub segments_scanned : ℕ
  pub part_files_opened : ℕ
  pub max_segments_in_group : ℕ

-- The size of the `BTreeSet` of the ids.
distinct_count : List ℕ → ℕ
distinct_count [] = 0
distinct_count (t ∷ ts) = if contains t ts then distinct_count ts else suc (distinct_count ts)

count_of : ℕ → List ℕ → ℕ
count_of t [] = 0
count_of t (u ∷ us) = if u == t then suc (count_of t us) else count_of t us

-- The largest number of times that an id of the first list occurs in the second.
largest_count : List ℕ → List ℕ → ℕ
unfolding count_of
largest_count [] ids = 0
largest_count (t ∷ ts) ids = max (count_of t ids) (largest_count ts ids)

pub max_in_memory_segments_per_shard : List InMemorySpillSegment → ℕ
unfolding largest_count
max_in_memory_segments_per_shard segments =
    let ids = map (λ s. s.shard_id) segments in largest_count ids ids

abbrev pub by_shard : InMemorySpillSegment → InMemorySpillSegment → Bool
by_shard a b = ltb a.shard_id b.shard_id || ((a.shard_id == b.shard_id) && leb a.src_min b.src_min)

abbrev pub by_range : InMemorySpillSegment → InMemorySpillSegment → Bool
by_range a b = ltb a.src_min b.src_min || ((a.src_min == b.src_min) && leb a.src_max b.src_max)

pub join_run :
    InMemorySpillSegment
    → List (ℕ × List InMemorySpillSegment)
    → List (ℕ × List InMemorySpillSegment)
join_run s [] = (s.shard_id, s ∷ []) ∷ []
join_run s ((t, group) ∷ runs) =
    if t == s.shard_id then (t, s ∷ group) ∷ runs else (s.shard_id, s ∷ []) ∷ (t, group) ∷ runs

-- The runs of segments of one shard that the loop over `i` meets.
pub shard_runs : List InMemorySpillSegment → List (ℕ × List InMemorySpillSegment)
unfolding join_run
shard_runs [] = []
shard_runs (s ∷ segments) = join_run s (shard_runs segments)

pub check_ranges : ℕ → ℕ → List InMemorySpillSegment → Result SpillError (Unit {0})
check_ranges shard_start shard_end [] = ok tt
check_ranges shard_start shard_end (s ∷ segments) =
    if ltb s.src_min shard_start || leb shard_end s.src_max
    then err outside_shard
    else check_ranges shard_start shard_end segments

pub sort_records : InMemorySpillSegment → InMemorySpillSegment
sort_records s = record s { records = sort_by by_src s.records }

abbrev pub no_stats : SpillReduceStats
no_stats = record {
  shard_groups = 0;
  segments_scanned = 0;
  part_files_opened = 0;
  max_segments_in_group = 0;
}

unfoldable pub reduce_stats : List InMemorySpillSegment → SpillReduceStats
unfolding max_in_memory_segments_per_shard distinct_count
reduce_stats segments = record {
  shard_groups = distinct_count (map (λ t. t.shard_id) segments);
  segments_scanned = length segments;
  part_files_opened = 0;
  max_segments_in_group = max_in_memory_segments_per_shard segments;
}

module _ {S : Type 0} (on_point_done : ℕ → List ℕ → S → Result SpillError S) where
  -- The rows of the first `count` reservoirs; the reservoirs are empty afterwards.
  unfoldable pub emit_points : ℕ → ℕ → List Reservoir → S → Result SpillError (List Reservoir × S)
  emit_points point zero reservoirs s = ok (reservoirs, s)
  emit_points point (suc count) [] s = err panicked
  emit_points point (suc count) (r ∷ rs) s =
      let (neighbors, drained) = drain_neighbors r in
      on_point_done (point % 2 ^ 32) neighbors s >>= λ s'.
      emit_points (suc point) count rs s' >>= λ more. ok (drained ∷ more.0, more.1)

  unfoldable pub emit_shard : ℕ → ℕ → List Reservoir → S → Result SpillError (List Reservoir × S)
  unfolding emit_points
  emit_shard shard_start shard_end reservoirs s =
      emit_points shard_start (shard_end - shard_start) reservoirs s

  pub emit_empty_points : ℕ → ℕ → S → Result SpillError S
  emit_empty_points point zero s = ok s
  emit_empty_points point (suc count) s =
      on_point_done (point % 2 ^ 32) [] s >>= λ s'. emit_empty_points (suc point) count s'

  pub emit_empty_point_range : ℕ → ℕ → S → Result SpillError S
  unfolding emit_empty_points
  emit_empty_point_range start end s = emit_empty_points start (end - start) s

  module _ (point_start point_end points_per_chunk l_max : ℕ) where
    abbrev next_end : ℕ → ℕ
    next_end chunk_end = min (add_usize chunk_end points_per_chunk) point_end

    -- `while edge.p >= chunk_end`
    pub advance : ℕ → ℕ → Chunk → S → Result SpillError (Chunk × S)
    unfolding emit_shard resize_or_reset_reservoirs
    advance zero p c s = err unfinished
    advance (suc fuel) p c s = elim (leb c.chunk_end p) [
      | false ↦ ok (c, s)
      | true ↦ emit_shard c.chunk_start c.chunk_end c.reservoirs s >>= λ emitted.
          (if leb point_end c.chunk_end
            then err outside_range
            else resize_or_reset_reservoirs emitted.0 (next_end c.chunk_end - c.chunk_end) l_max)
          >>= λ reservoirs.
              advance fuel p
                (record {
                  chunk_start = c.chunk_end;
                  chunk_end = next_end c.chunk_end;
                  reservoirs = reservoirs;
                })
                emitted.1
    ]

    pub reduce_records : List SpillRecord → Chunk → S → Result SpillError (Chunk × S)
    unfolding advance insert_local to_pending_edge
    reduce_records [] c s = ok (c, s)
    reduce_records (r ∷ records) c s =
        let edge = to_pending_edge r in
        elim (ltb edge.p point_start) [
          | true ↦ reduce_records records c s
          | false ↦ elim (leb point_end edge.p) [
            | true ↦ ok (c, s)
            | false ↦ advance (suc point_end) edge.p c s >>= λ moved.
                (if ltb edge.p moved.0.chunk_start
                  then err out_of_order
                  else insert_local moved.0.reservoirs (edge.p - moved.0.chunk_start) edge)
                >>= λ reservoirs.
                    reduce_records records (record moved.0 { reservoirs = reservoirs }) moved.1
          ]
        ]

    pub reduce_segments : List InMemorySpillSegment → Chunk → S → Result SpillError (Chunk × S)
    unfolding reduce_records
    reduce_segments [] c s = ok (c, s)
    reduce_segments (segment ∷ segments) c s =
        reduce_records segment.records c s >>= λ moved. reduce_segments segments moved.0 moved.1

    -- `while chunk_start < point_end`
    pub emit_chunks : ℕ → Chunk → S → Result SpillError S
    unfolding emit_shard resize_or_reset_reservoirs
    emit_chunks zero c s = err unfinished
    emit_chunks (suc fuel) c s = elim (ltb c.chunk_start point_end) [
      | false ↦ ok s
      | true ↦ emit_shard c.chunk_start c.chunk_end c.reservoirs s >>= λ emitted.
          (if ltb c.chunk_end point_end
            then resize_or_reset_reservoirs emitted.0 (next_end c.chunk_end - c.chunk_end) l_max
            else ok emitted.0)
          >>= λ reservoirs.
              emit_chunks fuel
                (record {
                  chunk_start = c.chunk_end;
                  chunk_end = next_end c.chunk_end;
                  reservoirs = reservoirs;
                })
                emitted.1
    ]

  pub reduce_in_memory_segment_group_in_range :
      ℕ → ℕ → ℕ → ℕ → List InMemorySpillSegment → S → Result SpillError S
  unfolding reduce_segments emit_chunks allocate_reservoir_slab sort_records
  reduce_in_memory_segment_group_in_range point_start point_end l_max points_per_shard segments s =
      if leb point_end point_start
      then ok s
      else let sorted = sort_by by_range (map sort_records segments) in
        let points_per_chunk = min (max points_per_shard 1) (max (point_end - point_start) 1) in
        let chunk_end = min (add_usize point_start points_per_chunk) point_end in
        (allocate_reservoir_slab (chunk_end - point_start) l_max >>= λ reservoirs.
        reduce_segments point_start point_end points_per_chunk l_max sorted
          (record { chunk_start = point_start; chunk_end = chunk_end; reservoirs = reservoirs }) s
        >>= λ moved.
            emit_chunks point_start point_end points_per_chunk l_max (suc point_end) moved.0
              moved.1)

  -- The loop over the groups, and the rows after the last group.
  pub reduce_runs :
      ℕ → ℕ → ℕ → ℕ → ℕ → List (ℕ × List InMemorySpillSegment) → S → Result SpillError S
  unfolding emit_empty_point_range check_ranges reduce_in_memory_segment_group_in_range
  reduce_runs num_points point_start l_max shard_points next_point [] s =
      if ltb next_point num_points then emit_empty_point_range next_point num_points s else ok s
  reduce_runs num_points point_start l_max shard_points next_point ((shard_id, group) ∷ runs) s =
      let shard_start = saturating_mul shard_id shard_points in
      let shard_end = min (add_usize shard_start shard_points) num_points in
      let group_start = max shard_start point_start in
      elim (leb num_points shard_start) [
        | true ↦ err outside_points
        | false ↦ elim (leb shard_end point_start) [
          | true ↦ reduce_runs num_points point_start l_max shard_points next_point runs s
          | false ↦
              (if ltb next_point group_start
                then emit_empty_point_range next_point group_start s
                else ok s)
              >>= λ s1. check_ranges shard_start shard_end group >>= λ _.
                  reduce_in_memory_segment_group_in_range group_start shard_end l_max shard_points
                    group s1
                  >>= λ s2. reduce_runs num_points point_start l_max shard_points shard_end runs s2
        ]
      ]

  unfoldable pub reduce_in_memory_segments_sharded_in_order_from :
      ℕ → ℕ → ℕ → InMemorySpillArtifacts → S → Result SpillError (SpillReduceStats × S)
  unfolding reduce_runs shard_runs reduce_stats
  reduce_in_memory_segments_sharded_in_order_from num_points point_start l_max artifacts s =
      if (num_points == 0) || leb num_points point_start
      then ok (no_stats, s)
      else let segments = sort_by by_shard artifacts.segments in
        (reduce_runs num_points point_start l_max artifacts.shard_points point_start
            (shard_runs segments) s
          >>= λ s'. ok (reduce_stats segments, s'))
