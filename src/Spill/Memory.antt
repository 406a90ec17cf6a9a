-- ===== src/Spill/Memory.antt =====
-- `InMemorySpillEdgeSink`: buffers for each shard of the points, cut into sorted segments. The `HashMap`
-- of buffers is a list in the order of their creation; a call runs under the sink's lock.
pub mod Contents
pub mod Flush
pub mod Whole
pub mod Finish
pub mod Refused
use forge_ann.Prelude.{
  ℕ, zero, suc, ◌+◌, ◌*◌, ◌/◌, min, max, Bool, true, false, leb, ◌==◌, if◌then◌else◌, Option, none,
  some, List, [], ◌∷◌, ◌++◌, map, length,
}
use forge_ann.Prelude.Results.{Result, ok, err, ◌>>=◌}
use forge_ann.Prelude.Sorting.{sort_by}
use forge_ann.Spill.{PendingEdge, SpillRecord, SpillError, from_pending_edge}

abbrev pub Buffers : Type 0
Buffers = List (ℕ × List SpillRecord)

pub record InMemorySpillSegment : Type 0 where
  pub shard_id : ℕ
  pub records : List SpillRecord
  pub src_min : ℕ
  pub src_max : ℕ

pub record InMemorySpillArtifacts : Type 0 where
  pub shard_points : ℕ
  pub segments : List InMemorySpillSegment

pub record InMemorySpillEdgeSink : Type 0 where
  pub shard_points : ℕ
  pub flush_threshold_edges : ℕ
  pub buffers_by_shard : Buffers
  pub segments : List InMemorySpillSegment

abbrev run_record_bytes : ℕ
run_record_bytes = 16

abbrev default_spill_cache_bytes : ℕ
default_spill_cache_bytes = 64 * 1024 * 1024

unfoldable pub effective_spill_cache_bytes : ℕ → ℕ
effective_spill_cache_bytes bytes = if bytes == 0 then default_spill_cache_bytes else bytes

pub create_sharded : ℕ → ℕ → InMemorySpillEdgeSink
unfolding effective_spill_cache_bytes
create_sharded spill_cache_bytes shard_points = record {
  shard_points = max shard_points 1;
  flush_threshold_edges =
      min (max (effective_spill_cache_bytes spill_cache_bytes / run_record_bytes) 1) 1000000;
  buffers_by_shard = [];
  segments = [];
}

-- A record goes to the last group if that is its shard's, and else starts a group.
pub push_record : Buffers → ℕ → SpillRecord → Buffers
push_record [] shard r = (shard, r ∷ []) ∷ []
push_record ((t, rs) ∷ []) shard r =
    if t == shard then (t, rs ++ (r ∷ [])) ∷ [] else (t, rs) ∷ (shard, r ∷ []) ∷ []
push_record (g ∷ h ∷ groups) shard r = g ∷ push_record (h ∷ groups) shard r

pub encode_edges : ℕ → Buffers → List PendingEdge → Result SpillError Buffers
unfolding push_record from_pending_edge
encode_edges shard_points groups [] = ok groups
encode_edges shard_points groups (edge ∷ edges) = from_pending_edge edge >>= λ r.
    encode_edges shard_points (push_record groups (edge.p / shard_points) r) edges

abbrev pub by_source : PendingEdge → PendingEdge → Bool
by_source a b = leb a.p b.p

abbrev pub by_src : SpillRecord → SpillRecord → Bool
by_src a b = leb a.src b.src

pub encode_spill_records_by_shard : List PendingEdge → ℕ → Result SpillError Buffers
unfolding encode_edges
encode_spill_records_by_shard edges shard_points =
    encode_edges (max shard_points 1) [] (sort_by by_source edges)

pub buffer_of : ℕ → Buffers → Option (List SpillRecord)
buffer_of shard [] = none
buffer_of shard ((t, rs) ∷ buffers) = if t == shard then some rs else buffer_of shard buffers

-- `entry(shard_id).or_insert_with(..).extend(records)`
pub extend_buffer : ℕ → List SpillRecord → Buffers → Buffers
extend_buffer shard new [] = (shard, new) ∷ []
extend_buffer shard new ((t, rs) ∷ buffers) =
    if t == shard then (t, rs ++ new) ∷ buffers else (t, rs) ∷ extend_buffer shard new buffers

-- `mem::take` of a buffer
pub take_buffer : ℕ → Buffers → Buffers
take_buffer shard [] = []
take_buffer shard ((t, rs) ∷ buffers) =
    if t == shard then (t, []) ∷ buffers else (t, rs) ∷ take_buffer shard buffers

pub first_src : List SpillRecord → ℕ
first_src [] = 0
first_src (r ∷ rs) = r.src

pub last_src : List SpillRecord → ℕ
last_src [] = 0
last_src (r ∷ []) = r.src
last_src (r ∷ s ∷ rs) = last_src (s ∷ rs)

pub make_segment : ℕ → List SpillRecord → InMemorySpillSegment
unfolding first_src last_src
make_segment shard buffer =
    let records = sort_by by_src buffer in
    record {
      shard_id = shard;
      records = records;
      src_min = first_src records;
      src_max = last_src records;
    }

pub flush_memory_shard_buffer_to_segment : InMemorySpillEdgeSink → ℕ → InMemorySpillEdgeSink
unfolding buffer_of take_buffer make_segment
flush_memory_shard_buffer_to_segment s shard = elim (buffer_of shard s.buffers_by_shard) [
  | none ↦ s
  | some buffer ↦ if length buffer == 0 then s else record s {
    buffers_by_shard = take_buffer shard s.buffers_by_shard;
    segments = s.segments ++ (make_segment shard buffer ∷ []);
  }
]

abbrev pub buffer_length : ℕ → Buffers → ℕ
buffer_length shard buffers = elim (buffer_of shard buffers) [ none ↦ 0 | some rs ↦ length rs ]

pub flush_group : InMemorySpillEdgeSink → ℕ × List SpillRecord → InMemorySpillEdgeSink
unfolding extend_buffer flush_memory_shard_buffer_to_segment
flush_group s (shard, records) =
    let extended = record s { buffers_by_shard = extend_buffer shard records s.buffers_by_shard } in
    if leb s.flush_threshold_edges (buffer_length shard extended.buffers_by_shard)
    then flush_memory_shard_buffer_to_segment extended shard
    else extended

pub flush_groups : InMemorySpillEdgeSink → Buffers → InMemorySpillEdgeSink
unfolding flush_group
flush_groups s [] = s
flush_groups s (group ∷ groups) = flush_groups (flush_group s group) groups

pub flush_pending_edges :
    InMemorySpillEdgeSink → List PendingEdge → Result SpillError InMemorySpillEdgeSink
unfolding encode_spill_records_by_shard flush_groups
flush_pending_edges s edges =
    if length edges == 0
    then ok s
    else (encode_spill_records_by_shard edges s.shard_points >>= λ groups.
        ok (flush_groups s groups))

pub flush_shards : InMemorySpillEdgeSink → List ℕ → InMemorySpillEdgeSink
unfolding flush_memory_shard_buffer_to_segment
flush_shards s [] = s
flush_shards s (shard ∷ shards) = flush_shards (flush_memory_shard_buffer_to_segment s shard) shards

abbrev pub shard_ids : Buffers → List ℕ
shard_ids [] = []
shard_ids ((t, rs) ∷ buffers) = t ∷ shard_ids buffers

pub flush_all_memory_buffers_to_segments : InMemorySpillEdgeSink → InMemorySpillEdgeSink
unfolding flush_shards
flush_all_memory_buffers_to_segments s = flush_shards s (shard_ids s.buffers_by_shard)

pub finish : InMemorySpillEdgeSink → InMemorySpillArtifacts
unfolding flush_all_memory_buffers_to_segments
finish s = record {
  shard_points = s.shard_points;
  segments = (flush_all_memory_buffers_to_segments s).segments;
}
