-- ===== src/Spill/Disk.antt =====
-- `SpillEdgeSink` of ForgeANN/src/forgeann/spill_hashprune.rs: buffers of edges for each shard,
-- which are flushed as segments to the part files of the shard. A `HashMap` is a list in the order
-- of creation, a part file is named by its shard and its id, and the files that are closed are kept
-- by name. A call runs under the sink's lock; direct I/O and the text of the manifest are left out.
pub mod Stored
mod Tests
use forge_ann.Prelude.{
  ℕ, zero, suc, ◌+◌, ◌-◌, ◌*◌, ◌/◌, ◌%◌, ◌^◌, min, max, Bool, true, false, ltb, leb, not, ◌&&◌,
  ◌==◌, if◌then◌else◌, Option, none, some, List, [], ◌∷◌, ◌++◌, length,
}
use forge_ann.Prelude.Results.{Result, ok, err, ◌>>=◌}
use forge_ann.Prelude.Sorting.{sort_by}
use forge_ann.Prelude.Usize.{saturating_add}
use forge_ann.Spill.{PendingEdge, SpillError, panicked}
use forge_ann.Spill.Memory.{by_source, effective_spill_cache_bytes}
use forge_ann.Spill.Runs.{CandidateRunWriter, SpillSegmentDesc, push_all}

pub record SpillPartFileDesc : Type 0 where
  pub shard_id : ℕ
  pub file_id : ℕ
  pub byte_len : ℕ

pub record SpillPartWriter : Type 0 where
  pub desc : SpillPartFileDesc
  pub writer : CandidateRunWriter

-- A map from shards; `without_entry` takes the first of a shard out.
abbrev pub ByShard : Type 0 → Type 0
ByShard A = List (ℕ × A)

module _ {A : Type 0} where
  unfoldable pub entry_of : ℕ → ByShard A → Option A
  entry_of shard [] = none
  entry_of shard ((t, a) ∷ entries) = if t == shard then some a else entry_of shard entries

  unfoldable pub with_entry : ℕ → A → ByShard A → ByShard A
  with_entry shard a [] = (shard, a) ∷ []
  with_entry shard a ((t, b) ∷ entries) =
      let rest = with_entry shard a entries in
      if t == shard then (shard, a) ∷ entries else (t, b) ∷ rest

  unfoldable pub without_entry : ℕ → ByShard A → ByShard A
  without_entry shard [] = []
  without_entry shard ((t, b) ∷ entries) =
      let rest = without_entry shard entries in if t == shard then entries else (t, b) ∷ rest

pub record SpillState : Type 0 where
  pub shard_points : ℕ
  pub buffers_by_shard : ByShard (List PendingEdge)
  pub part_writers_by_shard : ByShard SpillPartWriter
  pub next_part_id_by_shard : ByShard ℕ
  pub part_files : List SpillPartFileDesc
  pub segment_manifest : List SpillSegmentDesc
  pub flush_threshold_edges : ℕ
  pub part_max_bytes : ℕ
  -- the bytes of the files of `part_files`
  pub closed : List (SpillPartFileDesc × List ℕ)

abbrev default_part_max_bytes : ℕ
default_part_max_bytes = 4 * 1024 * 1024 * 1024

-- `size_of::<PendingEdge>()` is the compiler's choice, and an argument.
pub create_sharded_with_config : ℕ → ℕ → ℕ → SpillState
unfolding effective_spill_cache_bytes
create_sharded_with_config pending_edge_bytes spill_cache_bytes shard_points = record {
  shard_points = max shard_points 1;
  buffers_by_shard = [];
  part_writers_by_shard = [];
  next_part_id_by_shard = [];
  part_files = [];
  segment_manifest = [];
  flush_threshold_edges =
      min (max (effective_spill_cache_bytes spill_cache_bytes / max pending_edge_bytes 1) 1)
        1000000;
  part_max_bytes = default_part_max_bytes;
  closed = [];
}

unfoldable pub finalize_part_writer : SpillState → SpillPartWriter → SpillState
finalize_part_writer s part = record s {
  part_files = s.part_files ++ (part.desc ∷ []);
  closed = s.closed ++ ((part.desc, part.writer.file) ∷ []);
}

-- The id of the next part of a shard; a u16 that saturates.
unfoldable pub next_file_id : SpillState → ℕ → ℕ
next_file_id s shard = elim (entry_of shard s.next_part_id_by_shard) [ none ↦ 0 | some id ↦ id ]

-- `create` truncates a closed file of the same name.
unfoldable pub without_file :
    ℕ → ℕ → List (SpillPartFileDesc × List ℕ) → List (SpillPartFileDesc × List ℕ)
without_file shard id [] = []
without_file shard id ((d, bytes) ∷ files) =
    let rest = without_file shard id files in
    if (d.shard_id == shard) && (d.file_id == id) then (d, []) ∷ rest else (d, bytes) ∷ rest

unfoldable pub open_part : SpillState → ℕ → SpillState
open_part s shard =
    let id = next_file_id s shard in
    record s {
      next_part_id_by_shard = with_entry shard (min (id + 1) (2 ^ 16 - 1)) s.next_part_id_by_shard;
      closed = without_file shard id s.closed;
      part_writers_by_shard =
          with_entry shard
            (record {
              desc = record { shard_id = shard; file_id = id; byte_len = 0 };
              writer = record { file = []; records = 0 };
            })
            s.part_writers_by_shard;
    }

unfoldable pub ensure_part_writer : SpillState → ℕ → ℕ → SpillState
ensure_part_writer s shard pending_bytes = elim (entry_of shard s.part_writers_by_shard) [
  | none ↦ open_part s shard
  | some part ↦
      if ltb s.part_max_bytes (saturating_add part.desc.byte_len pending_bytes)
      then (open_part
          (finalize_part_writer
            (record s { part_writers_by_shard = without_entry shard s.part_writers_by_shard }) part)
          shard)
      else s
]

abbrev pub first_p : List PendingEdge → ℕ
first_p [] = 0
first_p (e ∷ es) = e.p % 2 ^ 32

abbrev pub last_p : List PendingEdge → ℕ
last_p [] = 0
last_p (e ∷ []) = e.p % 2 ^ 32
last_p (e ∷ (f ∷ es)) = last_p (f ∷ es)

-- The segment of edges that are pushed to an open part.
unfoldable pub segment_of : ℕ → SpillPartWriter → List PendingEdge → SpillSegmentDesc
segment_of shard part staged = record {
  shard_id = shard % 2 ^ 32;
  file_id = part.desc.file_id;
  byte_offset = part.desc.byte_len;
  byte_len = 16 * length staged;
  record_count = length staged % 2 ^ 32;
  src_min = first_p staged;
  src_max = last_p staged;
  sorted_by_src = true;
}

-- The staged edges go to the shard's open part.
unfoldable pub write_segment :
    SpillState → ℕ → SpillPartWriter → List PendingEdge → Result SpillError SpillState
write_segment s shard part staged = push_all part.writer staged >>= λ w. ok (record s {
  part_writers_by_shard =
      with_entry shard
        (record {
          desc = record part.desc { byte_len = part.desc.byte_len + 16 * length staged };
          writer = w;
        })
        s.part_writers_by_shard;
  segment_manifest = s.segment_manifest ++ (segment_of shard part staged ∷ []);
})

-- A part that has been ensured is there; the first case is the `unwrap`.
unfoldable pub flush_buffer : SpillState → ℕ → List PendingEdge → Result SpillError SpillState
flush_buffer s shard buffer =
    let staged = sort_by by_source buffer in
    let ready =
      ensure_part_writer (record s { buffers_by_shard = with_entry shard [] s.buffers_by_shard })
        shard (16 * length staged) in
    elim (entry_of shard ready.part_writers_by_shard) [
      | none ↦ err panicked
      | some part ↦ write_segment ready shard part staged
    ]

unfoldable pub flush_shard_buffer_to_part : SpillState → ℕ → Result SpillError SpillState
flush_shard_buffer_to_part s shard = elim (entry_of shard s.buffers_by_shard) [
  | none ↦ ok s
  | some buffer ↦ if length buffer == 0 then ok s else flush_buffer s shard buffer
]

-- `entry(shard_id).or_insert_with(..).push(edge)`
push_edge : ByShard (List PendingEdge) → ℕ → PendingEdge → ByShard (List PendingEdge)
push_edge buffers shard edge = elim (entry_of shard buffers) [
  | none ↦ with_entry shard (edge ∷ []) buffers
  | some buffer ↦ with_entry shard (buffer ++ (edge ∷ [])) buffers
]

buffer_length : ℕ → ByShard (List PendingEdge) → ℕ
buffer_length shard buffers = elim (entry_of shard buffers) [
  | none ↦ 0
  | some buffer ↦ length buffer
]

pub buffer_edges : SpillState → List PendingEdge → Result SpillError SpillState
unfolding push_edge buffer_length
buffer_edges s [] = ok s
buffer_edges s (edge ∷ edges) =
    let shard = edge.p / s.shard_points in
    let buffered = record s { buffers_by_shard = push_edge s.buffers_by_shard shard edge } in
    (if leb s.flush_threshold_edges (buffer_length shard buffered.buffers_by_shard)
      then flush_shard_buffer_to_part buffered shard
      else ok buffered)
    >>= λ s'. buffer_edges s' edges

pub flush_pending_edges : SpillState → List PendingEdge → Result SpillError SpillState
unfolding buffer_edges
flush_pending_edges s edges =
    if length edges == 0 then ok s else buffer_edges s (sort_by by_source edges)

shards_of : {A : Type 0} → ByShard A → List ℕ
shards_of [] = []
shards_of ((t, a) ∷ entries) = t ∷ shards_of entries

flush_shards : SpillState → List ℕ → Result SpillError SpillState
flush_shards s [] = ok s
flush_shards s (shard ∷ shards) =
    flush_shard_buffer_to_part s shard >>= λ s'. flush_shards s' shards

pub flush_all_buffers_to_parts : SpillState → Result SpillError SpillState
unfolding shards_of flush_shards
flush_all_buffers_to_parts s = flush_shards s (shards_of s.buffers_by_shard)

finish_parts : SpillState → List ℕ → SpillState
finish_parts s [] = s
finish_parts s (shard ∷ shards) = elim (entry_of shard s.part_writers_by_shard) [
  | none ↦ finish_parts s shards
  | some part ↦
      finish_parts
        (finalize_part_writer
          (record s { part_writers_by_shard = without_entry shard s.part_writers_by_shard }) part)
        shards
]

pub finish_part_writers : SpillState → SpillState
unfolding shards_of finish_parts
finish_part_writers s = finish_parts s (shards_of s.part_writers_by_shard)

-- `SpillArtifacts` are the part files and the manifest of the state.
pub finish : SpillState → Result SpillError SpillState
unfolding flush_all_buffers_to_parts finish_part_writers
finish s = flush_all_buffers_to_parts s >>= λ s'. ok (finish_part_writers s')
