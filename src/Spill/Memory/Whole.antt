-- ===== src/Spill/Memory/Whole.antt =====
-- The calls of the sink, from the first batch to `finish`: contents and invariant.
use mathlib.Core.List.{Perm, append_assoc, append-nil, perm_append_comm}
use mathlib.Core.List.Perm
use forge_ann.Prelude.{
  ℕ, suc, ◌^◌, ◌<◌, ◌≡◌, refl, ap, ◌∙◌, sym, false, leb, ◌==◌, Bool-cases, Option-cases, inl, inr,
  some, List, [], ◌∷◌, ◌++◌, map, length, All, All-append, arith,
}
use forge_ann.Prelude.Results.{ok}
use forge_ann.Prelude.Sorting.{sort_by, sort_by-perm, length-sort_by}
use forge_ann.Spill.{PendingEdge, SpillRecord}
use forge_ann.Spill.Memory.{
  Buffers, InMemorySpillSegment, InMemorySpillEdgeSink, by_src, buffer_of, extend_buffer,
  take_buffer, make_segment, flush_memory_shard_buffer_to_segment, buffer_length, flush_group,
  flush_groups, flush_pending_edges,
}
use forge_ann.Spill.Memory.Contents.{
  record_of, buffered, spilled, contents, IsOfShard, IsBuffer, IsSegment, IsSink, encode_lem,
}
use forge_ann.Spill.Memory.Flush.{
  perm_front, extend_buffer_lem, extend_buffer-AreDistinct, shard_ids-take_buffer, take_buffer_lem,
  make_segment-IsSegment,
}

-- The same contents, the same shards.
pub record Keeps (s s' : InMemorySpillEdgeSink) : Type 0 where
  pub sink : IsSink s'
  pub points : s'.shard_points ≡ s.shard_points
  pub held : Perm (contents s') (contents s)

spilled-append :
    (xs : List InMemorySpillSegment) (s : InMemorySpillSegment)
    → spilled (xs ++ (s ∷ [])) ≡ spilled xs ++ s.records
spilled-append [] s = append-nil s.records
spilled-append (x ∷ xs) s =
    ap (λ l. x.records ++ l) (spilled-append xs s)
    ∙ sym (append_assoc x.records (spilled xs) s.records)

-- The segment that is cut holds what the buffer held.
cut_perm :
    (rest spilt buffer sorted whole : List SpillRecord)
    → Perm sorted buffer
    → Perm whole (buffer ++ rest)
    → Perm (rest ++ (spilt ++ sorted)) (whole ++ spilt)
cut_perm rest spilt buffer sorted whole p q =
    Perm.trans (rw (← append_assoc rest spilt sorted) (perm_append_comm (rest ++ spilt) sorted)) (
      Perm.trans (Perm.append_right (rest ++ spilt) p)
        (rw (← append_assoc buffer rest spilt) (Perm.append_right spilt (Perm.symm q))))

-- A buffer that is not empty becomes a segment.
cut_lem :
    (s : InMemorySpillEdgeSink) (shard : ℕ)
    → IsSink s
    → (buffer : List SpillRecord) → buffer_of shard s.buffers_by_shard ≡ some buffer
    → 0 < length buffer
    → Keeps s (record s {
      buffers_by_shard = take_buffer shard s.buffers_by_shard;
      segments = s.segments ++ (make_segment shard buffer ∷ []);
    })
unfolding make_segment
cut_lem s shard v buffer e full =
    let (mine, others, p) = take_buffer_lem s.shard_points shard s.buffers_by_shard e v.buffers in
    let whole = length-sort_by by_src buffer in
    let segment = make_segment-IsSegment s.shard_points shard buffer (omega arith) mine in
    record {
      sink = record {
        positive = v.positive;
        buffers = others;
        distinct = rw (shard_ids-take_buffer shard s.buffers_by_shard) v.distinct;
        cut =
            All-append (IsSegment s.shard_points) s.segments (make_segment shard buffer ∷ []) v.cut
              (segment, tt);
      };
      points = refl;
      held = rw (spilled-append s.segments (make_segment shard buffer)) (
          cut_perm (buffered (take_buffer shard s.buffers_by_shard)) (spilled s.segments) buffer
            (sort_by by_src buffer) (buffered s.buffers_by_shard) (sort_by-perm by_src buffer) p);
    }

pub flush_lem :
    (s : InMemorySpillEdgeSink) (shard : ℕ)
    → IsSink s
    → Keeps s (flush_memory_shard_buffer_to_segment s shard)
unfolding flush_memory_shard_buffer_to_segment
flush_lem s shard v = elim (Option-cases (buffer_of shard s.buffers_by_shard)) [
  | inl gone ↦
      rw (flush_memory_shard_buffer_to_segment, gone)
        (record { sink = v; points = refl; held = Perm.refl (contents s) })
  | inr (buffer, e) ↦ elim (Bool-cases (length buffer == 0)) [
    | inl empty ↦
        rw (flush_memory_shard_buffer_to_segment, e, empty)
          (record { sink = v; points = refl; held = Perm.refl (contents s) })
    | inr full ↦
        rw (flush_memory_shard_buffer_to_segment, e, full)
          (cut_lem s shard v buffer e (ground arith))
  ]
]

extend_lem :
    (s : InMemorySpillEdgeSink) (shard : ℕ) (new : List SpillRecord)
    → IsSink s
    → All (IsOfShard s.shard_points shard) new
    → let s' = record s { buffers_by_shard = extend_buffer shard new s.buffers_by_shard } in
      IsSink s' × Perm (contents s') (new ++ contents s)
extend_lem s shard new v a =
    let (b, p) = extend_buffer_lem s.shard_points shard new s.buffers_by_shard a v.buffers in
    (
      record {
        positive = v.positive;
        buffers = b;
        distinct = extend_buffer-AreDistinct shard new s.buffers_by_shard v.distinct;
        cut = v.cut;
      },
      rw (← append_assoc new (buffered s.buffers_by_shard) (spilled s.segments))
          (Perm.append_right (spilled s.segments) p),
    )

-- More contents, the same shards.
pub record Gains (s : InMemorySpillEdgeSink) (new : List SpillRecord) (s' : InMemorySpillEdgeSink)
    : Type 0 where
  pub sink : IsSink s'
  pub points : s'.shard_points ≡ s.shard_points
  pub held : Perm (contents s') (new ++ contents s)

flush_group_lem :
    (s : InMemorySpillEdgeSink) (shard : ℕ) (records : List SpillRecord)
    → IsSink s
    → All (IsOfShard s.shard_points shard) records
    → Gains s records (flush_group s (shard, records))
unfolding flush_group
flush_group_lem s shard records v p =
    let (w, q) = extend_lem s shard records v p in
    let extended = record s { buffers_by_shard = extend_buffer shard records s.buffers_by_shard } in
    let cut = flush_lem extended shard w in
    elim (Bool-cases
      (leb s.flush_threshold_edges (buffer_length shard extended.buffers_by_shard))) [
        | inl full ↦
            rw (flush_group, full)
              (record { sink = cut.sink; points = cut.points; held = Perm.trans cut.held q })
        | inr more ↦ rw (flush_group, more) (record { sink = w; points = refl; held = q })
      ]

pub regroup :
    (new later old mid final : List SpillRecord)
    → Perm mid (new ++ old)
    → Perm final (later ++ mid)
    → Perm final ((new ++ later) ++ old)
regroup new later old mid final p q =
    rw (append_assoc new later old)
      (Perm.trans q (Perm.trans (Perm.append_left later p) (perm_front later new old)))

-- Groups go to the buffers one after the other.
flush_groups_lem :
    (s : InMemorySpillEdgeSink) (groups : Buffers)
    → IsSink s
    → All (IsBuffer s.shard_points) groups
    → Gains s (buffered groups) (flush_groups s groups)
unfolding flush_groups
flush_groups_lem s [] v a = record { sink = v; points = refl; held = Perm.refl (contents s) }
flush_groups_lem s ((shard, records) ∷ groups) v (p, a) =
    let one = flush_group_lem s shard records v p in
    let next = flush_group s (shard, records) in
    let more = flush_groups_lem next groups one.sink (rw one.points a) in
    record {
      sink = more.sink;
      points = more.points ∙ one.points;
      held = regroup records (buffered groups) (contents s) (contents next) _ one.held more.held;
    }

pub flush_pending_edges_lem :
    (s : InMemorySpillEdgeSink) (edges : List PendingEdge)
    → IsSink s
    → All (λ e. e.p < 2 ^ 32) edges
    → (s' : InMemorySpillEdgeSink) × (flush_pending_edges s edges ≡ ok s')
      × Gains s (map record_of edges) s'
unfolding flush_pending_edges
flush_pending_edges_lem s [] v a =
    (s, refl, record { sink = v; points = refl; held = Perm.refl (contents s) })
flush_pending_edges_lem s (edge ∷ edges) v a =
    let (groups, e, p, b) = encode_lem s.shard_points (edge ∷ edges) v.positive a in
    let more = flush_groups_lem s groups v b in
    let some_edges : (suc (length edges) == 0) ≡ false = ground arith in
    (
      flush_groups s groups,
      rw (some_edges, e) refl,
      record {
        sink = more.sink;
        points = more.points;
        held = Perm.trans more.held (Perm.append_right (contents s) p);
      },
    )
