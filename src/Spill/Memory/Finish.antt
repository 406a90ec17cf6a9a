-- ===== src/Spill/Memory/Finish.antt =====
-- `finish`: the buffers that are left are cut, and a run of the sink from its creation.
use mathlib.Core.List.{Perm, append-nil}
use mathlib.Core.List.Perm
use forge_ann.Prelude.{
  ℕ, ◌^◌, ◌<◌, ◌≡◌, ◌≢◌, refl, ap, ◌∙◌, sym, subst, true, ◌==◌, Bool-cases, Option-cases, inl, inr,
  none, some, List, [], ◌∷◌, ◌++◌, map, length, All, AreDistinct, arith, max, contains, Within,
  Within-refl, ◌⊎◌,
}
use forge_ann.Prelude.Results.{Result, ok, ◌>>=◌}
use forge_ann.Spill.{PendingEdge, SpillRecord, SpillError}
use forge_ann.Spill.Memory.{
  Buffers, InMemorySpillEdgeSink, buffer_of, take_buffer, flush_memory_shard_buffer_to_segment,
  create_sharded, flush_pending_edges, flush_shards, shard_ids,
  flush_all_memory_buffers_to_segments, finish,
}
use forge_ann.Spill.Memory.Contents.{record_of, buffered, spilled, contents, IsSegment, IsSink}
use forge_ann.Spill.Memory.Whole.{Keeps, flush_lem, regroup, flush_pending_edges_lem}

-- A buffer that is still to be visited, or is empty.
abbrev Left : List ℕ → ℕ × List SpillRecord → Type 0
Left shards b = (contains b.0 shards ≡ true) ⊎ (b.1 ≡ [])

take_buffer-none :
    (shard : ℕ) (buffers : Buffers)
    → buffer_of shard buffers ≡ none
    → take_buffer shard buffers ≡ buffers
unfolding take_buffer buffer_of
take_buffer-none shard [] e = refl
take_buffer-none shard ((t, b) ∷ buffers) e = elim (Bool-cases (t == shard)) [
  | inl same ↦ absurd (ground arith)
  | inr other ↦
      let e' : buffer_of shard buffers ≡ none = ground arith in
      rw other (ap (λ l. (t, b) ∷ l) (take_buffer-none shard buffers e'))
]

take_buffer-empty :
    (shard : ℕ) (buffers : Buffers)
    → buffer_of shard buffers ≡ some []
    → take_buffer shard buffers ≡ buffers
unfolding take_buffer buffer_of
take_buffer-empty shard [] e = refl
take_buffer-empty shard ((t, b) ∷ buffers) e = elim (Bool-cases (t == shard)) [
  | inl same ↦ let r : b ≡ [] = ground arith in rw (same, r) refl
  | inr other ↦
      let e' : buffer_of shard buffers ≡ some [] = ground arith in
      rw other (ap (λ l. (t, b) ∷ l) (take_buffer-empty shard buffers e'))
]

length_zero : (xs : List SpillRecord) → (length xs == 0) ≡ true → xs ≡ []
length_zero [] e = refl
length_zero (x ∷ xs) e = absurd (ground arith)

flush-take_buffer :
    (s : InMemorySpillEdgeSink) (shard : ℕ)
    → (flush_memory_shard_buffer_to_segment s shard).buffers_by_shard
      ≡ take_buffer shard s.buffers_by_shard
unfolding flush_memory_shard_buffer_to_segment
flush-take_buffer s shard = elim (Option-cases (buffer_of shard s.buffers_by_shard)) [
  | inl gone ↦
      rw (flush_memory_shard_buffer_to_segment, gone)
        (sym (take_buffer-none shard s.buffers_by_shard gone))
  | inr (buffer, e) ↦ elim (Bool-cases (length buffer == 0)) [
    | inl empty ↦
        let e' = e ∙ ap some (length_zero buffer empty) in
        rw (flush_memory_shard_buffer_to_segment, e, empty)
          (sym (take_buffer-empty shard s.buffers_by_shard e'))
    | inr full ↦ rw (flush_memory_shard_buffer_to_segment, e, full) refl
  ]
]

visited :
    (shard : ℕ) (shards : List ℕ) (buffers : Buffers)
    → All (λ t. t ≢ shard) (shard_ids buffers)
    → All (Left (shard ∷ shards)) buffers
    → All (Left shards) buffers
visited shard shards [] d a = tt
visited shard shards ((t, b) ∷ buffers) (n, d) (p, a) = (
  elim p [ inl here ↦ inl (ground arith) | inr empty ↦ inr empty ],
  visited shard shards buffers d a,
)

take_buffer-visits :
    (shard : ℕ) (shards : List ℕ) (buffers : Buffers)
    → AreDistinct (shard_ids buffers)
    → All (Left (shard ∷ shards)) buffers
    → All (Left shards) (take_buffer shard buffers)
unfolding take_buffer
take_buffer-visits shard shards [] d a = tt
take_buffer-visits shard shards ((t, b) ∷ buffers) (n, d) (p, a) = elim (Bool-cases (t == shard)) [
  | inl same ↦
      let q : t ≡ shard = ground arith in
      rw same (
        inr refl,
        visited shard shards buffers (subst (λ s. All (λ u. u ≢ s) (shard_ids buffers)) q n) a,
      )
  | inr other ↦
      let here : Left shards (t, b) = elim p [
        | inl later ↦ inl (ground arith)
        | inr empty ↦ inr empty
      ] in
      rw other (here, take_buffer-visits shard shards buffers d a)
]

buffered-of_Left : (buffers : Buffers) → All (Left []) buffers → buffered buffers ≡ []
buffered-of_Left [] a = refl
buffered-of_Left ((t, b) ∷ buffers) (inl p, a) = cc
buffered-of_Left ((t, b) ∷ buffers) (inr e, a) = rw e (buffered-of_Left buffers a)

flush_shards_lem :
    (s : InMemorySpillEdgeSink) (shards : List ℕ)
    → IsSink s
    → All (Left shards) s.buffers_by_shard
    → Keeps s (flush_shards s shards) × (buffered (flush_shards s shards).buffers_by_shard ≡ [])
unfolding flush_shards
flush_shards_lem s [] v a = (
  record { sink = v; points = refl; held = Perm.refl (contents s) },
  buffered-of_Left s.buffers_by_shard a,
)
flush_shards_lem s (shard ∷ shards) v a =
    let next = flush_memory_shard_buffer_to_segment s shard in
    let one = flush_lem s shard v in
    let left = take_buffer-visits shard shards s.buffers_by_shard v.distinct a in
    let (more, e) =
      flush_shards_lem next shards one.sink
        (subst (All (Left shards)) (sym (flush-take_buffer s shard)) left) in
    (
      record {
        sink = more.sink;
        points = more.points ∙ one.points;
        held = Perm.trans more.held one.held;
      },
      e,
    )

Left-shard_ids :
    (shards : List ℕ) (buffers : Buffers)
    → Within shards (shard_ids buffers)
    → All (Left shards) buffers
Left-shard_ids shards [] w = tt
Left-shard_ids shards ((t, b) ∷ buffers) (p, w) = (inl p, Left-shard_ids shards buffers w)

-- After `finish` every record is in a segment.
pub finish_lem :
    (s : InMemorySpillEdgeSink)
    → IsSink s
    → All (IsSegment s.shard_points) (finish s).segments
      × Perm (spilled (finish s).segments) (contents s)
unfolding finish flush_all_memory_buffers_to_segments
finish_lem s v =
    let ids = shard_ids s.buffers_by_shard in
    let (k, e) =
      flush_shards_lem s ids v (Left-shard_ids ids s.buffers_by_shard (Within-refl ids)) in
    (
      subst (λ p. All (IsSegment p) (flush_shards s ids).segments) k.points k.sink.cut,
      subst (λ l. Perm (l ++ spilled (flush_shards s ids).segments) (contents s)) e k.held,
    )

-- Batches of edges, in the order in which they reach the sink.
pub flush_batches :
    InMemorySpillEdgeSink → List (List PendingEdge) → Result SpillError InMemorySpillEdgeSink
flush_batches s [] = ok s
flush_batches s (edges ∷ batches) = flush_pending_edges s edges >>= λ s'. flush_batches s' batches

abbrev pub batch_records : List (List PendingEdge) → List SpillRecord
batch_records [] = []
batch_records (edges ∷ batches) = map record_of edges ++ batch_records batches

abbrev pub AreSmall : List (List PendingEdge) → Type 0
AreSmall batches = All (All (λ e. e.p < 2 ^ 32)) batches

flush_batches_lem :
    (s : InMemorySpillEdgeSink) (batches : List (List PendingEdge))
    → IsSink s
    → AreSmall batches
    → (s' : InMemorySpillEdgeSink) × (flush_batches s batches ≡ ok s')
      × IsSink s'
      × (s'.shard_points ≡ s.shard_points)
      × Perm (contents s') (batch_records batches ++ contents s)
unfolding flush_batches
flush_batches_lem s [] v a = (s, refl, v, refl, Perm.refl (contents s))
flush_batches_lem s (edges ∷ batches) v (p, a) =
    let (m, e, g) = flush_pending_edges_lem s edges v p in
    let (s', f, w, q, r) = flush_batches_lem m batches g.sink a in
    (
      s',
      rw e f,
      w,
      q ∙ g.points,
      regroup (map record_of edges) (batch_records batches) (contents s) (contents m) (contents s')
          g.held r,
    )

-- Batches of edges with 32-bit sources, sent to a new sink, are all accepted; the segments at `finish`
-- hold a permutation of their records, each segment is of one shard and holds something, and states the
-- least and the greatest of its sources.
pub flush_batches-finish :
    (spill_cache_bytes shard_points : ℕ) (batches : List (List PendingEdge))
    → AreSmall batches
    → (s : InMemorySpillEdgeSink) × (flush_batches
          (create_sharded spill_cache_bytes shard_points)
          batches
        ≡ ok s)
      × ((finish s).shard_points ≡ max shard_points 1)
      × All (IsSegment (max shard_points 1)) (finish s).segments
      × Perm (spilled (finish s).segments) (batch_records batches)
unfolding create_sharded finish
flush_batches-finish spill_cache_bytes shard_points batches small =
    let s0 = create_sharded spill_cache_bytes shard_points in
    let v : IsSink s0 = record { positive = omega arith; buffers = tt; distinct = tt; cut = tt } in
    let (s, e, w, q, p) = flush_batches_lem s0 batches v small in
    let (segments, r) = finish_lem s w in
    (
      s,
      e,
      q,
      subst (λ n. All (IsSegment n) (finish s).segments) q segments,
      subst (λ l. Perm (spilled (finish s).segments) l) (append-nil (batch_records batches))
          (Perm.trans r p),
    )
