-- ===== src/Spill/Memory/Contents.antt =====
-- What the sink holds, in buffers and segments, and the shards that it is kept apart by.
use mathlib.Core.List.{Perm, append_assoc, append-nil}
use mathlib.Core.List.Perm
use forge_ann.Prelude.{
  ℕ, ◌/◌, ◌^◌, ◌≤◌, ◌<◌, ◌≡◌, refl, ap, ◌∙◌, sym, false, leb, ◌==◌, if◌then◌else◌, Bool-cases, inl,
  inr, List, [], ◌∷◌, ◌++◌, map, length, All, All-append, AreDistinct, arith, max,
}
use forge_ann.Prelude.Results.{ok}
use forge_ann.Prelude.Sorting.{sort_by, sort_by-perm, All-sort_by}
use forge_ann.Spill.{PendingEdge, SpillRecord, from_pending_edge, spill_flag_mandatory}
use forge_ann.Spill.Memory.{
  Buffers, InMemorySpillSegment, InMemorySpillEdgeSink, push_record, encode_edges, by_source,
  encode_spill_records_by_shard, first_src, last_src, shard_ids,
}

-- The record of an edge whose source fits in a u32.
abbrev pub record_of : PendingEdge → SpillRecord
record_of edge = record {
  src = edge.p;
  dst = edge.c;
  hash = edge.hash;
  flags = if edge.mandatory then spill_flag_mandatory else 0;
  dist = edge.dist;
}

abbrev pub buffered : Buffers → List SpillRecord
buffered [] = []
buffered ((t, rs) ∷ buffers) = rs ++ buffered buffers

abbrev pub spilled : List InMemorySpillSegment → List SpillRecord
spilled [] = []
spilled (s ∷ segments) = s.records ++ spilled segments

abbrev pub contents : InMemorySpillEdgeSink → List SpillRecord
contents s = buffered s.buffers_by_shard ++ spilled s.segments

abbrev pub IsOfShard : ℕ → ℕ → SpillRecord → Type 0
IsOfShard shard_points shard r = r.src / shard_points ≡ shard

abbrev pub IsBuffer : ℕ → ℕ × List SpillRecord → Type 0
IsBuffer shard_points b = All (IsOfShard shard_points b.0) b.1

pub record IsSegment (shard_points : ℕ) (s : InMemorySpillSegment) : Type 0 where
  pub filled : 0 < length s.records
  pub first : s.src_min ≡ first_src s.records
  pub last : s.src_max ≡ last_src s.records
  pub apart : All (IsOfShard shard_points s.shard_id) s.records
  pub least : All (λ r. (s.src_min ≤ r.src) × (r.src ≤ s.src_max)) s.records
  pub min_in : s.src_min / shard_points ≡ s.shard_id
  pub max_in : s.src_max / shard_points ≡ s.shard_id

pub record IsSink (s : InMemorySpillEdgeSink) : Type 0 where
  pub positive : 0 < s.shard_points
  pub buffers : All (IsBuffer s.shard_points) s.buffers_by_shard
  pub distinct : AreDistinct (shard_ids s.buffers_by_shard)
  pub cut : All (IsSegment s.shard_points) s.segments

-- Groups of records.
push_record_lem :
    (sp shard : ℕ) (groups : Buffers) (r : SpillRecord)
    → IsOfShard sp shard r
    → All (IsBuffer sp) groups
    → (buffered (push_record groups shard r) ≡ buffered groups ++ (r ∷ []))
      × All (IsBuffer sp) (push_record groups shard r)
unfolding push_record
push_record_lem sp shard [] r q a = (refl, ((q, tt), tt))
push_record_lem sp shard ((t, rs) ∷ []) r q (p, a) = elim (Bool-cases (t == shard)) [
  | inl same ↦
      let e : shard ≡ t = ground arith in
      let q' : IsOfShard sp t r = q ∙ e in
      rw same (
        rw (append-nil rs, append-nil (rs ++ (r ∷ []))) refl,
        (All-append (IsOfShard sp t) rs (r ∷ []) p (q', tt), tt),
      )
  | inr other ↦ rw other (rw (append-nil rs) refl, (p, ((q, tt), tt)))
]
push_record_lem sp shard (g ∷ h ∷ groups) r q (p, a) =
    let (e, b) = push_record_lem sp shard (h ∷ groups) r q a in
    (ap (λ l. g.1 ++ l) e ∙ sym (append_assoc g.1 (buffered (h ∷ groups)) (r ∷ [])), (p, b))

encode_edges_lem :
    (sp : ℕ) (groups : Buffers) (edges : List PendingEdge)
    → All (λ e. e.p < 2 ^ 32) edges
    → All (IsBuffer sp) groups
    → (groups' : Buffers) × (encode_edges sp groups edges ≡ ok groups')
      × (buffered groups' ≡ buffered groups ++ map record_of edges)
      × All (IsBuffer sp) groups'
unfolding encode_edges from_pending_edge
encode_edges_lem sp groups [] h a = (groups, refl, sym (append-nil (buffered groups)), a)
encode_edges_lem sp groups (edge ∷ edges) (small, h) a =
    let fits : leb (2 ^ 32) edge.p ≡ false = ground arith in
    let r = record_of edge in
    let (e, b) = push_record_lem sp (edge.p / sp) groups r refl a in
    let (groups', f, c, d) = encode_edges_lem sp (push_record groups (edge.p / sp) r) edges h b in
    (
      groups',
      rw fits f,
      c
          ∙ ap (λ l. l ++ map record_of edges) e
          ∙ append_assoc (buffered groups) (r ∷ []) (map record_of edges),
      d,
    )

pub encode_lem :
    (sp : ℕ) (edges : List PendingEdge)
    → 0 < sp
    → All (λ e. e.p < 2 ^ 32) edges
    → (groups : Buffers) × (encode_spill_records_by_shard edges sp ≡ ok groups)
      × Perm (buffered groups) (map record_of edges)
      × All (IsBuffer sp) groups
unfolding encode_spill_records_by_shard
encode_lem sp edges pos h =
    let one : max sp 1 ≡ sp = omega arith in
    let (groups, e, f, a) =
      encode_edges_lem sp [] (sort_by by_source edges)
        (All-sort_by by_source (λ e. e.p < 2 ^ 32) edges h) tt in
    (groups, rw one e, rw f (Perm.map record_of (sort_by-perm by_source edges)), a)
