-- ===== src/Spill/Memory/Refused.antt =====
-- A batch with an edge whose source needs more than 32 bits.
use forge_ann.Prelude.{
  or_left_comm, ℕ, suc, ◌/◌, ◌^◌, ◌≡◌, refl, Bool, true, false, leb, ◌==◌, ◌||◌, Bool-cases, inl,
  inr, List, [], ◌∷◌, arith, max, length,
}
use forge_ann.Prelude.Results.{err}
use forge_ann.Prelude.Sorting.{insert_by, sort_by}
use forge_ann.Spill.{PendingEdge, source_too_large, from_pending_edge}
use forge_ann.Spill.Memory.{
  Buffers, InMemorySpillEdgeSink, by_source, push_record, encode_edges,
  encode_spill_records_by_shard, flush_pending_edges,
}

unfoldable pub has_large : List PendingEdge → Bool
has_large [] = false
has_large (edge ∷ edges) = leb (2 ^ 32) edge.p || has_large edges

has_large-insert_by :
    (e : PendingEdge) (edges : List PendingEdge)
    → has_large (insert_by by_source e edges) ≡ (leb (2 ^ 32) e.p || has_large edges)
unfolding has_large insert_by
has_large-insert_by e [] = refl
has_large-insert_by e (f ∷ edges) = elim (Bool-cases (by_source e f)) [
  | inl first ↦ rw first refl
  | inr later ↦
      let more = has_large-insert_by e edges in
      rw (later, more) (or_left_comm (leb (2 ^ 32) f.p) (leb (2 ^ 32) e.p) (has_large edges))
]

has_large-sort_by :
    (edges : List PendingEdge) → has_large (sort_by by_source edges) ≡ has_large edges
unfolding has_large sort_by
has_large-sort_by [] = refl
has_large-sort_by (e ∷ edges) =
    rw (has_large-insert_by e (sort_by by_source edges), has_large-sort_by edges) refl

encode_edges-large :
    (sp : ℕ) (groups : Buffers) (edges : List PendingEdge)
    → has_large edges ≡ true
    → encode_edges sp groups edges ≡ err source_too_large
unfolding has_large encode_edges from_pending_edge
encode_edges-large sp groups [] h = cc
encode_edges-large sp groups (edge ∷ edges) h = elim (Bool-cases (leb (2 ^ 32) edge.p)) [
  | inl large ↦ rw large refl
  | inr small ↦
      let rest : has_large edges ≡ true = ground arith in
      rw small (encode_edges-large sp (push_record groups (edge.p / sp) _) edges rest)
]

-- A batch in which some source is 2^32 or more, at whatever place, is refused with the error for such
-- sources, in every state of the sink.
pub flush_pending_edges-large :
    (s : InMemorySpillEdgeSink) (edges : List PendingEdge)
    → has_large edges ≡ true
    → flush_pending_edges s edges ≡ err source_too_large
unfolding flush_pending_edges encode_spill_records_by_shard has_large
flush_pending_edges-large s [] h = cc
flush_pending_edges-large s (edge ∷ edges) h =
    let some_edges : (suc (length edges) == 0) ≡ false = ground arith in
    let e =
      encode_edges-large (max s.shard_points 1) [] (sort_by by_source (edge ∷ edges))
        (rw (has_large-sort_by (edge ∷ edges)) h) in
    rw (some_edges, e) refl
