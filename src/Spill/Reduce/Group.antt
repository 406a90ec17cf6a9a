-- ===== src/Spill/Reduce/Group.antt =====
-- One group: its slab spans the group's points, so there is a single chunk.
use mathlib.Core.List.{append_assoc, append-nil}
use native.Mathlib.Nat.{mod-eq_of_lt}
use forge_ann.Prelude.{
  ℕ, zero, suc, ◌+◌, ◌-◌, ◌%◌, ◌^◌, ◌≤◌, ◌<◌, ◌≡◌, refl, ap, subst, ◌∙◌, min, max, true, false, ltb,
  leb, Bool-cases, inl, inr, some, List, [], ◌∷◌, ◌++◌, All, arith, length, map,
}
use forge_ann.Prelude.Results.{Result, ok, Result-cases}
use forge_ann.Prelude.Sorting.{sort_by, All-sort_by}
use forge_ann.Reservoir.{Reservoir, new}
use forge_ann.Reservoir.Insert.{IsCandidate}
use forge_ann.Spill.{SpillRecord, SpillError, to_pending_edge}
use forge_ann.Spill.Memory.{InMemorySpillSegment, by_src}
use forge_ann.Spill.Memory.Contents.{spilled}
use forge_ann.Spill.Reduce.{
  Chunk, by_range, sort_records, emit_shard, advance, reduce_records, reduce_segments, emit_chunks,
  reduce_in_memory_segment_group_in_range,
}
use forge_ann.Spill.Reduce.Rows.{rows, emit_rows}
use forge_ann.Spill.Reduce.Slab.{
  Filled, Filled-below, allocate_reservoir_slab_lem, insert_local_lem, emit_points_lem,
}

-- A record that the reservoirs take and that lies below the end of its shard.
abbrev pub IsBelow : ℕ → SpillRecord → Type 0
IsBelow end r = (r.src < end) × IsCandidate r.hash r.dist

-- The order in which a group's records reach the slab.
abbrev pub group_order : List InMemorySpillSegment → List SpillRecord
group_order group = spilled (sort_by by_range (map sort_records group))

module _ {S : Type 0} (on_point_done : ℕ → List ℕ → S → Result SpillError S)
    (start end step l : ℕ) where
  abbrev whole : List Reservoir → Chunk
  whole slab = record { chunk_start = start; chunk_end = end; reservoirs = slab }

  -- The slab is filled with more records; the callback is not called.
  record Fed (before after : List SpillRecord) (slab : List Reservoir) (s : S)
      (out : Result SpillError (Chunk × S)) : Type 0 where
    slab' : List Reservoir
    runs : out ≡ ok (whole slab', s)
    long : length slab' ≡ length slab
    filled : Filled l start (before ++ after) slab'

  advance_lem :
      (fuel p : ℕ) (c : Chunk) (s : S)
      → p < c.chunk_end
      → advance on_point_done start end step l (suc fuel) p c s ≡ ok (c, s)
  unfolding advance
  advance_lem fuel p c s h =
      let e : leb c.chunk_end p ≡ false = ground arith in rw (advance, e) refl

  reduce_records_lem :
      (before records : List SpillRecord) (slab : List Reservoir) (s : S)
      → All (IsBelow end) records
      → start + length slab ≡ end
      → Filled l start before slab
      → Fed before records slab s
          (reduce_records on_point_done start end step l records (whole slab) s)
  unfolding reduce_records to_pending_edge
  reduce_records_lem before [] slab s a n f = record {
    slab' = slab;
    runs = refl;
    long = refl;
    filled = rw (append-nil before) f;
  }
  reduce_records_lem before (r ∷ records) slab s ((h, c), a) n f =
      elim (Bool-cases (ltb r.src start)) [
        | inl below ↦
            let g = Filled-below l start before r slab (ground arith) f in
            let more = reduce_records_lem (before ++ (r ∷ [])) records slab s a n g in
            record {
              slab' = more.slab';
              runs = rw (reduce_records, below) more.runs;
              long = more.long;
              filled =
                  subst (λ t. Filled l start t more.slab') (append_assoc before (r ∷ []) records)
                    more.filled;
            }
        | inr above ↦
            let low : start ≤ r.src = ground arith in
            let inside : leb end r.src ≡ false = ground arith in
            let (slab1, e, m, g) =
              insert_local_lem l start (r.src - start) before r slab (omega arith) (omega arith) c
                f in
            let more = reduce_records_lem (before ++ (r ∷ [])) records slab1 s a (omega arith) g in
            record {
              slab' = more.slab';
              runs =
                  rw
                    (
                      reduce_records,
                      above,
                      inside,
                      advance_lem end r.src (whole slab) s h,
                      above,
                      e,
                    )
                    more.runs;
              long = more.long ∙ m;
              filled =
                  subst (λ t. Filled l start t more.slab') (append_assoc before (r ∷ []) records)
                    more.filled;
            }
      ]

  reduce_segments_lem :
      (before : List SpillRecord) (segments : List InMemorySpillSegment) (slab : List Reservoir)
      (s : S)
      → All (λ t. All (IsBelow end) t.records) segments
      → start + length slab ≡ end
      → Filled l start before slab
      → Fed before
          (spilled segments)
          slab
          s
          (reduce_segments on_point_done start end step l segments (whole slab) s)
  unfolding reduce_segments
  reduce_segments_lem before [] slab s a n f = record {
    slab' = slab;
    runs = refl;
    long = refl;
    filled = rw (append-nil before) f;
  }
  reduce_segments_lem before (t ∷ segments) slab s (h, a) n f =
      let one = reduce_records_lem before t.records slab s h n f in
      let m = one.long in
      let more =
        reduce_segments_lem (before ++ t.records) segments one.slab' s a (omega arith) one.filled in
      record {
        slab' = more.slab';
        runs = rw one.runs more.runs;
        long = more.long ∙ m;
        filled =
            subst (λ q. Filled l start q more.slab')
              (append_assoc before t.records (spilled segments)) more.filled;
      }

  emit_chunks-done :
      (fuel : ℕ) (c : Chunk) (s : S)
      → c.chunk_start ≡ end
      → 0 < fuel
      → emit_chunks on_point_done start end step l fuel c s ≡ ok s
  unfolding emit_chunks
  emit_chunks-done zero c s e h = absurd (omega arith)
  emit_chunks-done (suc fuel) c s e h =
      let no : ltb c.chunk_start end ≡ false = ground arith in rw (emit_chunks, no) refl

  -- The slab's rows, and the end of the loop.
  emit_chunks_lem :
      (records : List SpillRecord) (slab : List Reservoir) (s : S)
      → start < end
      → start + length slab ≡ end
      → Filled l start records slab
      → emit_chunks on_point_done start end step l (suc end) (whole slab) s
        ≡ emit_rows on_point_done (rows l records start (end - start)) s
  unfolding emit_chunks emit_shard
  emit_chunks_lem records slab s h n f =
      let some_points : ltb start end ≡ true = ground arith in
      let last : ltb end end ≡ false = ground arith in
      let size : end - start ≡ length slab = omega arith in
      rw (emit_chunks, some_points, size, emit_points_lem on_point_done l start records slab s f)
        (elim (Result-cases (emit_rows on_point_done (rows l records start (length slab)) s)) [
          | inl (s', e) ↦ rw (e, last) (emit_chunks-done end _ s' refl (omega arith))
          | inr (x, e) ↦ rw e refl
        ])

module _ {S : Type 0} (on_point_done : ℕ → List ℕ → S → Result SpillError S) where
  -- The rows of a group.
  pub reduce_group_lem :
      (start end l sp : ℕ) {r : Reservoir} (group : List InMemorySpillSegment) (s : S)
      → new l ≡ some r
      → start < end
      → end ≤ start + sp
      → end < 2 ^ 64
      → All (λ t. All (IsBelow end) t.records) group
      → reduce_in_memory_segment_group_in_range on_point_done start end l sp group s
        ≡ emit_rows on_point_done (rows l (group_order group) start (end - start)) s
  unfolding reduce_in_memory_segment_group_in_range sort_records
  reduce_group_lem start end l sp group s e h k b a =
      let some_points : leb end start ≡ false = ground arith in
      let step : min (max sp 1) (max (end - start) 1) ≡ end - start = omega arith in
      let total : start + (end - start) ≡ end = omega arith in
      let m : (start + (end - start)) % 2 ^ 64 ≡ end =
        ap (λ t. t % 2 ^ 64) total ∙ mod-eq_of_lt b in
      let same : min end end ≡ end = omega arith in
      let (slab, f, n, filled) = allocate_reservoir_slab_lem l start (end - start) e in
      let records =
        All-sort_by by_range (λ t. All (IsBelow end) t.records) (map sort_records group)
          (sorted group a) in
      let fed =
        reduce_segments_lem on_point_done start end (end - start) l []
          (sort_by by_range (map sort_records group)) slab s records (omega arith) filled in
      let long = fed.long in
      rw (some_points, step, m, same, f, fed.runs)
        (emit_chunks_lem on_point_done start end (end - start) l (group_order group) fed.slab' s h
          (omega arith) fed.filled)
    where
      sorted :
          (segments : List InMemorySpillSegment)
          → All (λ t. All (IsBelow end) t.records) segments
          → All (λ t. All (IsBelow end) t.records) (map sort_records segments)
      sorted [] q = tt
      sorted (t ∷ segments) (p, q) =
          (All-sort_by by_src (IsBelow end) t.records p, sorted segments q)
