-- ===== src/Spill/InMemory.antt =====
-- The sink in memory and the reducer together: from the batches of edges to the rows of the points.
use mathlib.Core.List.{Perm}
use mathlib.Core.List.Perm
use forge_ann.Prelude.{
  ℕ, ◌+◌, ◌-◌, ◌^◌, ◌≤◌, ◌<◌, ◌≡◌, refl, sym, subst, max, leb, ◌==◌, ◌||◌, Bool-cases, inl, inr,
  some, List, [], ◌∷◌, All, All-imp, All-append, All-of_append, arith, map,
}
use native.Mathlib.Bridge.{le_prop}
use forge_ann.Prelude.Results.{Result, ok, ◌>>=◌}
use forge_ann.Prelude.Sorting.{sort_by, All-sort_by, sort_by-Ascends}
use forge_ann.Prelude.Perms.{All-perm}
use forge_ann.Reservoir.{Reservoir, new}
use forge_ann.Reservoir.Insert.{IsCandidate}
use forge_ann.Spill.{PendingEdge, SpillRecord, SpillError}
use forge_ann.Spill.Memory.{InMemorySpillSegment, InMemorySpillEdgeSink, create_sharded, finish}
use forge_ann.Spill.Memory.Contents.{record_of, spilled, IsSegment}
use forge_ann.Spill.Memory.Finish.{flush_batches, batch_records, AreSmall, flush_batches-finish}
use forge_ann.Spill.Reduce.{
  SpillReduceStats, by_shard, shard_runs, no_stats, reduce_stats,
  reduce_in_memory_segments_sharded_in_order_from,
}
use forge_ann.Spill.Reduce.Rows.{rows, emit_rows}
use forge_ann.Spill.Reduce.Group.{IsBelow}
use forge_ann.Spill.Reduce.Order.{run_orders, IsGood, shard_runs_lem, run_orders-shard_runs}
use forge_ann.Spill.Reduce.Whole.{reduce_runs_lem}

-- An edge whose source is below `n` and of 32 bits, with a candidate's hash and distance.
abbrev pub IsEdge : ℕ → PendingEdge → Type 0
IsEdge n e = (e.p < n) × (e.p < 2 ^ 32) × IsCandidate e.hash e.dist

small_lem :
    (n : ℕ) (batches : List (List PendingEdge)) → All (All (IsEdge n)) batches → AreSmall batches
small_lem n batches a = All-imp (λ edges b. All-imp (λ e (p, q, c). q) edges b) batches a

map_lem :
    (n : ℕ) (edges : List PendingEdge)
    → All (IsEdge n) edges
    → All (IsBelow n) (map record_of edges)
map_lem n [] a = tt
map_lem n (e ∷ edges) ((p, q, c), a) = ((p, c), map_lem n edges a)

records_lem :
    (n : ℕ) (batches : List (List PendingEdge))
    → All (All (IsEdge n)) batches
    → All (IsBelow n) (batch_records batches)
records_lem n [] a = tt
records_lem n (edges ∷ batches) (p, a) =
    All-append (IsBelow n) (map record_of edges) (batch_records batches) (map_lem n edges p)
      (records_lem n batches a)

good_lem :
    (sp n : ℕ) (segments : List InMemorySpillSegment)
    → All (IsSegment sp) segments
    → All (IsBelow n) (spilled segments)
    → All (IsGood sp n) segments
good_lem sp n [] a b = tt
good_lem sp n (s ∷ segments) (p, a) b =
    let (q, c) = All-of_append (IsBelow n) s.records (spilled segments) b in
    ((p, q), good_lem sp n segments a c)

module _ {S : Type 0} (on_point_done : ℕ → List ℕ → S → Result SpillError S) where
  reduce_lem :
      (n start l sp : ℕ) {r : Reservoir} (segments : List InMemorySpillSegment) (s : S)
      → new l ≡ some r
      → 0 < sp
      → n + sp ≤ 2 ^ 64
      → All (IsGood sp n) segments
      → (stats : SpillReduceStats) × (reduce_in_memory_segments_sharded_in_order_from on_point_done
            n start l
            (record { shard_points = sp; segments = segments })
            s
          ≡ (emit_rows on_point_done
                (rows l (run_orders (shard_runs (sort_by by_shard segments))) start (n - start))
                s
              >>= λ s'. ok (stats, s')))
  unfolding reduce_in_memory_segments_sharded_in_order_from rows emit_rows
  reduce_lem n start l sp segments s fresh pos fits good =
      elim (Bool-cases ((n == 0) || leb n start)) [
        | inl nothing ↦ let z : n - start ≡ 0 = ground arith in (no_stats, rw (nothing, z) refl)
        | inr some_points ↦
            let sorted = sort_by by_shard segments in
            let up =
              sort_by-Ascends by_shard (λ t. t.shard_id) (λ x y e. ground arith)
                (λ x y e. ground arith) segments in
            let runs =
              shard_runs_lem sp n 0 sorted up (All-sort_by by_shard (IsGood sp n) segments good) in
            (
              reduce_stats sorted,
              rw
                  (
                    some_points,
                    reduce_runs_lem on_point_done n start l sp fresh pos fits 0 start
                        (shard_runs sorted) s runs (omega arith) (omega arith) (ground arith),
                  )
                  refl,
            )
      ]

  -- For reservoirs of positive capacity, and points that with one shard more fit in a usize: batches of edges
  -- whose sources are below `n` and of 32 bits, and whose hashes and distances have their width,
  -- are spilled in any number of calls and finished. Every call succeeds, and the reducer calls the
  -- callback for each point from `start` to `n - 1` in ascending order, with what the point's new
  -- reservoir keeps of its edges, as one permutation of all records orders them. It fails only
  -- where the callback fails.
  pub spill_and_reduce :
      (spill_cache_bytes shard_points n start l : ℕ) {r : Reservoir}
      (batches : List (List PendingEdge)) (s : S)
      → new l ≡ some r
      → n + max shard_points 1 ≤ 2 ^ 64
      → All (All (IsEdge n)) batches
      → (sink : InMemorySpillEdgeSink) × (flush_batches
            (create_sharded spill_cache_bytes shard_points)
            batches
          ≡ ok sink)
        × (stats : SpillReduceStats) × (order : List SpillRecord) × Perm order
            (batch_records batches)
        × (reduce_in_memory_segments_sharded_in_order_from on_point_done n start l (finish sink) s
            ≡ (emit_rows on_point_done (rows l order start (n - start)) s >>= λ s'. ok (stats, s')))
  spill_and_reduce bytes shard_points n start l batches s fresh fits edges =
      let (sink, e, points, valid, p) =
        flush_batches-finish bytes shard_points batches (small_lem n batches edges) in
      let below =
        All-perm (IsBelow n) (λ r. hlevel (le_prop)) (Perm.symm p) (records_lem n batches edges) in
      let good = good_lem (max shard_points 1) n (finish sink).segments valid below in
      let (stats, f) =
        reduce_lem n start l (max shard_points 1) (finish sink).segments s fresh (omega arith) fits
          good in
      let order = run_orders (shard_runs (sort_by by_shard (finish sink).segments)) in
      (
        sink,
        e,
        stats,
        order,
        Perm.trans (run_orders-shard_runs (finish sink).segments) p,
        subst
            (λ k.
              reduce_in_memory_segments_sharded_in_order_from on_point_done n start l
                (record { shard_points = k; segments = (finish sink).segments }) s
              ≡ (emit_rows on_point_done (rows l order start (n - start)) s >>= λ s'.
                  ok (stats, s')))
            (sym points) f,
      )
