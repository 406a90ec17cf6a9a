-- ===== src/FinalPrune/Outcome.antt =====
-- The whole of `robust_prune_candidates`.
use forge_ann.Prelude.{
  ℕ, zero, suc, ◌≤◌, ◌≡◌, ◌≢◌, ◌⊎◌, inl, inr, refl, sym, subst, Bool, Bool-cases, true, false, ltb,
  ◌&&◌, ◌==◌, if◌then◌else◌, List, [], ◌∷◌, length, take, contains, AreDistinct, Within,
  Within-refl, All, arith,
}
use forge_ann.Prelude.Results.{ok}
use forge_ann.Float32.{f32_lt}
use forge_ann.FinalPrune.{
  Metric, ip, Neighbor, Dataset, f32_max_value, f32_one, sort_unstable, saturate,
  robust_prune_candidates,
}
use forge_ann.FinalPrune.Sweep.{AreEdges, IsReadable}
use forge_ann.FinalPrune.Order.{
  neighbor_ids, fresh_candidates, candidate_ids-fresh, fresh-Settled, All-sort_unstable, All-take,
  sort_unstable-AreDistinct, take-AreDistinct,
}
use forge_ann.FinalPrune.Robust.{Leaves, IsServed, no_edges, alpha_rounds_lem, saturate_lem}

empty_lem :
    (P : Neighbor → Type 0) (k : ℕ) (ns : List Neighbor)
    → length ns ≡ 0
    → All P (take k (sort_unstable ns))
unfolding sort_unstable
empty_lem P zero [] e = tt
empty_lem P (suc k) [] e = tt
empty_lem P k (n ∷ ns) e = absurd (omega arith)

module _ (data_set : Dataset) (metric : Metric) (location max_degree alpha : ℕ) (ns : List Neighbor)
    (supported : metric ≢ ip) (readable : IsReadable data_set metric (neighbor_ids ns))
    (finite : f32_lt alpha f32_max_value ≡ true) (distinct : AreDistinct (neighbor_ids ns)) where
  sorted_lem :
      (k : ℕ)
      → AreDistinct (neighbor_ids (take k (sort_unstable ns)))
        × Within (neighbor_ids ns) (neighbor_ids (take k (sort_unstable ns)))
  sorted_lem k = (
    take-AreDistinct k (sort_unstable ns) (sort_unstable-AreDistinct ns distinct),
    All-take (λ x. contains x (neighbor_ids ns) ≡ true) k (sort_unstable ns)
        (All-sort_unstable (λ x. contains x (neighbor_ids ns) ≡ true) ns
          (Within-refl (neighbor_ids ns))),
  )

  -- The edges before and after the last loop.
  saturated_lem :
      (sorted : List Neighbor) (edges : List ℕ) (saturating : Bool)
      → Within (neighbor_ids ns) (neighbor_ids sorted)
      → AreEdges (neighbor_ids ns) location max_degree edges
      → (full : List ℕ) × ((if saturating
            then saturate data_set metric location max_degree alpha sorted edges
            else edges)
          ≡ full)
        × AreEdges (neighbor_ids ns) location max_degree full
        × ((saturating ≡ false)
            ⊎ ((max_degree ≤ length full) ⊎ All (IsServed location full) sorted))
  saturated_lem sorted edges false w g = (edges, refl, g, inl refl)
  saturated_lem sorted edges true w g =
      let (full, e, g', _, end) =
        saturate_lem data_set metric location max_degree alpha (neighbor_ids ns) supported readable
          finite sorted edges w g in
      (full, e, g', inr end)

  -- A row of distinct, readable neighbours is pruned without an error, a panic of the sort on NaNs
  -- aside, under a metric that the prune supports and an alpha below f32::MAX, to at most
  -- `max_degree` distinct edges of the row without `location`; and if it is saturated, then
  -- the degree is reached or every neighbour that was considered is an edge or `location`. The
  -- loop over `cur_alpha` ends within `rounds` rounds if so many factors of 1.2 pass `alpha`.
  pub robust_prune_candidates_lem :
      (rounds max_candidate_size : ℕ) (saturate_graph : Bool)
      → Leaves data_set alpha rounds f32_one
      → (edges : List ℕ) × (robust_prune_candidates data_set metric location max_degree alpha rounds
            ns max_candidate_size saturate_graph
          ≡ ok edges)
        × AreEdges (neighbor_ids ns) location max_degree edges
        × (((saturate_graph && f32_lt f32_one alpha) ≡ false)
            ⊎ ((max_degree ≤ length edges)
                ⊎ All (IsServed location edges) (take max_candidate_size (sort_unstable ns))))
  unfolding robust_prune_candidates
  robust_prune_candidates_lem rounds k sat leaves = elim (Bool-cases (length ns == 0)) [
    | inl empty ↦ (
      [],
      rw empty refl,
      no_edges (neighbor_ids ns) location max_degree,
      inr (inr (empty_lem (IsServed location []) k ns (ground arith))),
    )
    | inr some ↦
        let sorted = take k (sort_unstable ns) in
        let (d, w) = sorted_lem k in
        let i = candidate_ids-fresh sorted in
        let (edges, e, g) =
          alpha_rounds_lem data_set metric location max_degree alpha (neighbor_ids ns) supported
            readable finite rounds f32_one (fresh_candidates sorted) [] leaves
            (fresh-Settled alpha sorted) (subst AreDistinct (sym i) d)
            (subst (Within (neighbor_ids ns)) (sym i) w)
            (no_edges (neighbor_ids ns) location max_degree) in
        let (full, f, g', end) = saturated_lem sorted edges (sat && f32_lt f32_one alpha) w g in
        let fits : ltb max_degree (length full) ≡ false = let b = g'.bounded in ground arith in
        (full, rw (some, e, f, fits) refl, g', end)
  ]
