-- ===== src/FinalPrune/Rows.antt =====
-- `final_robust_prune_rows`: the rows are pruned one by one, as the Rayon variants do in parallel; the
-- first error ends the run.
use forge_ann.Prelude.{
  ℕ, suc, ◌%◌, ◌^◌, ◌≡◌, ◌≢◌, inl, inr, refl, ap, subst, sym, Bool-cases, true, ◌==◌, if◌then◌else◌,
  List, [], ◌∷◌, length, contains_refl, contains_weaken, AreDistinct, arith, Within, Within-refl,
}
use forge_ann.Prelude.Results.{Result, ok, ◌>>=◌, ok_or}
use forge_ann.Float32.{f32_lt, key, is_nan}
use forge_ann.FinalPrune.{
  Metric, ip, Neighbor, Dataset, PruneError, bad_vertex, f32_one, final_prune_alpha,
  final_prune_max_occlusion_size, robust_prune_candidates,
}
use forge_ann.FinalPrune.Sweep.{AreEdges, IsReadable}
use forge_ann.FinalPrune.Order.{neighbor_ids}
use forge_ann.FinalPrune.Robust.{Leaves, no_edges}
use forge_ann.FinalPrune.Outcome.{robust_prune_candidates_lem}

-- Two factors of 1.2 pass an alpha of 1.2.
abbrev pub prune_rounds : ℕ
prune_rounds = 2

empty_edges :
    (row : List ℕ) (location max_degree : ℕ) → length row ≡ 0 → AreEdges row location max_degree row
empty_edges [] location max_degree e = no_edges [] location max_degree
empty_edges (x ∷ row) location max_degree e = absurd (omega arith)

IsReadable-tail :
    (data_set : Dataset) (metric : Metric) (vid : ℕ) (row : List ℕ)
    → IsReadable data_set metric (vid ∷ row)
    → IsReadable data_set metric row
IsReadable-tail data_set metric vid row r a b h k =
    r a b (contains_weaken a vid row h) (contains_weaken b vid row k)

module _ (data_set : Dataset) (metric : Metric) (max_degree : ℕ) where
  -- The pool of a row, with the distances to the row's vertex.
  pub row_pool : ℕ → List ℕ → Result PruneError (List Neighbor)
  row_pool vid [] = ok []
  row_pool vid (nid ∷ row) =
      let rest = row_pool vid row in
      ok_or (data_set.get_distance vid nid metric) bad_vertex >>= λ d.
      rest >>= λ pool. ok (record { id = nid; distance = d } ∷ pool)

  pub prune_one : ℕ → List ℕ → Result PruneError (List ℕ)
  unfolding row_pool
  prune_one vid row =
      let vid_u32 = vid % 2 ^ 32 in
      if length row == 0
      then ok row
      else (row_pool vid_u32 row >>= λ pool.
          robust_prune_candidates data_set metric vid_u32 max_degree final_prune_alpha prune_rounds
            pool final_prune_max_occlusion_size true)

  pub prune_rows_from : ℕ → List (List ℕ) → Result PruneError (List (List ℕ))
  unfolding prune_one
  prune_rows_from vid [] = ok []
  prune_rows_from vid (row ∷ rows) =
      let rest = prune_rows_from (suc vid) rows in
      prune_one vid row >>= λ edges. rest >>= λ pruned. ok (edges ∷ pruned)

  pub final_robust_prune_rows : List (List ℕ) → Result PruneError (List (List ℕ))
  unfolding prune_rows_from
  final_robust_prune_rows rows = prune_rows_from 0 rows

  -- The rows from `vid` on can be pruned: no id twice in a row, every distance readable.
  abbrev pub ArePrunable : ℕ → List (List ℕ) → Type 0
  ArePrunable vid [] = Unit
  ArePrunable vid (row ∷ rows) =
      AreDistinct row
      × IsReadable data_set metric ((vid % 2 ^ 32) ∷ row)
      × ArePrunable (suc vid) rows

  -- Each row keeps edges of its own, not its vertex, distinct, at most `max_degree`.
  abbrev pub ArePruned : ℕ → List (List ℕ) → List (List ℕ) → Type 0
  ArePruned vid [] [] = Unit
  ArePruned vid [] (edges ∷ pruned) = ⊥
  ArePruned vid (row ∷ rows) [] = ⊥
  ArePruned vid (row ∷ rows) (edges ∷ pruned) =
      AreEdges row (vid % 2 ^ 32) max_degree edges × ArePruned (suc vid) rows pruned

  row_pool_lem :
      (vid : ℕ) (whole row : List ℕ)
      → IsReadable data_set metric (vid ∷ whole)
      → Within whole row
      → (pool : List Neighbor) × (row_pool vid row ≡ ok pool) × (neighbor_ids pool ≡ row)
  unfolding row_pool
  row_pool_lem vid whole [] r w = ([], refl, refl)
  row_pool_lem vid whole (nid ∷ row) r (k, w) =
      let (d, e) = r vid nid (contains_refl vid whole) (contains_weaken nid vid whole k) in
      let (pool, f, i) = row_pool_lem vid whole row r w in
      (record { id = nid; distance = d } ∷ pool, rw (e, f) refl, ap (λ l. nid ∷ l) i)

  module _ (supported : metric ≢ ip)
      (passes : Leaves data_set final_prune_alpha prune_rounds f32_one) where
    prune_one_lem :
        (vid : ℕ) (row : List ℕ)
        → AreDistinct row
        → IsReadable data_set metric ((vid % 2 ^ 32) ∷ row)
        → (edges : List ℕ) × (prune_one vid row ≡ ok edges)
          × AreEdges row (vid % 2 ^ 32) max_degree edges
    unfolding prune_one f32_lt key is_nan
    prune_one_lem vid row d r = elim (Bool-cases (length row == 0)) [
      | inl empty ↦ (row, rw empty refl, empty_edges row (vid % 2 ^ 32) max_degree (ground arith))
      | inr more ↦
          let (pool, e, i) = row_pool_lem (vid % 2 ^ 32) row row r (Within-refl row) in
          let (edges, f, g, _) =
            robust_prune_candidates_lem data_set metric (vid % 2 ^ 32) max_degree final_prune_alpha
              pool supported
              (subst (IsReadable data_set metric) (sym i)
                (IsReadable-tail data_set metric (vid % 2 ^ 32) row r))
              refl (subst AreDistinct (sym i) d) prune_rounds final_prune_max_occlusion_size true
              passes in
          (edges, rw (more, e) f, subst (λ l. AreEdges l (vid % 2 ^ 32) max_degree edges) i g)
    ]

    prune_rows_from_lem :
        (vid : ℕ) (rows : List (List ℕ))
        → ArePrunable vid rows
        → (pruned : List (List ℕ)) × (prune_rows_from vid rows ≡ ok pruned)
          × ArePruned vid rows pruned
    unfolding prune_rows_from
    prune_rows_from_lem vid [] h = ([], refl, tt)
    prune_rows_from_lem vid (row ∷ rows) (d, r, h) =
        let (edges, e, g) = prune_one_lem vid row d r in
        let (pruned, f, k) = prune_rows_from_lem (suc vid) rows h in
        (edges ∷ pruned, rw (e, f) refl, (g, k))

    -- Under a metric that the prune supports, where two factors of 1.2 pass 1.2, a graph whose rows
    -- hold distinct ids with readable distances is pruned without an error, a panic of the sort on
    -- NaNs aside, row by row: every row
    -- keeps at most `max_degree` distinct ids of its own, and never its own vertex.
    pub final_robust_prune_rows_lem :
        (rows : List (List ℕ))
        → ArePrunable 0 rows
        → (pruned : List (List ℕ)) × (final_robust_prune_rows rows ≡ ok pruned)
          × ArePruned 0 rows pruned
    unfolding final_robust_prune_rows
    final_robust_prune_rows_lem rows h = prune_rows_from_lem 0 rows h
