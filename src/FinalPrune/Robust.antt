-- ===== src/FinalPrune/Robust.antt =====
-- The loop over `cur_alpha` and the loop of `saturate_graph`.
use forge_ann.Prelude.{
  ℕ, zero, suc, ◌≤◌, ◌≡◌, ◌≢◌, ◌⊎◌, inl, inr, refl, sym, subst, Bool-cases, true, false, leb, ltb,
  ◌==◌, ◌&&◌, ◌||◌, List, [], ◌∷◌, ◌++◌, length, contains, AreDistinct, Within, Within-refl, All,
  All-contains, All-of_append, Absent-of_contains, arith,
}
use native.Mathlib.Nat.{le_refl}
use forge_ann.Prelude.Results.{ok}
use forge_ann.Float32.{f32_lt, f32_le}
use forge_ann.FinalPrune.{
  Metric, ip, Neighbor, Candidate, Dataset, f32_max_value, final_prune_alpha, alpha_rounds,
  saturate,
}
use forge_ann.FinalPrune.Sweep.{
  candidate_ids, Settled, AreEdges, AreEdges-push, IsReadable, sweep_lem,
}
use forge_ann.FinalPrune.Order.{neighbor_ids}

-- After at most so many multiplications by 1.2, `cur_alpha` has passed `alpha`.
abbrev pub Leaves : Dataset → ℕ → ℕ → ℕ → Type 0
Leaves data_set alpha zero cur = f32_le cur alpha ≡ false
Leaves data_set alpha (suc rounds) cur =
    (f32_le cur alpha ≡ false) ⊎ Leaves data_set alpha rounds (data_set.mul cur final_prune_alpha)

-- `n` is `location` or an edge.
abbrev pub IsServed : ℕ → List ℕ → Neighbor → Type 0
IsServed location result n = (n.id ≡ location) ⊎ (contains n.id result ≡ true)

pub no_edges : (pool : List ℕ) (location max_degree : ℕ) → AreEdges pool location max_degree []
no_edges pool location max_degree = record {
  distinct = tt;
  no_loop = tt;
  bounded = omega arith;
  offered = tt;
}

module _ (data_set : Dataset) (metric : Metric) (location max_degree alpha : ℕ) (pool : List ℕ)
    (supported : metric ≢ ip) (readable : IsReadable data_set metric pool)
    (finite : f32_lt alpha f32_max_value ≡ true) where
  pub alpha_rounds_lem :
      (rounds cur : ℕ) (cs : List Candidate) (result : List ℕ)
      → Leaves data_set alpha rounds cur
      → All (Settled alpha result) cs
      → AreDistinct (candidate_ids cs)
      → Within pool (candidate_ids cs)
      → AreEdges pool location max_degree result
      → (result' : List ℕ) × (alpha_rounds data_set metric location max_degree alpha rounds cur cs
            result
          ≡ ok result')
        × AreEdges pool location max_degree result'
  unfolding alpha_rounds
  alpha_rounds_lem zero cur cs result leaves s d w g = (result, rw leaves refl, g)
  alpha_rounds_lem (suc rounds) cur cs result leaves s d w g =
      elim (Bool-cases (f32_le cur alpha && ltb (length result) max_degree)) [
        | inr over ↦ (result, rw (alpha_rounds, over) refl, g)
        | inl more ↦
            let still : f32_le cur alpha ≡ true = ground arith in
            let later : Leaves data_set alpha rounds (data_set.mul cur final_prune_alpha) =
              ground arith in
            let (cs', mid, e, swept) =
              sweep_lem data_set metric location max_degree alpha pool supported readable
                (length cs) cur cs result finite still (le_refl (length cs)) s d w g in
            let (result', f, g') =
              alpha_rounds_lem rounds (data_set.mul cur final_prune_alpha) cs' mid later
                swept.settled (subst AreDistinct (sym swept.same_ids) d)
                (subst (Within pool) (sym swept.same_ids) w) swept.edges in
            (result', rw (alpha_rounds, more, e) f, g')
      ]

  served_lem :
      (n : Neighbor) (result out : List ℕ)
      → (n.id == location || contains n.id result) ≡ true
      → Within out result
      → IsServed location out n
  served_lem n result out done u = elim (Bool-cases (n.id == location)) [
    | inl self ↦ inl (ground arith)
    | inr other ↦ inr (All-contains (λ x. contains x out ≡ true) result n.id u (ground arith))
  ]

  -- The last loop adds edges until all are served or the degree is reached.
  pub saturate_lem :
      (ns : List Neighbor) (result : List ℕ)
      → Within pool (neighbor_ids ns)
      → AreEdges pool location max_degree result
      → (out : List ℕ) × (saturate data_set metric location max_degree alpha ns result ≡ out)
        × AreEdges pool location max_degree out
        × Within out result
        × ((max_degree ≤ length out) ⊎ All (IsServed location out) ns)
  unfolding saturate
  saturate_lem [] result w g = (result, refl, g, Within-refl result, inr tt)
  saturate_lem (n ∷ ns) result (k, w) g = elim (Bool-cases (leb max_degree (length result))) [
    | inl full ↦ (result, rw (saturate, full) refl, g, Within-refl result, inl (ground arith))
    | inr room ↦ elim (Bool-cases (n.id == location || contains n.id result)) [
      | inl done ↦
          let (out, e, g', u, end) = saturate_lem ns result w g in
          (
            out,
            rw (saturate, room, done) e,
            g',
            u,
            elim end [ inl full ↦ inl full | inr all ↦ inr (served_lem n result out done u, all) ],
          )
      | inr add ↦
          let fresh : contains n.id result ≡ false = ground arith in
          let other : n.id ≢ location = λ q. absurd (ground arith) in
          let (out, e, g', u, end) = saturate_lem ns (result ++ (n.id ∷ [])) w (
            AreEdges-push pool location max_degree result n.id g
              (Absent-of_contains result n.id fresh) other (ground arith) k) in
          let (before, (here, _)) =
            All-of_append (λ x. contains x out ≡ true) result (n.id ∷ []) u in
          (
            out,
            rw (saturate, room, add) e,
            g',
            before,
            elim end [ inl full ↦ inl full | inr all ↦ inr (inr here, all) ],
          )
    ]
  ]
