-- ===== src/FinalPrune.antt =====
-- ForgeANN/src/forgeann/final_prune.rs: the robust prune of a row of the final graph. Distances and
-- factors are f32 bit patterns; the dataset and the roundings of `/` and `* 1.2` are parameters.
pub mod Sweep
pub mod Order
pub mod Robust
pub mod Outcome
pub mod Rows
mod Tests
use forge_ann.Prelude.{
  ℕ, zero, suc, ◌+◌, Bool, true, false, not, ◌&&◌, ◌||◌, ltb, leb, ◌==◌, if◌then◌else◌, Option,
  none, some, List, [], ◌∷◌, ◌++◌, map, length, take, contains,
}
use forge_ann.Prelude.Results.{Result, ok, err, ◌>>=◌, ◌>>◌, reject_if, ok_or}
use forge_ann.Float32.{f32_lt, f32_le, is_nan, key}

pub data Metric : Type 0 where
  l2 cosine ip : Metric

-- `visited` is not used by the prune.
pub record Neighbor : Type 0 where
  pub id : ℕ
  pub distance : ℕ

-- `unfinished` is no error of the source: the rounds given to the loop over `cur_alpha` were too few.
pub data PruneError : Type 0 where
  bad_vertex unsupported_metric over_degree unfinished : PruneError

abbrev pub f32_max_value : ℕ
f32_max_value = 0x7f7fffff

abbrev pub f32_one : ℕ
f32_one = 0x3f800000

abbrev pub final_prune_alpha : ℕ
final_prune_alpha = 0x3f99999a

abbrev pub final_prune_max_occlusion_size : ℕ
final_prune_max_occlusion_size = 750

-- `f32::max` and `x == 0.0`
unfoldable pub f32_max : ℕ → ℕ → ℕ
unfolding f32_lt
f32_max a b = if is_nan a then b else if is_nan b then a else if f32_lt a b then b else a

unfoldable pub f32_is_zero : ℕ → Bool
unfolding key
f32_is_zero x = key x == key 0

-- `Ord::cmp` of `Neighbor` is not `Greater`: by distance, then by id.
unfoldable pub neighbor_le : Neighbor → Neighbor → Bool
unfolding f32_lt
neighbor_le a b =
    if f32_lt a.distance b.distance
    then true
    else if f32_lt b.distance a.distance
    then false
    else leb a.id b.id

pub insert_sorted : Neighbor → List Neighbor → List Neighbor
unfolding neighbor_le
insert_sorted x [] = x ∷ []
insert_sorted x (y ∷ ys) =
    let rest = insert_sorted x ys in if neighbor_le x y then x ∷ y ∷ ys else y ∷ rest

-- `sort_unstable`: neighbours that compare as equal are equal, save in the sign of a zero. The sort of
-- the standard library may panic where distances are NaNs, whose order is not total; this one goes on.
pub sort_unstable : List Neighbor → List Neighbor
unfolding insert_sorted
sort_unstable [] = []
sort_unstable (x ∷ xs) = insert_sorted x (sort_unstable xs)

-- A pool entry and its `occlude_factor`.
pub record Candidate : Type 0 where
  pub neighbor : Neighbor
  pub factor : ℕ

-- The dataset and the float operations that round.
pub record Dataset : Type 0 where
  pub get_distance : ℕ → ℕ → Metric → Option ℕ
  pub div : ℕ → ℕ → ℕ
  pub mul : ℕ → ℕ → ℕ

module _ (data_set : Dataset) (metric : Metric) (location max_degree alpha : ℕ) where
  abbrev pub new_factor : Candidate → ℕ → ℕ
  new_factor c djk =
      if f32_is_zero djk
      then f32_max_value
      else f32_max c.factor (data_set.div c.neighbor.distance djk)

  -- The new factor of `c` once `chosen` is taken.
  pub occlude_factor : Neighbor → Candidate → Result PruneError ℕ
  unfolding f32_max f32_is_zero
  occlude_factor chosen c = do
    djk ← ok_or (data_set.get_distance c.neighbor.id chosen.id metric) bad_vertex
    elim metric [
      | l2 ↦ ok (new_factor c djk)
      | cosine ↦ ok (new_factor c djk)
      | ip ↦ err unsupported_metric
    ]

  -- The loop over `j`.
  pub occlude : Neighbor → List Candidate → Result PruneError (List Candidate)
  unfolding occlude_factor f32_lt
  occlude chosen [] = ok []
  occlude chosen (c ∷ cs) =
      let updated =
        if f32_lt alpha c.factor
        then ok c
        else (occlude_factor chosen c >>= λ factor. ok (record c { factor = factor })) in
      let rest = occlude chosen cs in updated >>= λ c'. rest >>= λ cs'. ok (c' ∷ cs')

  abbrev kept : Candidate → List Candidate × List ℕ → Result PruneError (List Candidate × List ℕ)
  kept first swept = ok (first ∷ swept.0, swept.1)

  -- The loop over `i`; each round takes one candidate, so as many rounds as candidates are enough.
  pub sweep : ℕ → ℕ → List Candidate → List ℕ → Result PruneError (List Candidate × List ℕ)
  unfolding occlude
  sweep zero cur_alpha cs result = ok (cs, result)
  sweep (suc fuel) cur_alpha [] result = ok ([], result)
  sweep (suc fuel) cur_alpha (c ∷ cs) result =
      let chosen = record c { factor = f32_max_value } in
      let pushed = if c.neighbor.id == location then result else result ++ (c.neighbor.id ∷ []) in
      elim (leb max_degree (length result)) [
        | true ↦ ok (c ∷ cs, result)
        | false ↦ elim (f32_lt cur_alpha c.factor) [
          | true ↦ sweep fuel cur_alpha cs result >>= kept c
          | false ↦ occlude c.neighbor cs >>= λ cs'. sweep fuel cur_alpha cs' pushed >>= kept chosen
        ]
      ]

  -- The loop over `cur_alpha`.
  pub alpha_rounds : ℕ → ℕ → List Candidate → List ℕ → Result PruneError (List ℕ)
  unfolding sweep f32_le
  alpha_rounds zero cur_alpha cs result =
      if f32_le cur_alpha alpha && ltb (length result) max_degree then err unfinished else ok result
  alpha_rounds (suc rounds) cur_alpha cs result =
      let round = sweep (length cs) cur_alpha cs result >>= λ swept.
      alpha_rounds rounds (data_set.mul cur_alpha final_prune_alpha) swept.0 swept.1 in
      if f32_le cur_alpha alpha && ltb (length result) max_degree then round else ok result

  -- The loop of `saturate_graph`.
  pub saturate : List Neighbor → List ℕ → List ℕ
  saturate [] result = result
  saturate (n ∷ ns) result = elim (leb max_degree (length result)) [
    | true ↦ result
    | false ↦ elim (n.id == location || contains n.id result) [
      | true ↦ saturate ns result
      | false ↦ saturate ns (result ++ (n.id ∷ []))
    ]
  ]

  -- The last loop and the check of the degree.
  abbrev pub finished : List Neighbor → Bool → List ℕ → Result PruneError (List ℕ)
  finished sorted saturating edges =
      let full = if saturating then saturate sorted edges else edges in
      if ltb max_degree (length full) then err over_degree else ok full

  pub robust_prune_candidates : ℕ → List Neighbor → ℕ → Bool → Result PruneError (List ℕ)
  unfolding alpha_rounds saturate sort_unstable
  robust_prune_candidates rounds pool max_candidate_size saturate_graph =
      let sorted = take max_candidate_size (sort_unstable pool) in
      let start = map (λ n. record { neighbor = n; factor = 0 }) sorted in
      let pruned =
        alpha_rounds rounds f32_one start []
        >>= finished sorted (saturate_graph && f32_lt f32_one alpha) in
      if length pool == 0 then ok [] else pruned
