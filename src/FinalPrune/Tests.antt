-- ===== src/FinalPrune/Tests.antt =====
-- The prune of points on a line, with a table in place of the float operations that round.
use forge_ann.Prelude.{
  ℕ, ◌+◌, ◌-◌, ◌≤◌, ◌≡◌, ◌⊎◌, inr, refl, ◌==◌, if◌then◌else◌, some, List, [], ◌∷◌, take, length,
  All, true, false, ◌&&◌, arith,
}
use forge_ann.Prelude.Results.{ok, err}
use forge_ann.Float32.{f32_lt, f32_le, is_nan, key, magnitude}
use forge_ann.FinalPrune.{
  Dataset, Neighbor, l2, ip, f32_one, final_prune_alpha, sort_unstable, robust_prune_candidates,
  unsupported_metric, alpha_rounds, sweep, occlude, occlude_factor, saturate, insert_sorted,
  neighbor_le, f32_max, f32_is_zero,
}
use forge_ann.FinalPrune.Sweep.{AreEdges, IsReadable}
use forge_ann.FinalPrune.Robust.{IsServed}
use forge_ann.FinalPrune.Outcome.{robust_prune_candidates_lem}
use forge_ann.FinalPrune.Rows.{final_robust_prune_rows, ArePruned, final_robust_prune_rows_lem}

-- 0, 1, 4 and 9 as f32, and 16 for all that is farther.
abbrev square : ℕ → ℕ
square n =
    if n == 0
    then 0
    else if n == 1
    then 0x3f800000
    else if n == 2
    then 0x40800000
    else if n == 3
    then 0x41100000
    else 0x41800000

-- 1.2 after one factor and 1.44 after two; the quotient is exact for a divisor
-- of 1, and 9 / 4 is 2.25.
abbrev line : Dataset
line = record {
  get_distance = λ a b m. some (square ((a - b) + (b - a)));
  div = λ a b. if b == f32_one then a else 0x40100000;
  mul = λ a b. if a == f32_one then b else 0x3fb851ec;
}

abbrev at : ℕ → ℕ → Neighbor
at a b = record { id = b; distance = square ((a - b) + (b - a)) }

-- Point 1 occludes 2 and 3 for good, so that only the last loop adds 2.
prune_test :
    robust_prune_candidates line l2 0 2 final_prune_alpha 2 (at 0 3 ∷ at 0 1 ∷ at 0 2 ∷ []) 750 true
    ≡ ok (1 ∷ 2 ∷ [])
unfolding robust_prune_candidates alpha_rounds sweep occlude occlude_factor saturate sort_unstable
    insert_sorted neighbor_le f32_lt f32_le f32_max f32_is_zero is_nan key magnitude
prune_test = refl

prune_unsaturated_test :
    robust_prune_candidates line l2 0 2 final_prune_alpha 2
      (at 0 3 ∷ at 0 1 ∷ at 0 2 ∷ [])
      750
      false
    ≡ ok (1 ∷ [])
unfolding robust_prune_candidates alpha_rounds sweep occlude occlude_factor saturate sort_unstable
    insert_sorted neighbor_le f32_lt f32_le f32_max f32_is_zero is_nan key magnitude
prune_unsaturated_test = refl

prune_metric_test :
    robust_prune_candidates line ip 0 2 final_prune_alpha 2 (at 0 3 ∷ at 0 1 ∷ []) 750 false
    ≡ err unsupported_metric
unfolding robust_prune_candidates alpha_rounds sweep occlude occlude_factor saturate sort_unstable
    insert_sorted neighbor_le f32_lt f32_le f32_max f32_is_zero is_nan key magnitude
prune_metric_test = refl

all_known : (pool : List ℕ) → IsReadable line l2 pool
all_known pool a b h k = (square ((a - b) + (b - a)), refl)

robust_prune_candidates_example :
    (edges : List ℕ) × (robust_prune_candidates line l2 0 2 final_prune_alpha 2
        (at 0 3 ∷ at 0 1 ∷ at 0 2 ∷ [])
        750
        true
      ≡ ok edges)
    × AreEdges (3 ∷ 1 ∷ 2 ∷ []) 0 2 edges
    × (((true && f32_lt f32_one final_prune_alpha) ≡ false)
        ⊎ ((2 ≤ length edges)
            ⊎ All (IsServed 0 edges) (take 750 (sort_unstable (at 0 3 ∷ at 0 1 ∷ at 0 2 ∷ [])))))
unfolding f32_lt f32_le key is_nan magnitude
robust_prune_candidates_example =
    robust_prune_candidates_lem line l2 0 2 final_prune_alpha (at 0 3 ∷ at 0 1 ∷ at 0 2 ∷ [])
      (λ q. cc) (all_known (3 ∷ 1 ∷ 2 ∷ [])) refl (ground arith) 2 750 true (inr (inr refl))

final_robust_prune_rows_example :
    (pruned : List (List ℕ)) × (final_robust_prune_rows line l2 1
        ((1 ∷ 2 ∷ []) ∷ (0 ∷ 2 ∷ []) ∷ [] ∷ [])
      ≡ ok pruned)
    × ArePruned line l2 1 0 ((1 ∷ 2 ∷ []) ∷ (0 ∷ 2 ∷ []) ∷ [] ∷ []) pruned
unfolding f32_lt f32_le key is_nan magnitude
final_robust_prune_rows_example =
    final_robust_prune_rows_lem line l2 1 (λ q. cc) (inr (inr refl))
      ((1 ∷ 2 ∷ []) ∷ (0 ∷ 2 ∷ []) ∷ [] ∷ [])
      (
        ((λ q. absurd (omega arith), tt), (tt, tt)),
        all_known (0 ∷ 1 ∷ 2 ∷ []),
        (
          ((λ q. absurd (omega arith), tt), (tt, tt)),
          all_known (1 ∷ 0 ∷ 2 ∷ []),
          (tt, all_known (2 ∷ []), tt),
        ),
      )
