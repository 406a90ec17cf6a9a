-- ===== src/Sampling/Tests.antt =====
-- Samples of a few ids.
use forge_ann.Prelude.{ℕ, ◌≡◌, refl, ◌||◌, ◌==◌, Bool, true, false, List, [], ◌∷◌, contains, some}
use forge_ann.Sampling.{sample_set_bottomk}
use forge_ann.Sampling.Sample.{sample_set_bottomk-same_ids}
use forge_ann.Sampling.Bottom.{IsBottom, sample_set_bottomk-IsBottom}

same : (x : ℕ) → contains x (7 ∷ 3 ∷ 7 ∷ []) ≡ contains x (3 ∷ 7 ∷ [])
same x = swap (7 == x) (3 == x)
  where
    swap : (a b : Bool) → (a || (b || (a || false))) ≡ (b || (a || false))
    swap true true = refl
    swap true false = refl
    swap false true = refl
    swap false false = refl

sample_set_bottomk-same_ids_example :
    sample_set_bottomk (7 ∷ 3 ∷ 7 ∷ []) 1 17 ≡ sample_set_bottomk (3 ∷ 7 ∷ []) 1 17
sample_set_bottomk-same_ids_example =
    sample_set_bottomk-same_ids (7 ∷ 3 ∷ 7 ∷ []) (3 ∷ 7 ∷ []) 1 17 same

sample_set_bottomk-IsBottom_example :
    (sample : List ℕ) × (sample_set_bottomk (7 ∷ 3 ∷ 7 ∷ 5 ∷ []) 2 17 ≡ some sample)
    × IsBottom (7 ∷ 3 ∷ 7 ∷ 5 ∷ []) 2 17 sample
sample_set_bottomk-IsBottom_example = sample_set_bottomk-IsBottom (7 ∷ 3 ∷ 7 ∷ 5 ∷ []) 2 17
