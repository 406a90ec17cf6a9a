-- ===== src/Sampling/Bottom.antt =====
-- The sample as the ids of the least scores.
use forge_ann.Prelude.{
  ◌⊎◌, ℕ, ◌≤◌, ◌<◌, ◌≡◌, refl, sym, ap, ◌∙◌, ◌≢◌, min, true, leb, ◌==◌, Bool-cases, inl, inr, some,
  List, [], ◌∷◌, map, length, take, length-take, length-map, contains, Within, Within-refl,
  Within-trans, AreDistinct, All, All-imp, All-take, All-contains, arith,
}
use forge_ann.Prelude.Sorting.{
  sort_by, length-sort_by, All-sort_by, All-of_sort_by, sort_by-Ascends, DistinctBy,
  sort_by-DistinctBy,
}
use forge_ann.Sampling.{stable_sample_score, unique, sample_set_bottomk}
use forge_ann.Sampling.Canonical.{ids_of, contains-unique, unique-Rises}
use forge_ann.Sampling.Sample.{least_scored, by_pair, sample_lem}
use forge_ann.Sampling.Taken.{
  Pair, Rises-AreDistinct, seconds, All-seconds, seconds-AreDistinct, take-DistinctBy, IsKept,
  take-IsKept,
}

-- The id is in the sample, or no id of the sample has a greater score.
abbrev pub IsSampled : ℕ → List ℕ → ℕ → Type 0
IsSampled seed sample x =
    (contains x sample ≡ true)
    ⊎ All (λ y. stable_sample_score y seed ≤ stable_sample_score x seed) sample

-- The `k` ids of the least scores, each once, or all ids if there are no more than `k`.
pub record IsBottom (ids : List ℕ) (k seed : ℕ) (sample : List ℕ) : Type 0 where
  pub distinct : AreDistinct sample
  pub given : Within ids sample
  pub size : (length sample ≡ k) ⊎ ((length sample ≤ k) × Within sample ids)
  pub least : All (IsSampled seed sample) ids

module _ (seed : ℕ) where
  abbrev scored_pairs : List ℕ → List Pair
  scored_pairs ids = map (λ id. (stable_sample_score id seed, id)) ids

  scored_pairs-DistinctBy :
      (ids : List ℕ) → AreDistinct ids → DistinctBy (λ p. p.1) (scored_pairs ids)
  scored_pairs-DistinctBy [] d = tt
  scored_pairs-DistinctBy (x ∷ ids) (n, d) = (others ids n, scored_pairs-DistinctBy ids d)
    where
      others : (ys : List ℕ) → All (λ y. y ≢ x) ys → All (λ (p : Pair). p.1 ≢ x) (scored_pairs ys)
      others [] a = tt
      others (y ∷ ys) (p, a) = (p, others ys a)

  -- The score of a pair is that of its id.
  abbrev HasScore : Pair → Type 0
  HasScore p = p.0 ≡ stable_sample_score p.1 seed

  scored_pairs-HasScore : (ids : List ℕ) → All HasScore (scored_pairs ids)
  scored_pairs-HasScore [] = tt
  scored_pairs-HasScore (x ∷ ids) = (refl, scored_pairs-HasScore ids)

  scores-below :
      (taken : List Pair) (m : ℕ)
      → All HasScore taken
      → All (λ (q : Pair). q.0 ≤ m) taken
      → All (λ y. stable_sample_score y seed ≤ m) (seconds taken)
  scores-below [] m h a = tt
  scores-below (q ∷ taken) m (p, h) (l, a) = (omega arith, scores-below taken m h a)

  kept-IsSampled :
      (taken : List Pair) (ids : List ℕ)
      → All HasScore taken
      → All (IsKept taken) (scored_pairs ids)
      → All (IsSampled seed (seconds taken)) ids
  kept-IsSampled taken [] h a = tt
  kept-IsSampled taken (x ∷ ids) h (inl there, a) = (inl there, kept-IsSampled taken ids h a)
  kept-IsSampled taken (x ∷ ids) h (inr above, a) =
      (inr (scores-below taken _ h above), kept-IsSampled taken ids h a)

  module _ (k : ℕ) (u : List ℕ) (d : AreDistinct u) where
    sorted : List Pair
    sorted = sort_by by_pair (scored_pairs u)

    taken-IsSampled : All (IsSampled seed (seconds (take k sorted))) u
    unfolding sorted
    taken-IsSampled =
        let scores = All-sort_by by_pair HasScore (scored_pairs u) (scored_pairs-HasScore u) in
        let ascends =
          sort_by-Ascends by_pair (λ p. p.0) (λ x y e. ground arith) (λ x y e. ground arith)
            (scored_pairs u) in
        kept-IsSampled (take k sorted) u (All-take HasScore k sorted scores) (
          All-of_sort_by by_pair (IsKept (take k sorted)) (scored_pairs u)
            (take-IsKept k 0 sorted ascends))

    taken-AreDistinct : AreDistinct (seconds (take k sorted))
    unfolding sorted
    taken-AreDistinct = seconds-AreDistinct (take k sorted) (
        take-DistinctBy k sorted
          (sort_by-DistinctBy by_pair (λ p. p.1) (scored_pairs u) (scored_pairs-DistinctBy u d)))

    taken-Within : Within u (seconds (take k sorted))
    unfolding sorted
    taken-Within =
        All-seconds (λ x. contains x u ≡ true) (take k sorted)
          (All-take (λ p. contains p.1 u ≡ true) k sorted
            (All-sort_by by_pair (λ p. contains p.1 u ≡ true) (scored_pairs u)
              (paired u (Within-refl u))))
      where
        paired :
            (xs : List ℕ)
            → Within u xs
            → All (λ (p : Pair). contains p.1 u ≡ true) (scored_pairs xs)
        paired [] a = tt
        paired (x ∷ xs) (p, a) = (p, paired xs a)

    length-taken : length (seconds (take k sorted)) ≡ min k (length u)
    unfolding sorted
    length-taken =
        length-map (λ (p : Pair). p.1) (take k sorted)
        ∙ length-take k sorted
        ∙ ap (min k) (
            length-sort_by by_pair (scored_pairs u)
            ∙ length-map (λ id. (stable_sample_score id seed, id)) u)

    least_scored-IsBottom : IsBottom u k seed (least_scored u k seed)
    unfolding least_scored sorted
    least_scored-IsBottom = elim (Bool-cases (leb (length u) k)) [
      | inl few ↦ rw few (record {
        distinct = d;
        given = Within-refl u;
        size = inr (ground arith, Within-refl u);
        least = All-imp (λ x h. inl h) u (Within-refl u);
      })
      | inr many ↦
          let n = length-taken in
          let more : k < length u = ground arith in
          rw many (record {
            distinct = taken-AreDistinct;
            given = taken-Within;
            size = inl (n ∙ omega arith);
            least = taken-IsSampled;
          })
    ]

-- No place is out of range. The sample holds no id twice and only given ids; it has `k` ids, or it holds all
-- the given ids; and an id that it leaves out has no lower score than any id of the sample.
pub sample_set_bottomk-IsBottom :
    (ids : List ℕ) (k seed : ℕ)
    → (sample : List ℕ) × (sample_set_bottomk ids k seed ≡ some sample) × IsBottom ids k seed sample
sample_set_bottomk-IsBottom ids k seed = elim (Bool-cases (k == 0)) [
  | inl nothing ↦ (
    [],
    sample_lem ids k seed ∙ rw nothing refl,
    record {
      distinct = tt;
      given = tt;
      size = inl (ground arith);
      least = All-imp (λ x h. inr tt) ids (Within-refl ids);
    },
  )
  | inr something ↦
      let u = ids_of (unique ids) in
      let b = least_scored-IsBottom seed k u (Rises-AreDistinct 0 u (unique-Rises ids)) in
      let back : Within u ids = All-imp (λ x h. contains-unique x ids ∙ h) ids (Within-refl ids) in
      (
        least_scored u k seed,
        sample_lem ids k seed ∙ rw something refl,
        record {
          distinct = b.distinct;
          given = All-imp (λ x h. sym (contains-unique x ids) ∙ h) _ b.given;
          size = elim b.size [
            | inl full ↦ inl full
            | inr (few, all) ↦ inr (few, Within-trans ids u _ all back)
          ];
          least = All-imp (λ x h. All-contains _ u x b.least h) ids back;
        },
      )
]
