-- ===== src/Sampling/Sample.antt =====
-- The sample against its reference on the sorted ids.
use forge_ann.Prelude.{
  ℕ, zero, suc, ◌≡◌, refl, ap, sym, ◌∙◌, Bool, true, ◌||◌, ◌&&◌, ltb, leb, ◌==◌, if◌then◌else◌,
  Bool-cases, inl, inr, some, List, [], ◌∷◌, map, length, map-take, length-map, All-take, take,
  get_elem?, contains, All, arith,
}
use forge_ann.Prelude.Sorting.{sort_by, All-sort_by, map-sort_by}
use forge_ann.Prelude.Entries.{
  enumerate_from, dedup_by_id, Names, enumerate_from-Names, All-dedup_by_id,
}
use forge_ann.Sampling.{
  stable_sample_score, by_id_then_place, Scored, by_score, scored, unique, sample_positions_bottomk,
  ids_at, sample_set_bottomk,
}
use forge_ann.Sampling.Canonical.{ids_of, unique_lem}

-- A score with its id, and their order.
abbrev pub by_pair : ℕ × ℕ → ℕ × ℕ → Bool
by_pair a b = ltb a.0 b.0 || ((a.0 == b.0) && leb a.1 b.1)

-- The sample of ids that are sorted and distinct.
unfoldable pub least_scored : List ℕ → ℕ → ℕ → List ℕ
least_scored ids k seed =
    if leb (length ids) k
    then ids
    else map (λ p. p.1)
        (take k (sort_by by_pair (map (λ id. (stable_sample_score id seed, id)) ids)))

abbrev key : Scored → ℕ × ℕ
key s = (s.score, s.id)

map-key : (xs : List Scored) → map (λ s. s.id) xs ≡ map (λ p. p.1) (map key xs)
map-key [] = refl
map-key (s ∷ xs) = ap (λ l. s.id ∷ l) (map-key xs)

map-scored :
    (seed : ℕ) (entries : List (ℕ × ℕ))
    → map key (map (scored seed) entries)
      ≡ map (λ id. (stable_sample_score id seed, id)) (ids_of entries)
unfolding scored
map-scored seed [] = refl
map-scored seed (e ∷ entries) = rw (map-scored seed entries) refl

chosen_lem :
    (seed k : ℕ) (entries : List (ℕ × ℕ))
    → map (λ s. s.id) (take k (sort_by by_score (map (scored seed) entries)))
      ≡ map
          (λ p. p.1)
          (take k
            (sort_by by_pair (map (λ id. (stable_sample_score id seed, id)) (ids_of entries))))
chosen_lem seed k entries =
    map-key (take k (sort_by by_score (map (scored seed) entries)))
    ∙ ap (map (λ p. p.1)) (
        map-take key k (sort_by by_score (map (scored seed) entries))
        ∙ ap (take k) (
            map-sort_by key by_score by_pair (λ x y. refl) (map (scored seed) entries)
            ∙ ap (sort_by by_pair) (map-scored seed entries)))

-- Places of the ids.
ids_at-entries :
    (ids : List ℕ) (entries : List (ℕ × ℕ))
    → All (Names ids) entries
    → ids_at ids (map (λ e. e.1) entries) ≡ some (ids_of entries)
unfolding ids_at
ids_at-entries ids [] a = refl
ids_at-entries ids (e ∷ entries) (p, a) = rw (p, ids_at-entries ids entries a) refl

abbrev IsAt : List ℕ → Scored → Type 0
IsAt ids s = get_elem? ids s.place ≡ some s.id

ids_at-scored :
    (ids : List ℕ) (xs : List Scored)
    → All (IsAt ids) xs
    → ids_at ids (map (λ s. s.place) xs) ≡ some (map (λ s. s.id) xs)
unfolding ids_at
ids_at-scored ids [] a = refl
ids_at-scored ids (s ∷ xs) (p, a) = rw (p, ids_at-scored ids xs a) refl

scored-IsAt :
    (seed : ℕ) (ids : List ℕ) (entries : List (ℕ × ℕ))
    → All (Names ids) entries
    → All (IsAt ids) (map (scored seed) entries)
unfolding scored
scored-IsAt seed ids [] a = tt
scored-IsAt seed ids (e ∷ entries) (p, a) = (p, scored-IsAt seed ids entries a)

unique-Names : (ids : List ℕ) → All (Names ids) (unique ids)
unfolding unique
unique-Names ids =
    All-dedup_by_id (Names ids) (sort_by by_id_then_place (enumerate_from 0 ids))
      (All-sort_by by_id_then_place (Names ids) (enumerate_from 0 ids) (enumerate_from-Names ids))

empty_lem : (ids : List ℕ) → (length ids == 0) ≡ true → ids_of (unique ids) ≡ []
unfolding unique enumerate_from sort_by dedup_by_id
empty_lem [] h = refl
empty_lem (id ∷ ids) h = absurd (ground arith)

take-zero {ℓ} : {A : Type ℓ} (k : ℕ) (xs : List A) → (k == 0) ≡ true → take k xs ≡ []
take-zero zero xs h = refl
take-zero (suc k) xs h = absurd (ground arith)

pub sample_lem :
    (ids : List ℕ) (k seed : ℕ)
    → sample_set_bottomk ids k seed
      ≡ some (if k == 0 then [] else least_scored (ids_of (unique ids)) k seed)
unfolding sample_set_bottomk sample_positions_bottomk ids_at least_scored
sample_lem ids k seed = elim (Bool-cases (k == 0)) [
  | inl nothing ↦ rw nothing refl
  | inr something ↦ elim (Bool-cases (length ids == 0)) [
    | inl empty ↦
        let z : leb 0 k ≡ true = ground arith in rw (something, empty, empty_lem ids empty, z) refl
    | inr full ↦ elim (Bool-cases (leb (length (unique ids)) k)) [
      | inl few ↦
          rw (something, full, few, length-map (λ e. e.0) (unique ids), few)
            (ids_at-entries ids (unique ids) (unique-Names ids))
      | inr many ↦
          let at = scored-IsAt seed ids (unique ids) (unique-Names ids) in
          let sorted = All-sort_by by_score (IsAt ids) (map (scored seed) (unique ids)) at in
          let chosen = take k (sort_by by_score (map (scored seed) (unique ids))) in
          rw (something, full, many, length-map (λ e. e.0) (unique ids), many)
            (ids_at-scored ids chosen (All-take (IsAt ids) k _ sorted)
              ∙ ap some (chosen_lem seed k (unique ids)))
    ]
  ]
]

-- The sample does not depend on the order of the ids or on repetitions: lists with the same ids give the same
-- sample, for every size and seed.
pub sample_set_bottomk-same_ids :
    (xs ys : List ℕ) (k seed : ℕ)
    → ((x : ℕ) → contains x xs ≡ contains x ys)
    → sample_set_bottomk xs k seed ≡ sample_set_bottomk ys k seed
sample_set_bottomk-same_ids xs ys k seed h =
    sample_lem xs k seed
    ∙ ap (λ u. some (if k == 0 then [] else least_scored u k seed)) (unique_lem xs ys h)
    ∙ sym (sample_lem ys k seed)
