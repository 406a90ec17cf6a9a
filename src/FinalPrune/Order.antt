-- ===== src/FinalPrune/Order.antt =====
-- The sorted and truncated pool: its ids and the candidates made of it.
use forge_ann.Prelude.{
  ℕ, zero, suc, ◌≡◌, ◌≢◌, inl, inr, refl, ap, sym, Bool-cases, List, [], ◌∷◌, map, take,
  AreDistinct, All,
}
use forge_ann.FinalPrune.{Neighbor, Candidate, neighbor_le, insert_sorted, sort_unstable}
use forge_ann.FinalPrune.Sweep.{candidate_ids, Settled}

abbrev pub neighbor_ids : List Neighbor → List ℕ
neighbor_ids [] = []
neighbor_ids (n ∷ ns) = n.id ∷ neighbor_ids ns

module _ {κ} (P : ℕ → Type κ) where
  All-insert_sorted :
      (x : Neighbor) (ns : List Neighbor)
      → P x.id
      → All P (neighbor_ids ns)
      → All P (neighbor_ids (insert_sorted x ns))
  unfolding insert_sorted
  All-insert_sorted x [] p h = (p, tt)
  All-insert_sorted x (y ∷ ys) p (q, h) = elim (Bool-cases (neighbor_le x y)) [
    | inl first ↦ rw first (p, (q, h))
    | inr later ↦ rw later (q, All-insert_sorted x ys p h)
  ]

  pub All-sort_unstable :
      (ns : List Neighbor) → All P (neighbor_ids ns) → All P (neighbor_ids (sort_unstable ns))
  unfolding sort_unstable
  All-sort_unstable [] h = tt
  All-sort_unstable (x ∷ ns) (p, h) =
      All-insert_sorted x (sort_unstable ns) p (All-sort_unstable ns h)

  pub All-take :
      (k : ℕ) (ns : List Neighbor) → All P (neighbor_ids ns) → All P (neighbor_ids (take k ns))
  All-take zero ns h = tt
  All-take (suc k) [] h = tt
  All-take (suc k) (n ∷ ns) (p, h) = (p, All-take k ns h)

insert_sorted-AreDistinct :
    (x : Neighbor) (ns : List Neighbor)
    → All (λ y. y ≢ x.id) (neighbor_ids ns)
    → AreDistinct (neighbor_ids ns)
    → AreDistinct (neighbor_ids (insert_sorted x ns))
unfolding insert_sorted
insert_sorted-AreDistinct x [] h d = (tt, tt)
insert_sorted-AreDistinct x (y ∷ ys) (n, h) (l, d) = elim (Bool-cases (neighbor_le x y)) [
  | inl first ↦ rw first ((n, h), (l, d))
  | inr later ↦ rw later (
    All-insert_sorted (λ z. z ≢ y.id) x ys (λ q. n (sym q)) l,
    insert_sorted-AreDistinct x ys h d,
  )
]

pub sort_unstable-AreDistinct :
    (ns : List Neighbor)
    → AreDistinct (neighbor_ids ns)
    → AreDistinct (neighbor_ids (sort_unstable ns))
unfolding sort_unstable
sort_unstable-AreDistinct [] d = tt
sort_unstable-AreDistinct (x ∷ ns) (h, d) =
    insert_sorted-AreDistinct x (sort_unstable ns) (All-sort_unstable (λ y. y ≢ x.id) ns h)
      (sort_unstable-AreDistinct ns d)

pub take-AreDistinct :
    (k : ℕ) (ns : List Neighbor)
    → AreDistinct (neighbor_ids ns)
    → AreDistinct (neighbor_ids (take k ns))
take-AreDistinct zero ns d = tt
take-AreDistinct (suc k) [] d = tt
take-AreDistinct (suc k) (n ∷ ns) (h, d) =
    (All-take (λ y. y ≢ n.id) k ns h, take-AreDistinct k ns d)

abbrev pub fresh_candidates : List Neighbor → List Candidate
fresh_candidates ns = map (λ n. record { neighbor = n; factor = 0 }) ns

pub candidate_ids-fresh :
    (ns : List Neighbor) → candidate_ids (fresh_candidates ns) ≡ neighbor_ids ns
candidate_ids-fresh [] = refl
candidate_ids-fresh (n ∷ ns) = ap (λ r. n.id ∷ r) (candidate_ids-fresh ns)

pub fresh-Settled : (alpha : ℕ) (ns : List Neighbor) → All (Settled alpha []) (fresh_candidates ns)
fresh-Settled alpha [] = tt
fresh-Settled alpha (n ∷ ns) = (inr tt, fresh-Settled alpha ns)
