-- ===== src/Scheduler/Queue/Group.antt =====
-- `process_queued_leaf_batch` of ForgeANN/src/forgeann/scheduler.rs: the leaves of a batch by data
-- set. `process_leaf_batch` stands for the processing of leaves of one data set, with its effect on
-- a state `W`.
use mathlib.Core.List.{append_assoc}
use mathlib.Core.Path.{fun_ext}
use forge_ann.Prelude.{
  ℕ, All, ◌≤◌, ◌≡◌, refl, ap, ◌∙◌, sym, Bool, true, false, not, ◌==◌, if◌then◌else◌, Bool-cases,
  inl, inr, Option, none, some, List, [], ◌∷◌, ◌++◌, map, length, arith,
}
use forge_ann.Prelude.Results.{Result, ok, err, ◌>>=◌}
use forge_ann.Scheduler.{QueuedLeaf}

same_queued_dataset : Option ℕ → Option ℕ → Bool
same_queued_dataset none none = true
same_queued_dataset (some left) (some right) = left == right
same_queued_dataset _ _ = false

abbrev Leaves : Type 0
Leaves = List (List ℕ)

-- The leaves of one data set, in order.
abbrev LeafGroup : Type 0
LeafGroup = Option ℕ × Leaves

module _ {W : Type 0} (process_leaf_batch : Option ℕ → Leaves → W → Result ℕ W) where
  flush_queued_leaf_batch : Option ℕ → Leaves → W → Result ℕ W
  flush_queued_leaf_batch dataset leaves w =
      if length leaves == 0 then ok w else process_leaf_batch dataset leaves w

  -- The loop over the batch, with the leaves that wait and their data set.
  process_from : Option ℕ → Leaves → List QueuedLeaf → W → Result ℕ W
  unfolding flush_queued_leaf_batch same_queued_dataset
  process_from current leaves [] w = flush_queued_leaf_batch current leaves w
  process_from current leaves (q ∷ qs) w =
      if length leaves == 0
      then process_from q.dataset (q.leaf ∷ []) qs w
      else if not (same_queued_dataset current q.dataset)
      then flush_queued_leaf_batch current leaves w >>= process_from q.dataset (q.leaf ∷ []) qs
      else process_from current (leaves ++ (q.leaf ∷ [])) qs w

  pub process_queued_leaf_batch : List QueuedLeaf → W → Result ℕ W
  unfolding process_from
  process_queued_leaf_batch qs w = process_from none [] qs w

  -- Groups in turn, up to the first error.
  unfoldable pub process_groups : List LeafGroup → W → Result ℕ W
  process_groups [] w = ok w
  process_groups ((dataset, leaves) ∷ groups) w =
      process_leaf_batch dataset leaves w >>= process_groups groups

-- A leaf with its data set.
abbrev pub Tagged : Type 0
Tagged = Option ℕ × List ℕ

abbrev tagged : QueuedLeaf → Tagged
tagged q = (q.dataset, q.leaf)

tag : Option ℕ → Leaves → List Tagged
tag dataset [] = []
tag dataset (leaf ∷ leaves) = (dataset, leaf) ∷ tag dataset leaves

pub ungroup : List LeafGroup → List Tagged
unfolding tag
ungroup [] = []
ungroup ((dataset, leaves) ∷ groups) = tag dataset leaves ++ ungroup groups

same-dataset : (a b : Option ℕ) → same_queued_dataset a b ≡ true → a ≡ b
unfolding same_queued_dataset
same-dataset none none e = refl
same-dataset (some x) (some y) e = ground arith
same-dataset none (some y) e = absurd (ground arith)
same-dataset (some x) none e = absurd (ground arith)

tag-append : (d : Option ℕ) (xs ys : Leaves) → tag d (xs ++ ys) ≡ tag d xs ++ tag d ys
unfolding tag
tag-append d [] ys = refl
tag-append d (x ∷ xs) ys = ap (λ zs. (d, x) ∷ zs) (tag-append d xs ys)

joined :
    (current : Option ℕ) (leaves : Leaves) (q : QueuedLeaf) (rest : List Tagged)
    → current ≡ q.dataset
    → tag current (leaves ++ (q.leaf ∷ [])) ++ rest ≡ tag current leaves ++ (tagged q ∷ rest)
unfolding tag
joined current leaves q rest e =
    ap (λ xs. xs ++ rest) (tag-append current leaves (q.leaf ∷ []))
    ∙ append_assoc (tag current leaves) (tag current (q.leaf ∷ [])) rest
    ∙ ap (λ (d : Option ℕ). tag current leaves ++ ((d, q.leaf) ∷ rest)) e

no_leaf : (leaves : Leaves) → (length leaves == 0) ≡ true → leaves ≡ []
no_leaf [] e = refl
no_leaf (x ∷ xs) e = absurd (ground arith)

abbrev pub HasLeaves : LeafGroup → Type 0
HasLeaves g = 1 ≤ length (g.1)

module _ {W : Type 0} (process_leaf_batch : Option ℕ → Leaves → W → Result ℕ W) where
  -- What a run is: groups in turn, which are these leaves in order.
  abbrev pub InGroups : List Tagged → (W → Result ℕ W) → Type 0
  InGroups leaves f =
      (groups : List LeafGroup) × ((w : W) → f w ≡ process_groups process_leaf_batch groups w)
      × (ungroup groups ≡ leaves)
      × All HasLeaves groups

  groups_end : (m : Result ℕ W) → (m >>= process_groups process_leaf_batch []) ≡ m
  unfolding process_groups
  groups_end (ok w) = refl
  groups_end (err e) = refl

  flush-InGroups :
      (current : Option ℕ) (leaves : Leaves) (rest : List Tagged) (f : W → Result ℕ W)
      → (length leaves == 0) ≡ false
      → InGroups rest f
      → InGroups (tag current leaves ++ rest) (λ w. process_leaf_batch current leaves w >>= f)
  unfolding process_groups ungroup
  flush-InGroups current leaves rest f e (groups, same, all, full) = (
    (current, leaves) ∷ groups,
    λ w. ap (λ k. process_leaf_batch current leaves w >>= k) (fun_ext same),
    ap (λ xs. tag current leaves ++ xs) all,
    (ground arith, full),
  )

  process_from-InGroups :
      (current : Option ℕ) (leaves : Leaves) (qs : List QueuedLeaf)
      → InGroups
          (tag current leaves ++ map tagged qs)
          (process_from process_leaf_batch current leaves qs)
  unfolding process_from flush_queued_leaf_batch process_groups ungroup tag
  process_from-InGroups current leaves [] = elim (Bool-cases (length leaves == 0)) [
    | inl e ↦ ([], λ w. rw e refl, rw (no_leaf leaves e) refl, tt)
    | inr e ↦ (
      (current, leaves) ∷ [],
      λ w. rw e (sym (groups_end (process_leaf_batch current leaves w))),
      refl,
      (ground arith, tt),
    )
  ]
  process_from-InGroups current leaves (q ∷ qs) =
      let (groups, same, all, full) = process_from-InGroups q.dataset (q.leaf ∷ []) qs in
      let (grown, same', all', full') =
        process_from-InGroups current (leaves ++ (q.leaf ∷ [])) qs in
      elim (Bool-cases (length leaves == 0)) [
        | inl e ↦ (groups, λ w. rw e (same w), rw (no_leaf leaves e) all, full)
        | inr e ↦ elim (Bool-cases (same_queued_dataset current q.dataset)) [
          | inl s ↦ (
            grown,
            λ w. rw (e, s) (same' w),
            all' ∙ joined current leaves q (map tagged qs) (same-dataset current q.dataset s),
            full',
          )
          | inr d ↦
              let (gs, run, at, fs) =
                flush-InGroups current leaves (tagged q ∷ map tagged qs) _ e
                  (groups, same, all, full) in
              (gs, λ w. rw (e, d) (run w), at, fs)
        ]
      ]

  -- For any leaves of a batch: they are processed as groups in turn, up to the first error; each
  -- group has a leaf, and the leaves of the groups with their data sets are those of the batch in
  -- order.
  pub process_queued_leaf_batch-InGroups :
      (qs : List QueuedLeaf)
      → InGroups (map tagged qs) (process_queued_leaf_batch process_leaf_batch qs)
  unfolding process_queued_leaf_batch tag
  process_queued_leaf_batch-InGroups qs = process_from-InGroups none [] qs
