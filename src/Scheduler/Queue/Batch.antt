-- ===== src/Scheduler/Queue/Batch.antt =====
-- The batch of leaves that one call takes.
use mathlib.Core.List.{append_assoc, append-nil, cons-ne-nil}
use forge_ann.Prelude.{
  ◌⊎◌, ℕ, zero, suc, ◌-◌, ◌^◌, ◌≤◌, ◌<◌, ◌≡◌, refl, sym, subst, ap, ◌∙◌, Bool, true, false, not,
  ◌||◌, ltb, leb, min, max, some, Bool-cases, inl, inr, List, [], ◌∷◌, ◌++◌, length, arith,
}
use forge_ann.Prelude.Usize.{saturating_add, saturating_mul}
use forge_ann.Scheduler.{QueuedLeaf, ForgeannScheduler}
use forge_ann.Scheduler.Budget.{LeafBatchDrainPolicy}
use forge_ann.Scheduler.Queue.{
  take_more, try_take_queued_leaf_batch, effective_leaf_batch_limits, max_leaf_worker_capacity,
}
use forge_ann.Scheduler.Queue.Take.{
  IsTaken, none-IsTaken, IsTaken-trans, try_take_queued_leaf-TakeOf,
}

-- The points after more leaves, as far as a usize counts.
abbrev pub points_after : ℕ → List QueuedLeaf → ℕ
points_after points [] = points
points_after points (q ∷ more) = points_after (saturating_add points (length q.leaf)) more

-- Each leaf joins while the points before it are below the limit.
abbrev pub Joins : ℕ → ℕ → List QueuedLeaf → Type 0
Joins limit points [] = Unit
Joins limit points (q ∷ more) =
    (points < limit) × Joins limit (saturating_add points (length q.leaf)) more

-- The loop stops for one of three reasons.
abbrev pub Stops : ℕ → ℕ → ℕ → List QueuedLeaf → ForgeannScheduler → Type 0
Stops room limit points more s =
    (room ≤ length more) ⊎ ((limit ≤ points_after points more) ⊎ (s.leaf_backlog ≡ []))

-- What the loop adds to a batch.
record Grown (room limit : ℕ) (s : ForgeannScheduler) (points : ℕ) (leaves : List QueuedLeaf)
    (r : List QueuedLeaf × ForgeannScheduler) : Type 0 where
  more : List QueuedLeaf
  end : ForgeannScheduler
  gives : r ≡ (leaves ++ more, end)
  taken : IsTaken s more end
  joins : Joins limit points more
  few : length more ≤ room
  stops : Stops room limit points more end

none-Grown :
    (room limit : ℕ) (s : ForgeannScheduler) (points : ℕ) (leaves : List QueuedLeaf)
    → Stops room limit points [] s
    → Grown room limit s points leaves (leaves, s)
none-Grown room limit s points leaves why = record {
  more = [];
  end = s;
  gives = ap (λ l. (l, s)) (sym (append-nil leaves));
  taken = none-IsTaken s;
  joins = tt;
  few = omega arith;
  stops = why;
}

take_more-Grown :
    (room limit : ℕ) (s : ForgeannScheduler) (points : ℕ) (leaves : List QueuedLeaf)
    → Grown room limit s points leaves (take_more room limit s points leaves)
unfolding take_more
take_more-Grown zero limit s points leaves = none-Grown 0 limit s points leaves (inl (omega arith))
take_more-Grown (suc room) limit s points leaves = elim (Bool-cases (ltb points limit)) [
  | inl on ↦ elim (try_take_queued_leaf-TakeOf s) [
    | inl (nothing, e) ↦
        rw (on, nothing) (none-Grown (suc room) limit s points leaves (inr (inr e)))
    | inr (q, s', taken, one) ↦
        let g =
          take_more-Grown room limit s' (saturating_add points (length q.leaf))
            (leaves ++ (q ∷ [])) in
        rw (on, taken)
          (record {
            more = q ∷ g.more;
            end = g.end;
            gives = g.gives ∙ ap (λ l. (l, g.end)) (append_assoc leaves (q ∷ []) g.more);
            taken = IsTaken-trans one g.taken;
            joins = (ground arith, g.joins);
            few = omega (arith, g.few);
            stops = elim g.stops [ inl full ↦ inl (omega arith) | inr other ↦ inr other ];
          })
  ]
  | inr off ↦ rw off (none-Grown (suc room) limit s points leaves (inr (inl (ground arith))))
]

-- How many leaves a batch may have, and the points from which no leaf joins: by the policy, whether
-- the producer is active, the workers, and the leaves that are available.
pub data Allows (policy : LeafBatchDrainPolicy) (producer_active : Bool) (workers available : ℕ)
    (most limit : ℕ) : Type 0 where
  one_leaf :
      (policy.enabled ≡ false) ⊎ (available < policy.min_backlog)
      → most ≡ 1
      → Allows policy producer_active workers available most limit
  usual :
      policy.enabled ≡ true
      → policy.min_backlog ≤ available
      → (producer_active ≡ true)
        ⊎ ((policy.post_producer_scale ≤ 1)
            ⊎ (available < saturating_mul policy.max_leaves (max (workers - 1) 1)))
      → most ≡ policy.max_leaves
      → limit ≡ policy.max_points
      → Allows policy producer_active workers available most limit
  after_producer :
      policy.enabled ≡ true
      → policy.min_backlog ≤ available
      → producer_active ≡ false
      → 1 < policy.post_producer_scale
      → saturating_mul policy.max_leaves (max (workers - 1) 1) ≤ available
      → most ≡ policy.post_producer_max_leaves
      → limit ≡ policy.post_producer_max_points
      → Allows policy producer_active workers available most limit

abbrev AllowedBy : ForgeannScheduler → ℕ → ℕ → ℕ → Type 0
AllowedBy s = Allows s.leaf_batch_drain_policy s.producer_active s.worker_count

limits-Allows :
    (s : ForgeannScheduler) (available : ℕ)
    → s.leaf_batch_drain_policy.enabled ≡ true
    → s.leaf_batch_drain_policy.min_backlog ≤ available
    → AllowedBy s available
        (effective_leaf_batch_limits s available).0
        (effective_leaf_batch_limits s available).1
unfolding effective_leaf_batch_limits max_leaf_worker_capacity
limits-Allows s available on enough =
    let p = s.leaf_batch_drain_policy in
    let scaled = saturating_mul p.max_leaves (max (s.worker_count - 1) 1) in
    elim (Bool-cases (s.producer_active || leb p.post_producer_scale 1)) [
      | inl early ↦ rw early (
          usual on enough
            (elim (Bool-cases s.producer_active) [
              | inl active ↦ inl active
              | inr idle ↦ inr (inl (ground arith))
            ])
            refl refl)
      | inr late ↦ elim (Bool-cases (ltb available (max scaled p.min_backlog))) [
        | inl few ↦ rw (late, few) (usual on enough (inr (inr (ground arith))) refl refl)
        | inr many ↦
            rw (late, many)
              (after_producer on enough (ground arith) (ground arith) (ground arith) refl refl)
      ]
    ]

-- The leaves that one call takes, as many as its limits let it.
pub record IsBatch (s : ForgeannScheduler) (leaves : List QueuedLeaf) (s' : ForgeannScheduler)
    : Type 0 where
  pub most : ℕ
  pub limit : ℕ
  pub allowed : AllowedBy s (min (length s.leaf_backlog) (2 ^ 64 - 1)) most limit
  pub first : QueuedLeaf
  pub more : List QueuedLeaf
  pub starts : leaves ≡ first ∷ more
  pub joins : Joins limit (length first.leaf) more
  pub few : length more ≤ most - 1
  pub stops : Stops (most - 1) limit (length first.leaf) more s'

abbrev pub BatchOf : ForgeannScheduler → Type 0
BatchOf s =
    (leaves : List QueuedLeaf) × (s' : ForgeannScheduler) × (try_take_queued_leaf_batch s
      ≡ some (leaves, s'))
    × IsTaken s leaves s'
    × (1 ≤ length leaves)
    × IsBatch s leaves s'

-- A batch from a queue that holds a leaf is the oldest leaves in order, all counted as in flight in
-- the 64 bits of the counter, and none lost from the outstanding tasks. It is one leaf if the policy is disabled or fewer
-- leaves are available than it asks for. Otherwise the limits are the usual ones while the producer
-- is active, without a scale, or with fewer leaves than the usual limit for all workers, and those
-- for the time after the producer else. Behind the first leaf, which is always taken, leaves join
-- up to the limit of leaves, each while the points before it are below the limit of points; and the
-- batch ends only where a limit is reached or the queue is empty.
pub try_take_queued_leaf_batch-BatchOf :
    (s : ForgeannScheduler) (q : QueuedLeaf) (rest : List QueuedLeaf)
    → s.leaf_backlog ≡ q ∷ rest
    → BatchOf s
unfolding try_take_queued_leaf_batch
try_take_queued_leaf_batch-BatchOf s q rest e = elim (try_take_queued_leaf-TakeOf s) [
  | inl (nothing, f) ↦ absurd (cons-ne-nil _ _ (sym e ∙ f))
  | inr (first, s', taken, one) ↦
      let p = s'.leaf_batch_drain_policy in
      let available = saturating_add (length s'.leaf_backlog) 1 in
      let limits = effective_leaf_batch_limits s' available in
      let order = ap length one.oldest in
      let counted : available ≡ min (length s.leaf_backlog) (2 ^ 64 - 1) = omega arith in
      let back : (most limit : ℕ)
          → AllowedBy s' available most limit
          → AllowedBy s (min (length s.leaf_backlog) (2 ^ 64 - 1)) most limit =
        λ most limit a.
          subst (λ n. AllowedBy s n most limit) counted
            (subst (λ w. Allows s.leaf_batch_drain_policy s.producer_active w available most limit)
              one.workers
              (subst (λ b. Allows s.leaf_batch_drain_policy b s'.worker_count available most limit)
                one.producer
                (subst (λ k. Allows k s'.producer_active s'.worker_count available most limit)
                  one.policy a))) in
      elim (Bool-cases (not p.enabled || ltb available p.min_backlog)) [
        | inl alone ↦
            let why : (p.enabled ≡ false) ⊎ (available < p.min_backlog) =
              elim (Bool-cases p.enabled) [ inl on ↦ inr (ground arith) | inr off ↦ inl off ] in
            (
              first ∷ [],
              s',
              rw (taken, try_take_queued_leaf_batch, alone) refl,
              one,
              omega arith,
              record {
                most = 1;
                limit = 0;
                allowed = back 1 0 (one_leaf why refl);
                first = first;
                more = [];
                starts = refl;
                joins = tt;
                few = omega arith;
                stops = inl (omega arith);
              },
            )
        | inr batched ↦
            let g = take_more-Grown (limits.0 - 1) limits.1 s' (length first.leaf) (first ∷ []) in
            (
              first ∷ g.more,
              g.end,
              rw (taken, try_take_queued_leaf_batch, batched) (ap some g.gives),
              IsTaken-trans one g.taken,
              omega arith,
              record {
                most = limits.0;
                limit = limits.1;
                allowed =
                    back limits.0 limits.1
                      (limits-Allows s' available (ground arith) (ground arith));
                first = first;
                more = g.more;
                starts = refl;
                joins = g.joins;
                few = g.few;
                stops = g.stops;
              },
            )
      ]
]
