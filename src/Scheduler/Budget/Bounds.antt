-- ===== src/Scheduler/Budget/Bounds.antt =====
-- The bytes and the counts that a budget and a drain policy allow.
use forge_ann.Prelude.{
  ℕ, zero, suc, ◌*◌, ◌/◌, ◌^◌, ◌≤◌, ◌<◌, ◌≡◌, ◌≢◌, true, false, ◌==◌, max, min, some, arith,
}
use forge_ann.Scheduler.Budget.{
  SchedulerBudget, DrainParams, DrainOverrides, LeafBatchDrainPolicy, for_memory_budget,
  estimated_leaf_bytes, clamp, usize_max, target_leaf_backlog_bytes, budget_backlog_capacity,
  leaf_batch_drain_policy_with_override, enabled_policy, config_budget_points, is_drain_enabled,
}
use forge_ann.Prelude.Usize.{saturating_mul}
use native.Mathlib.Nat.{div-mul-le_self, mul-le-mul_right, le_trans}

-- What a budget keeps to, of leaves of `leaf_bytes` each within `memory` bytes.
pub record IsWithin (leaf_bytes memory : ℕ) (b : SchedulerBudget) : Type 0 where
  has_worker : 1 ≤ b.worker_count
  has_room : 1 ≤ b.leaf_backlog_capacity
  is_capped : b.leaf_backlog_capacity ≤ 1048576
  -- the backlog fits in the memory, or holds one leaf
  fits : b.leaf_backlog_capacity * leaf_bytes ≤ max memory leaf_bytes
  -- a leaf of the size that the kernel takes is not large
  large : 4096 ≤ b.large_leaf_min_size

clamp-fits :
    (q e memory : ℕ)
    → q * e ≤ memory
    → (1 ≤ clamp q 1 1048576)
      × (clamp q 1 1048576 ≤ 1048576)
      × (clamp q 1 1048576 * e ≤ max memory e)
clamp-fits q e memory h =
    let cut : 1048576 ≤ q → 1048576 * e ≤ q * e = λ le. mul-le-mul_right e le in ground arith

pub for_memory_budget-IsWithin :
    (worker_count kernel_safe_leaf_size memory : ℕ)
    → memory ≢ usize_max
    → IsWithin
        (estimated_leaf_bytes kernel_safe_leaf_size)
        memory
        (for_memory_budget worker_count kernel_safe_leaf_size memory)
unfolding for_memory_budget budget_backlog_capacity
for_memory_budget-IsWithin w k memory n =
    let e = estimated_leaf_bytes k in
    let room = min memory target_leaf_backlog_bytes in
    let quotient = div-mul-le_self room e in
    let below : (room / e) * e ≤ memory = omega arith in
    let c = clamp-fits _ e memory below in
    let budgeted : (memory == usize_max) ≡ false = ground arith in
    record {
      has_worker = omega arith;
      has_room = rw budgeted c.0;
      is_capped = rw budgeted c.1;
      fits = rw budgeted c.2;
      large = omega arith;
    }

-- What a policy that is enabled keeps to, with rows of `dim` floats and `budget_bytes` for a batch.
pub record IsDrainable (dim budget_bytes worker_count : ℕ) (p : LeafBatchDrainPolicy) : Type 0 where
  takes_a_leaf : 1 ≤ p.max_leaves
  takes_a_point : 1 ≤ p.max_points
  takes_more_leaves : p.max_leaves ≤ p.post_producer_max_leaves
  takes_more_points : p.max_points ≤ p.post_producer_max_points
  scales : (1 ≤ p.post_producer_scale) × (p.post_producer_scale ≤ max worker_count 1)
  hydrates : p.max_active_hydrations ≤ max worker_count 1
  -- the points of a batch fit in the bytes, or are one
  fits : p.post_producer_max_points * (dim * 4) ≤ max budget_bytes (dim * 4)

max_one-fits : (q r m : ℕ) → q * r ≤ max m r → max q 1 * r ≤ max m r
max_one-fits zero r m h = omega arith
max_one-fits (suc q) r m h = let same : max (suc q) 1 ≡ suc q = omega arith in rw same (omega arith)

budget_points_fit :
    (dim budget_bytes : ℕ)
    → 1 ≤ dim
    → dim * 4 < 2 ^ 64
    → config_budget_points dim budget_bytes * (dim * 4) ≤ max budget_bytes (dim * 4)
unfolding config_budget_points
budget_points_fit dim budget_bytes h b =
    let row : max (saturating_mul dim 4) 1 ≡ dim * 4 = omega arith in
    let quotient = div-mul-le_self (max budget_bytes (dim * 4)) (dim * 4) in
    rw row (max_one-fits _ (dim * 4) budget_bytes quotient)

leaf_batch_drain_policy-IsDrainable :
    (params : DrainParams) (over : DrainOverrides) (budget_bytes dim worker_count : ℕ)
    → is_drain_enabled params over.enabled_override ≡ true
    → 1 ≤ dim
    → dim * 4 < 2 ^ 64
    → IsDrainable dim budget_bytes worker_count
        (leaf_batch_drain_policy_with_override params over (some budget_bytes) dim worker_count)
unfolding leaf_batch_drain_policy_with_override enabled_policy
leaf_batch_drain_policy-IsDrainable params over budget_bytes dim w e h b =
    let wide : (dim == 0) ≡ false = ground arith in
    let within = budget_points_fit dim budget_bytes h b in
    rw (e, wide)
      (record {
        takes_a_leaf = omega arith;
        takes_a_point = omega arith;
        takes_more_leaves = omega arith;
        takes_more_points = omega arith;
        scales = (omega arith, omega arith);
        hydrates = omega arith;
        fits = le_trans (mul-le-mul_right (dim * 4) (omega arith)) within;
      })
