-- ===== src/Scheduler/Budget.antt =====
-- `SchedulerBudget` of ForgeANN/src/forgeann/scheduler.rs, and `LeafBatchDrainPolicy` with the
-- limits of a batch of leaves. `size_of::<u32>()` and `size_of::<f32>()` are 4.
pub mod Bounds
use forge_ann.Prelude.{
  ℕ, suc, ◌+◌, ◌-◌, ◌*◌, ◌/◌, ◌^◌, ◌≤◌, ◌≡◌, refl, Bool, true, false, not, ◌&&◌, ◌||◌, ◌==◌, leb,
  ltb, if◌then◌else◌, min, max, Option, none, some, arith,
}
use forge_ann.Prelude.Usize.{saturating_mul}

pub record SchedulerBudget : Type 0 where
  pub worker_count : ℕ
  pub leaf_backlog_capacity : ℕ
  pub producer_leaf_backlog_soft_limit : ℕ
  pub large_leaf_min_size : ℕ
  pub leaf_block_rows : ℕ

abbrev default_leaf_block_rows : ℕ
default_leaf_block_rows = 1024

abbrev max_leaf_backlog_capacity : ℕ
max_leaf_backlog_capacity = 1048576

abbrev min_leaf_backlog_capacity : ℕ
min_leaf_backlog_capacity = 1

abbrev pub target_leaf_backlog_bytes : ℕ
target_leaf_backlog_bytes = 12 * 1024 * 1024 * 1024

abbrev pub usize_max : ℕ
usize_max = 2 ^ 64 - 1

-- `Ord::clamp`, for `lo ≤ hi`
abbrev pub clamp : ℕ → ℕ → ℕ → ℕ
clamp value lo hi = if ltb value lo then lo else if ltb hi value then hi else value

pub estimated_leaf_bytes : ℕ → ℕ
estimated_leaf_bytes kernel_safe_leaf_size = max (saturating_mul (max kernel_safe_leaf_size 1) 4) 1

pub budget_backlog_capacity : ℕ → ℕ → ℕ
unfolding estimated_leaf_bytes
budget_backlog_capacity kernel_safe_leaf_size memory_budget_bytes =
    if memory_budget_bytes == usize_max
    then max_leaf_backlog_capacity
    else clamp
        (min memory_budget_bytes target_leaf_backlog_bytes
          / estimated_leaf_bytes kernel_safe_leaf_size)
        min_leaf_backlog_capacity max_leaf_backlog_capacity

pub for_memory_budget : ℕ → ℕ → ℕ → SchedulerBudget
unfolding budget_backlog_capacity
for_memory_budget worker_count kernel_safe_leaf_size memory_budget_bytes =
    let workers = max worker_count 1 in
    let budget_capacity = budget_backlog_capacity kernel_safe_leaf_size memory_budget_bytes in
    let worker_floor =
      clamp (saturating_mul workers 2048) min_leaf_backlog_capacity max_leaf_backlog_capacity in
    record {
      worker_count = workers;
      leaf_backlog_capacity =
          if memory_budget_bytes == usize_max
          then min worker_floor budget_capacity
          else budget_capacity;
      producer_leaf_backlog_soft_limit = 0;
      large_leaf_min_size = max 4096 (saturating_mul kernel_safe_leaf_size 2);
      leaf_block_rows = default_leaf_block_rows;
    }

pub for_worker_count : ℕ → ℕ → SchedulerBudget
unfolding for_memory_budget
for_worker_count worker_count kernel_safe_leaf_size =
    for_memory_budget worker_count kernel_safe_leaf_size usize_max

-- The parameters that the policy reads; the overrides are read from environment variables.
pub record DrainParams : Type 0 where
  pub leaf_batch_drain_enable : Bool
  pub leaf_batch_drain_max_leaves : ℕ
  pub leaf_batch_drain_max_points : ℕ
  pub leaf_batch_drain_min_backlog : ℕ

pub record DrainOverrides : Type 0 where
  pub enabled_override : Option ℕ
  pub max_leaves_override : Option ℕ
  pub max_points_override : Option ℕ
  pub min_backlog_override : Option ℕ
  pub max_active_hydrations_override : Option ℕ
  pub post_producer_scale_override : Option ℕ

pub record LeafBatchDrainPolicy : Type 0 where
  pub enabled : Bool
  pub max_leaves : ℕ
  pub max_points : ℕ
  pub min_backlog : ℕ
  pub max_active_hydrations : ℕ
  pub post_producer_scale : ℕ
  pub post_producer_max_leaves : ℕ
  pub post_producer_max_points : ℕ

-- `LeafBatchDrainPolicy::default()`
abbrev pub default_policy : LeafBatchDrainPolicy
default_policy = record {
  enabled = false;
  max_leaves = 0;
  max_points = 0;
  min_backlog = 0;
  max_active_hydrations = 0;
  post_producer_scale = 0;
  post_producer_max_leaves = 0;
  post_producer_max_points = 0;
}

pub default_leaf_batch_hydration_limit : ℕ → ℕ
default_leaf_batch_hydration_limit worker_count = 0

pub default_leaf_batch_post_producer_scale : ℕ → ℕ
default_leaf_batch_post_producer_scale worker_count = if leb 8 worker_count then 2 else 1

-- `unwrap_or`
abbrev unwrap_or : Option ℕ → ℕ → ℕ
unwrap_or none d = d
unwrap_or (some v) d = v

pub is_drain_enabled : DrainParams → Option ℕ → Bool
is_drain_enabled params none = params.leaf_batch_drain_enable
is_drain_enabled params (some value) = not (value == 0)

-- Rows within the bytes of the point pipeline.
pub config_budget_points : ℕ → ℕ → ℕ
config_budget_points dim budget_bytes =
    let row_bytes = max (saturating_mul dim 4) 1 in max (max budget_bytes row_bytes / row_bytes) 1

pub enabled_policy : DrainParams → DrainOverrides → ℕ → ℕ → ℕ → LeafBatchDrainPolicy
unfolding config_budget_points default_leaf_batch_hydration_limit
    default_leaf_batch_post_producer_scale
enabled_policy params over budget_bytes dim worker_count =
    let budget_points = config_budget_points dim budget_bytes in
    let leaves = max (unwrap_or over.max_leaves_override params.leaf_batch_drain_max_leaves) 1 in
    let points =
      min (max (unwrap_or over.max_points_override params.leaf_batch_drain_max_points) 1)
        budget_points in
    let scale =
      min
        (max
          (unwrap_or over.post_producer_scale_override
            (default_leaf_batch_post_producer_scale worker_count))
          1)
        (max worker_count 1) in
    record {
      enabled = true;
      max_leaves = leaves;
      max_points = points;
      min_backlog = max (unwrap_or over.min_backlog_override params.leaf_batch_drain_min_backlog) 1;
      max_active_hydrations =
          min
            (unwrap_or over.max_active_hydrations_override
              (default_leaf_batch_hydration_limit worker_count))
            (max worker_count 1);
      post_producer_scale = scale;
      post_producer_max_leaves = max (saturating_mul leaves scale) leaves;
      post_producer_max_points = min (max (saturating_mul points scale) points) budget_points;
    }

pub leaf_batch_drain_policy_with_override :
    DrainParams → DrainOverrides → Option ℕ → ℕ → ℕ → LeafBatchDrainPolicy
leaf_batch_drain_policy_with_override params over none dim worker_count = default_policy
leaf_batch_drain_policy_with_override params over (some budget_bytes) dim worker_count =
    if not (is_drain_enabled params over.enabled_override) || dim == 0
    then default_policy
    else enabled_policy params over budget_bytes dim worker_count
