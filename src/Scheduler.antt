-- ===== src/Scheduler.antt =====
-- `ForgeannScheduler` of ForgeANN/src/forgeann/scheduler.rs: the queue of leaves and its counters.
-- Each function on the counters is a sequence of atomic steps; a step is a function here, so that
-- Scheduler.Threads can interleave them. Peaks are the maxima that a loop of compare-exchange
-- stores. Times, the counters of telemetry alone and the progress bar are left out.
pub mod Budget
pub mod Ends
pub mod Queue
pub mod Limits
pub mod Emitter
pub mod Threads
mod Tests
mod QueueTests
use forge_ann.Prelude.{
  ℕ, zero, suc, ◌+◌, ◌*◌, ◌-◌, ◌^◌, ◌/◌, Bool, true, false, ◌==◌, ltb, if◌then◌else◌, min, max,
  Option, none, some, ◌>>=◌, List, [], ◌∷◌, ◌++◌, length,
}
use forge_ann.Scheduler.Budget.{SchedulerBudget, LeafBatchDrainPolicy}
use forge_ann.Prelude.Usize.{wrapping_add, wrapping_sub, saturating_add, saturating_mul}

-- A data set is named by a number, so that `Arc::ptr_eq` compares numbers.
pub record QueuedLeaf : Type 0 where
  pub leaf : List ℕ
  pub dataset : Option ℕ
  pub estimated_work_ms : ℕ
  pub estimated_mem_bytes : ℕ

-- The parameters of the work graph.
pub record WorkGraph : Type 0 where
  pub enable : Bool
  pub quantum_ms : ℕ
  pub min_tile_rows : ℕ
  pub target_queue_ms : ℕ

pub record LeafDrainerLimitEntry : Type 0 where
  pub limit : ℕ
  pub backpressure_limit : ℕ

-- What the limits of the drainers are computed from.
pub record DrainerSignals : Type 0 where
  pub active_leaf_drainers : ℕ
  pub retiring_leaf_drainers : ℕ
  -- the entries of the guards that are alive, oldest first
  pub leaf_drainer_limits : List LeafDrainerLimitEntry
  -- their minima, 0 without guards
  pub leaf_drainer_limit : ℕ
  pub leaf_drainer_backpressure_limit : ℕ
  pub active_large_assignment_count : ℕ
  pub active_large_assignment_peak : ℕ

pub record ForgeannScheduler : Type 0 where
  pub worker_count : ℕ
  pub work_graph : WorkGraph
  pub leaf_batch_drain_policy : LeafBatchDrainPolicy
  pub producer_leaf_backlog_soft_limit : ℕ
  -- `ArrayQueue`, oldest leaf first
  pub backlog_capacity : ℕ
  pub leaf_backlog : List QueuedLeaf
  pub outstanding_leaf_tasks : ℕ
  pub inflight_leaf_tasks : ℕ
  pub peak_inflight_leaf_tasks : ℕ
  pub peak_leaf_backlog : ℕ
  pub queued_work_ms : ℕ
  pub queued_work_ms_peak : ℕ
  pub queued_mem_bytes : ℕ
  pub queued_mem_bytes_peak : ℕ
  pub replay_admitted_runs : ℕ
  pub producer_active : Bool
  pub drainers : DrainerSignals
  -- an error is named by a number
  pub first_error : Option ℕ

abbrev no_drainers : DrainerSignals
no_drainers = record {
  active_leaf_drainers = 0;
  retiring_leaf_drainers = 0;
  leaf_drainer_limits = [];
  leaf_drainer_limit = 0;
  leaf_drainer_backpressure_limit = 0;
  active_large_assignment_count = 0;
  active_large_assignment_peak = 0;
}

unfoldable pub new : SchedulerBudget → WorkGraph → LeafBatchDrainPolicy → ForgeannScheduler
new budget work_graph policy = record {
  worker_count = budget.worker_count;
  work_graph = work_graph;
  leaf_batch_drain_policy = policy;
  producer_leaf_backlog_soft_limit = budget.producer_leaf_backlog_soft_limit;
  backlog_capacity = max budget.leaf_backlog_capacity 1;
  leaf_backlog = [];
  outstanding_leaf_tasks = 0;
  inflight_leaf_tasks = 0;
  peak_inflight_leaf_tasks = 0;
  peak_leaf_backlog = 0;
  queued_work_ms = 0;
  queued_work_ms_peak = 0;
  queued_mem_bytes = 0;
  queued_mem_bytes_peak = 0;
  replay_admitted_runs = 0;
  producer_active = true;
  drainers = no_drainers;
  first_error = none;
}

-- `usize::div_ceil`
div_ceil : ℕ → ℕ → ℕ
div_ceil n d = (n + (d - 1)) / d

pub estimate_leaf_work_ms : WorkGraph → ℕ → ℕ
unfolding div_ceil
estimate_leaf_work_ms g leaf_len =
    let tiles = max (div_ceil leaf_len (max g.min_tile_rows 1)) 1 in
    if g.enable then max (saturating_mul tiles (max g.quantum_ms 1)) 1 else 0

pub make_queued_leaf : WorkGraph → List ℕ → Option ℕ → QueuedLeaf
unfolding estimate_leaf_work_ms
make_queued_leaf g leaf dataset =
    let work = estimate_leaf_work_ms g (length leaf) in
    record {
      leaf = leaf;
      dataset = dataset;
      estimated_work_ms = work;
      estimated_mem_bytes = saturating_add (saturating_mul (length leaf) 4) work;
    }

pub target_queued_work_ms : ForgeannScheduler → ℕ
target_queued_work_ms s =
    max (saturating_mul (max s.worker_count 1) (max s.work_graph.target_queue_ms 1)) 1

module _ (s : ForgeannScheduler) where
  -- `outstanding_leaf_tasks.fetch_add(1)`
  unfoldable pub add_task : ForgeannScheduler
  add_task = record s { outstanding_leaf_tasks = wrapping_add s.outstanding_leaf_tasks 1 }

  unfoldable pub remove_task : ForgeannScheduler
  remove_task = record s { outstanding_leaf_tasks = wrapping_sub s.outstanding_leaf_tasks 1 }

  -- `ArrayQueue::push`; `none` is the leaf given back
  unfoldable pub push_leaf : QueuedLeaf → Option ForgeannScheduler
  push_leaf q =
      if ltb (length s.leaf_backlog) s.backlog_capacity
      then some (record s { leaf_backlog = s.leaf_backlog ++ (q ∷ []) })
      else none

  -- The first half of `add_queued_leaf_credit`; the sum that goes to the peak wraps in a release build.
  unfoldable pub add_queued_work : QueuedLeaf → ForgeannScheduler
  add_queued_work q =
      let work = wrapping_add s.queued_work_ms q.estimated_work_ms in
      if s.work_graph.enable
      then (record s {
        replay_admitted_runs = wrapping_add s.replay_admitted_runs 1;
        queued_work_ms = work;
        queued_work_ms_peak = max s.queued_work_ms_peak work;
      })
      else s

  unfoldable pub add_queued_mem : QueuedLeaf → ForgeannScheduler
  add_queued_mem q =
      let mem = wrapping_add s.queued_mem_bytes q.estimated_mem_bytes in
      if s.work_graph.enable
      then (record s {
        queued_mem_bytes = mem;
        queued_mem_bytes_peak = max s.queued_mem_bytes_peak mem;
      })
      else s

  unfoldable pub update_peak_backlog : ForgeannScheduler
  update_peak_backlog = record s {
    peak_leaf_backlog = max s.peak_leaf_backlog (length s.leaf_backlog);
  }

  -- The two halves of `remove_queued_leaf_credit`.
  unfoldable pub remove_queued_work : QueuedLeaf → ForgeannScheduler
  remove_queued_work q =
      if s.work_graph.enable
      then (record s { queued_work_ms = wrapping_sub s.queued_work_ms q.estimated_work_ms })
      else s

  unfoldable pub remove_queued_mem : QueuedLeaf → ForgeannScheduler
  remove_queued_mem q =
      if s.work_graph.enable
      then (record s { queued_mem_bytes = wrapping_sub s.queued_mem_bytes q.estimated_mem_bytes })
      else s

  unfoldable pub start_leaf_execution : ForgeannScheduler
  start_leaf_execution =
      let inflight = wrapping_add s.inflight_leaf_tasks 1 in
      record s {
        inflight_leaf_tasks = inflight;
        peak_inflight_leaf_tasks = max s.peak_inflight_leaf_tasks inflight;
      }

  -- `inflight_leaf_tasks.fetch_sub(1)`
  unfoldable pub remove_inflight : ForgeannScheduler
  remove_inflight = record s { inflight_leaf_tasks = wrapping_sub s.inflight_leaf_tasks 1 }

-- `ArrayQueue::pop`
unfoldable pub pop_leaf : ForgeannScheduler → Option (QueuedLeaf × ForgeannScheduler)
pop_leaf s = elim s.leaf_backlog [
  | [] ↦ none
  | q ∷ rest ↦ some (q, record s { leaf_backlog = rest })
]
