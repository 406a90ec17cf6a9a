-- ===== src/Scheduler/Tests.antt =====
-- Runs of the scheduler at small inputs.
use forge_ann.Prelude.{
  ℕ, ◌+◌, ◌*◌, ◌^◌, ◌-◌, ◌≤◌, ◌≡◌, refl, true, none, List, [], ◌∷◌, length, arith,
}
use forge_ann.Prelude.Usize.{IsCongruent}
use forge_ann.Scheduler.{
  QueuedLeaf, WorkGraph, ForgeannScheduler, new, add_task, remove_task, push_leaf, add_queued_work,
  add_queued_mem, update_peak_backlog, remove_queued_work, remove_queued_mem, start_leaf_execution,
  remove_inflight, pop_leaf,
}
use forge_ann.Scheduler.Budget.{
  SchedulerBudget, LeafBatchDrainPolicy, for_memory_budget, estimated_leaf_bytes,
}
use forge_ann.Scheduler.Budget.Bounds.{IsWithin, for_memory_budget-IsWithin}
use forge_ann.Scheduler.Threads.{
  System, Phase, started, next_step, takes, advances, Works, done, more, run, emits, works, Reach,
  here, next, pushing, crediting_work, crediting_mem, noting_peak, debiting_work, debiting_mem,
  starting, running, leaving,
}
use forge_ann.Scheduler.Threads.Tally.{sum, task, uncredited, undebited}
use forge_ann.Scheduler.Threads.Done.{
  IsIdle, outstanding-Done, Reach-Stops, queued_work_ms-credit, Reach-Works,
}
use forge_ann.Scheduler.Threads.Credit.{work_of}
use forge_ann.Scheduler.Threads.Ending.{steps_left}

abbrev budget : SchedulerBudget
budget = record {
  worker_count = 3;
  leaf_backlog_capacity = 2;
  producer_leaf_backlog_soft_limit = 0;
  large_leaf_min_size = 4096;
  leaf_block_rows = 1024;
}

abbrev graph : WorkGraph
graph = record { enable = true; quantum_ms = 5; min_tile_rows = 2; target_queue_ms = 10 }

abbrev policy : LeafBatchDrainPolicy
policy = record {
  enabled = true;
  max_leaves = 2;
  max_points = 10;
  min_backlog = 1;
  max_active_hydrations = 0;
  post_producer_scale = 1;
  post_producer_max_leaves = 2;
  post_producer_max_points = 10;
}

abbrev scheduler : ForgeannScheduler
scheduler = new budget graph policy

abbrev leaf_of : List ℕ → ℕ → QueuedLeaf
leaf_of ids work = record {
  leaf = ids;
  dataset = none;
  estimated_work_ms = work;
  estimated_mem_bytes = 4 * length ids + work;
}

abbrev first : QueuedLeaf
first = leaf_of (7 ∷ 8 ∷ 9 ∷ []) 10

-- The next step of a thread that is alone.
abbrev after : Phase → System → System
after p x = next_step x [] p []

abbrev emitted : System
emitted = record (started scheduler) { shared = add_task scheduler; threads = pushing first ∷ [] }

-- The leaf is in the queue, and its work is not credited yet.
abbrev queued : System
queued = after (pushing first) emitted

abbrev credited : System
credited = after noting_peak (after (crediting_mem first) (after (crediting_work first) queued))

abbrev popped : ForgeannScheduler
popped = record credited.shared { leaf_backlog = [] }

abbrev taken : System
taken = record credited { shared = popped; threads = debiting_work run first ∷ [] }

abbrev all_finished : System
all_finished = after (leaving first) (
    after (running first) (
      after (starting first)
        (after (debiting_mem run first) (after (debiting_work run first) taken))))

queues : Reach (started scheduler) queued
unfolding next_step new add_task remove_task push_leaf add_queued_work add_queued_mem
    update_peak_backlog remove_queued_work remove_queued_mem start_leaf_execution remove_inflight
    pop_leaf
queues = next (next here (emits first)) (works (advances [] (pushing first) [] refl))

credits : Works queued 3 credited
unfolding next_step new add_task remove_task push_leaf add_queued_work add_queued_mem
    update_peak_backlog remove_queued_work remove_queued_mem start_leaf_execution remove_inflight
    pop_leaf
credits =
    more
      (more (more done (advances [] (crediting_work first) [] refl))
        (advances [] (crediting_mem first) [] refl))
      (advances [] noting_peak [] refl)

runs : Works credited 6 all_finished
unfolding next_step new add_task remove_task push_leaf add_queued_work add_queued_mem
    update_peak_backlog remove_queued_work remove_queued_mem start_leaf_execution remove_inflight
    pop_leaf
runs =
    more
      (more
        (more
          (more
            (more (more done (takes run first popped refl))
              (advances [] (debiting_work run first) [] refl))
            (advances [] (debiting_mem run first) [] refl))
          (advances [] (starting first) [] refl))
        (advances [] (running first) [] refl))
      (advances [] (leaving first) [] refl)

outstanding-Done_example :
    (all_finished.shared.leaf_backlog ≡ [])
    × ((f : QueuedLeaf → ℕ)
        → sum f all_finished.accepted ≡ sum f all_finished.processed + sum f all_finished.discarded)
unfolding next_step new add_task remove_task push_leaf add_queued_work add_queued_mem
    update_peak_backlog remove_queued_work remove_queued_mem start_leaf_execution remove_inflight
    pop_leaf sum task
outstanding-Done_example =
    outstanding-Done budget graph policy (Reach-Works (Reach-Works queues credits) runs)
      (omega arith) refl

Reach-Stops_example :
    (n : ℕ) × (y : System) × Works queued n y
    × IsIdle y
    × (n ≤ steps_left queued)
    × (y.shared.outstanding_leaf_tasks ≡ 0)
    × ((f : QueuedLeaf → ℕ) → sum f y.accepted ≡ sum f y.processed + sum f y.discarded)
Reach-Stops_example = Reach-Stops budget graph policy queues

queued_work_ms-credit_example :
    IsCongruent
      (queued.shared.queued_work_ms + sum uncredited queued.threads)
      (sum work_of queued.shared.leaf_backlog + sum undebited queued.threads)
queued_work_ms-credit_example = queued_work_ms-credit budget graph policy queues refl

-- Before the push is credited, another thread may debit it: the counter is then near 2 ^ 64.
early_debit :
    (next_step
      (record queued {
        shared = record queued.shared { leaf_backlog = [] };
        threads = debiting_work run first ∷ queued.threads;
      })
      []
      (debiting_work run first)
      queued.threads).shared.queued_work_ms
    ≡ 2 ^ 64 - 10
unfolding next_step new add_task remove_task push_leaf add_queued_work add_queued_mem
    update_peak_backlog remove_queued_work remove_queued_mem start_leaf_execution remove_inflight
    pop_leaf
early_debit = refl

for_memory_budget-IsWithin_example :
    IsWithin (estimated_leaf_bytes 100) 1000000 (for_memory_budget 4 100 1000000)
for_memory_budget-IsWithin_example = for_memory_budget-IsWithin 4 100 1000000 (omega arith)
