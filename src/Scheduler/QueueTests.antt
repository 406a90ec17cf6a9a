-- ===== src/Scheduler/QueueTests.antt =====
-- Runs of one thread on the queue, of the guards and of the drainers at small inputs.
use forge_ann.Prelude.{ℕ, ◌+◌, ◌*◌, refl, true, none, List, [], ◌∷◌, ◌++◌, length, arith}
use forge_ann.Prelude.Results.{Result, ok}
use forge_ann.Prelude.{Option, some, false}
use forge_ann.Scheduler.{make_queued_leaf, QueuedLeaf, WorkGraph, ForgeannScheduler, new}
use forge_ann.Scheduler.Budget.{SchedulerBudget, LeafBatchDrainPolicy}
use forge_ann.Scheduler.Queue.{wait_until_idle, max_leaf_worker_capacity}
use forge_ann.Scheduler.Queue.Batch.{BatchOf, try_take_queued_leaf_batch-BatchOf}
use forge_ann.Scheduler.Queue.Alone.{IsAlone, IsDone, wait_until_idle-IsDone}
use forge_ann.Scheduler.Queue.Group.{
  InGroups, process_queued_leaf_batch, process_queued_leaf_batch-InGroups,
}
use forge_ann.Scheduler.Emitter.{emit_leaf_with_optional_dataset_wait}
use forge_ann.Scheduler.Emitter.Alone.{IsEmitted, emit_leaf-IsEmitted}
use forge_ann.Scheduler.Limits.{
  limit_entry, finish_leaf_drainer_limit, spawn_leaf_drainer, leaf_worker_limit_for_backlog,
}
use forge_ann.Scheduler.Limits.Guards.{IsRest, finish_leaf_drainer_limit-IsRest}
use forge_ann.Scheduler.Limits.Bounds.{Pool, Turns, here, next, spawns, IsStaffed, Turns-IsStaffed}

abbrev budget : SchedulerBudget
budget = record {
  worker_count = 3;
  leaf_backlog_capacity = 2;
  producer_leaf_backlog_soft_limit = 0;
  large_leaf_min_size = 4096;
  leaf_block_rows = 1024;
}

abbrev graph : WorkGraph
graph = record { enable = true; quantum_ms = 5; min_tile_rows = 2; target_queue_ms = 10 }

abbrev policy : LeafBatchDrainPolicy
policy = record {
  enabled = true;
  max_leaves = 2;
  max_points = 10;
  min_backlog = 1;
  max_active_hydrations = 0;
  post_producer_scale = 1;
  post_producer_max_leaves = 2;
  post_producer_max_points = 10;
}

abbrev scheduler : ForgeannScheduler
scheduler = new budget graph policy

abbrev leaf_of : List ℕ → ℕ → QueuedLeaf
leaf_of ids work = record {
  leaf = ids;
  dataset = none;
  estimated_work_ms = work;
  estimated_mem_bytes = 4 * length ids + work;
}

abbrev first : QueuedLeaf
first = leaf_of (7 ∷ 8 ∷ 9 ∷ []) 10

abbrev second : QueuedLeaf
second = leaf_of (4 ∷ []) 5

abbrev waiting : ForgeannScheduler
waiting = record scheduler { leaf_backlog = first ∷ (second ∷ []); outstanding_leaf_tasks = 2 }

abbrev collect : List QueuedLeaf → List QueuedLeaf → Result ℕ (List QueuedLeaf)
collect leaves seen = ok (seen ++ leaves)

waiting-IsAlone : IsAlone waiting
unfolding new
waiting-IsAlone = record { tasks = refl; fits = omega arith; few = omega arith; no_error = refl }

wait_until_idle-IsDone_example : IsDone collect waiting [] (wait_until_idle collect 3 waiting [])
wait_until_idle-IsDone_example =
    wait_until_idle-IsDone collect 3 waiting [] (omega arith) waiting-IsAlone

try_take_queued_leaf_batch-BatchOf_example : BatchOf waiting
try_take_queued_leaf_batch-BatchOf_example =
    try_take_queued_leaf_batch-BatchOf waiting first (second ∷ []) refl

abbrev guarded : ForgeannScheduler
guarded = record scheduler {
  drainers = record scheduler.drainers {
    leaf_drainer_limits =
        record { limit = 1; backpressure_limit = 2 }
        ∷ (record { limit = 2; backpressure_limit = 2 } ∷ []);
    leaf_drainer_limit = 1;
    leaf_drainer_backpressure_limit = 2;
  };
}

finish_leaf_drainer_limit-IsRest_example :
    IsRest guarded (limit_entry guarded 1 4) (finish_leaf_drainer_limit guarded 1 4)
unfolding limit_entry max_leaf_worker_capacity new
finish_leaf_drainer_limit-IsRest_example =
    finish_leaf_drainer_limit-IsRest guarded 1 4 []
      (record { limit = 2; backpressure_limit = 2 } ∷ []) refl

abbrev staffed : ForgeannScheduler
staffed = record scheduler { drainers = record scheduler.drainers { active_leaf_drainers = 1 } }

abbrev before : Pool
before = record {
  shared = scheduler;
  drainers = record { working = 0; retiring = 0; released = 0 };
}

abbrev spawned : Pool
spawned = record { shared = staffed; drainers = record { working = 1; retiring = 0; released = 0 } }

one_spawn : Turns before spawned
unfolding new spawn_leaf_drainer leaf_worker_limit_for_backlog max_leaf_worker_capacity
one_spawn = next here (spawns scheduler staffed 4 refl refl)

none-IsStaffed : IsStaffed 3 before
unfolding new
none-IsStaffed = record {
  same_workers = refl;
  active = refl;
  retiring = refl;
  within = omega arith;
}

Turns-IsStaffed_example : IsStaffed 3 spawned
Turns-IsStaffed_example = Turns-IsStaffed (omega arith) one_spawn none-IsStaffed

emit_leaf-IsEmitted_example :
    IsEmitted collect waiting
      (make_queued_leaf graph (5 ∷ []) none)
      []
      (emit_leaf_with_optional_dataset_wait collect 2 waiting (5 ∷ []) none false [])
unfolding new
emit_leaf-IsEmitted_example =
    emit_leaf-IsEmitted collect waiting (5 ∷ []) none [] refl (omega arith) (omega arith)

abbrev of_three : List QueuedLeaf
of_three = record first { dataset = some 1 } ∷ (record second { dataset = some 1 } ∷ (second ∷ []))

abbrev collect_group : Option ℕ → List (List ℕ) → List ℕ → Result ℕ (List ℕ)
collect_group dataset leaves seen = ok (seen ++ (length leaves ∷ []))

process_queued_leaf_batch-InGroups_example :
    InGroups collect_group
      ((some 1, 7 ∷ 8 ∷ 9 ∷ []) ∷ ((some 1, 4 ∷ []) ∷ ((none, 4 ∷ []) ∷ [])))
      (process_queued_leaf_batch collect_group of_three)
process_queued_leaf_batch-InGroups_example =
    process_queued_leaf_batch-InGroups collect_group of_three
