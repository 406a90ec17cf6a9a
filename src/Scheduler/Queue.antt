-- ===== src/Scheduler/Queue.antt =====
-- The functions on the queue of ForgeANN/src/forgeann/scheduler.rs as one thread runs them:
-- sequences of the atomic steps of Scheduler. A loop that yields has fuel, since another thread may
-- be at work; `process` stands for the processing of a batch of leaves, with its effect on a state
-- `W`, or an error.
pub mod Take
pub mod Batch
pub mod Alone
pub mod Group
use forge_ann.Prelude.{
  ℕ, zero, suc, ◌+◌, ◌*◌, ◌-◌, Bool, true, false, not, ◌&&◌, ◌||◌, ◌==◌, ltb, leb, if◌then◌else◌,
  max, Option, none, some, List, [], ◌∷◌, ◌++◌, length,
}
use forge_ann.Prelude.Results.{Result, ok, err, ◌>>=◌}
use forge_ann.Prelude.Usize.{saturating_add, saturating_mul}
use forge_ann.Scheduler.{
  QueuedLeaf, ForgeannScheduler, add_task, remove_task, push_leaf, add_queued_work, add_queued_mem,
  update_peak_backlog, remove_queued_work, remove_queued_mem, start_leaf_execution, remove_inflight,
  pop_leaf,
}
use forge_ann.Scheduler.Budget.{LeafBatchDrainPolicy}

unfoldable pub add_queued_leaf_credit : ForgeannScheduler → QueuedLeaf → ForgeannScheduler
add_queued_leaf_credit s q = add_queued_mem (add_queued_work s q) q

unfoldable pub remove_queued_leaf_credit : ForgeannScheduler → QueuedLeaf → ForgeannScheduler
remove_queued_leaf_credit s q = remove_queued_mem (remove_queued_work s q) q

unfoldable pub try_enqueue_queued_leaf :
    ForgeannScheduler → QueuedLeaf → ForgeannScheduler × Result QueuedLeaf (Unit {0})
unfolding add_queued_leaf_credit
try_enqueue_queued_leaf s q = elim (push_leaf (add_task s) q) [
  | some s' ↦ (update_peak_backlog (add_queued_leaf_credit s' q), ok tt)
  | none ↦ (remove_task (add_task s), err q)
]

unfoldable pub finish_leaf_execution : ForgeannScheduler → ForgeannScheduler
finish_leaf_execution s = remove_task (remove_inflight s)

unfoldable pub finish_leaf_executions : ℕ → ForgeannScheduler → ForgeannScheduler
finish_leaf_executions zero s = s
finish_leaf_executions (suc count) s = finish_leaf_executions count (finish_leaf_execution s)

unfoldable pub try_take_queued_leaf : ForgeannScheduler → Option (QueuedLeaf × ForgeannScheduler)
try_take_queued_leaf s = elim (pop_leaf s) [
  | none ↦ none
  | some (q, s') ↦ some (q, start_leaf_execution (remove_queued_leaf_credit s' q))
]

unfoldable pub max_leaf_worker_capacity : ForgeannScheduler → ℕ
max_leaf_worker_capacity s = max (s.worker_count - 1) 1

-- The greatest number of leaves, and of points after which no leaf is added.
pub effective_leaf_batch_limits : ForgeannScheduler → ℕ → ℕ × ℕ
unfolding max_leaf_worker_capacity
effective_leaf_batch_limits s available_with_first =
    let policy = s.leaf_batch_drain_policy in
    let scale_threshold =
      max (saturating_mul policy.max_leaves (max_leaf_worker_capacity s)) policy.min_backlog in
    if s.producer_active || leb policy.post_producer_scale 1
    then (policy.max_leaves, policy.max_points)
    else if ltb available_with_first scale_threshold
    then (policy.max_leaves, policy.max_points)
    else (policy.post_producer_max_leaves, policy.post_producer_max_points)

-- The loop that adds leaves to a batch, while `room` more fit and the points are below the limit.
unfoldable pub take_more :
    ℕ → ℕ → ForgeannScheduler → ℕ → List QueuedLeaf → List QueuedLeaf × ForgeannScheduler
take_more zero max_points s points leaves = (leaves, s)
take_more (suc room) max_points s points leaves =
    if ltb points max_points
    then elim (try_take_queued_leaf s) [
      | none ↦ (leaves, s)
      | some (q, s') ↦
          take_more room max_points s' (saturating_add points (length q.leaf)) (leaves ++ (q ∷ []))
    ]
    else (leaves, s)

unfoldable pub try_take_queued_leaf_batch :
    ForgeannScheduler → Option (List QueuedLeaf × ForgeannScheduler)
try_take_queued_leaf_batch s = elim (try_take_queued_leaf s) [
  | none ↦ none
  | some (first, s') ↦
      let policy = s'.leaf_batch_drain_policy in
      let available_with_first = saturating_add (length s'.leaf_backlog) 1 in
      let limits = effective_leaf_batch_limits s' available_with_first in
      if not policy.enabled || ltb available_with_first policy.min_backlog
      then some (first ∷ [], s')
      else some (take_more (limits.0 - 1) (limits.1) s' (length first.leaf) (first ∷ []))
]

pub mark_producer_finished : ForgeannScheduler → ForgeannScheduler
mark_producer_finished s = record s { producer_active = false }

-- Each round pops a leaf, so the length of the queue is enough fuel.
unfoldable pub discard_leaves : ℕ → ForgeannScheduler → ForgeannScheduler
discard_leaves zero s = s
discard_leaves (suc fuel) s = elim (pop_leaf s) [
  | none ↦ s
  | some (q, s') ↦ discard_leaves fuel (remove_task (remove_queued_leaf_credit s' q))
]

pub discard_queued_leaf_backlog : ForgeannScheduler → ForgeannScheduler
discard_queued_leaf_backlog s = discard_leaves (length s.leaf_backlog) s

-- The first error is kept.
pub record_error : ForgeannScheduler → ℕ → ForgeannScheduler
record_error s e = elim s.first_error [ none ↦ record s { first_error = some e } | some first ↦ s ]

unfoldable pub check_for_error : ForgeannScheduler → Result ℕ (Unit {0})
check_for_error s = elim s.first_error [ none ↦ ok tt | some e ↦ err e ]

module _ {W : Type 0} (process : List QueuedLeaf → W → Result ℕ W) where
  -- `process_taken_leaf_batch`: the counters are restored whether the batch succeeds or fails.
  unfoldable pub process_taken_leaf_batch :
      ForgeannScheduler → List QueuedLeaf → W → ForgeannScheduler × Result ℕ W
  process_taken_leaf_batch s leaves w = (finish_leaf_executions (length leaves) s, process leaves w)

  -- `ok none` is an empty queue.
  unfoldable pub try_help_from_backlog :
      ForgeannScheduler → W → ForgeannScheduler × Result ℕ (Option W)
  try_help_from_backlog s w = elim (try_take_queued_leaf_batch s) [
    | none ↦ (s, ok none)
    | some (leaves, s') ↦
        let (s2, r) = process_taken_leaf_batch s' leaves w in (s2, r >>= λ w'. ok (some w'))
  ]

  -- The outer `none` is a thread that still waits when the fuel is used up.
  unfoldable pub wait_until_idle :
      ℕ → ForgeannScheduler → W → Option (ForgeannScheduler × Result ℕ W)
  wait_until_idle zero s w = none
  wait_until_idle (suc fuel) s w =
      if s.outstanding_leaf_tasks == 0
      then some (s, check_for_error s >>= λ _. ok w)
      else elim (check_for_error s) [
        | err e ↦ some (s, err e)
        | ok _ ↦
            let helped = try_help_from_backlog s w in
            elim helped.1 [
              | err e ↦ some (helped.0, err e)
              | ok none ↦ wait_until_idle fuel helped.0 w
              | ok (some w') ↦ wait_until_idle fuel helped.0 w'
            ]
      ]
