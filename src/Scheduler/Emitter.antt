-- ===== src/Scheduler/Emitter.antt =====
-- The emitter of leaves and the drainer of ForgeANN/src/forgeann/scheduler.rs: the loops that wait
-- by the functions of Scheduler.Queue and spawn by those of Scheduler.Limits. A loop that yields
-- has fuel, since another thread may be at work; a drainer that is spawned runs on a thread of its
-- own.
pub mod Rounds
pub mod Alone
use forge_ann.Prelude.{
  ℕ, zero, suc, ◌+◌, ◌-◌, Bool, true, false, not, ◌&&◌, ◌||◌, ◌==◌, ltb, leb, if◌then◌else◌, Option,
  none, some, List, [], ◌∷◌, length,
}
use forge_ann.Prelude.Results.{Result, ok, err, ◌>>=◌}
use forge_ann.Scheduler.{QueuedLeaf, ForgeannScheduler, make_queued_leaf, target_queued_work_ms}
use forge_ann.Scheduler.Queue.{
  max_leaf_worker_capacity, try_enqueue_queued_leaf, try_take_queued_leaf_batch,
  process_taken_leaf_batch, try_help_from_backlog, check_for_error, record_error,
}
use forge_ann.Scheduler.Limits.{
  leaf_worker_limit_for_backlog, spawn_leaf_drainer, retire_leaf_drainer, release_retiring,
  release_active,
}

-- Each round spawns a drainer below a limit of the workers, so that their number is enough fuel.
unfoldable pub spawn_leaf_drainers : ℕ → ForgeannScheduler → ForgeannScheduler
spawn_leaf_drainers zero s = s
spawn_leaf_drainers (suc fuel) s =
    if length s.leaf_backlog == 0
    then s
    else elim (spawn_leaf_drainer s (leaf_worker_limit_for_backlog s (length s.leaf_backlog))) [
      | none ↦ s
      | some s' ↦ spawn_leaf_drainers fuel s'
    ]

unfoldable pub maybe_spawn_leaf_drainer : ForgeannScheduler → ForgeannScheduler
maybe_spawn_leaf_drainer s = spawn_leaf_drainers (suc (max_leaf_worker_capacity s)) s

-- `finish_leaf_drainer`
pub finish_leaf_drainer : ForgeannScheduler → Bool → ForgeannScheduler
finish_leaf_drainer s retiring =
    maybe_spawn_leaf_drainer (release_active (if retiring then release_retiring s else s))

module _ {W : Type 0} (process : List QueuedLeaf → W → Result ℕ W) where
  -- The result of a loop: the state, and `none` if the thread still waits when the fuel is used up.
  abbrev pub Waiting : Type 0 → Type 0
  Waiting A = Option (ForgeannScheduler × Result ℕ A)

  -- `wait_for_leaf_backlog_below`, with whether it has waited.
  pub wait_for_leaf_backlog_below : ℕ → ℕ → Bool → ForgeannScheduler → W → Waiting (Bool × W)
  wait_for_leaf_backlog_below zero target waited s w = none
  wait_for_leaf_backlog_below (suc fuel) target waited s w =
      let spawned = maybe_spawn_leaf_drainer s in
      let helped = try_help_from_backlog process spawned w in
      if leb (length s.leaf_backlog) target
      then some (s, check_for_error s >>= λ _. ok (waited, w))
      else elim (check_for_error s) [
        | err e ↦ some (s, err e)
        | ok _ ↦ elim helped.1 [
          | err e ↦ some (helped.0, err e)
          | ok none ↦ wait_for_leaf_backlog_below fuel target true helped.0 w
          | ok (some w') ↦ wait_for_leaf_backlog_below fuel target true helped.0 w'
        ]
      ]

  -- The loop of `maybe_wait_for_work_graph_credit`.
  pub wait_for_credit : ℕ → ℕ → ForgeannScheduler → W → Waiting W
  wait_for_credit zero target s w = none
  wait_for_credit (suc fuel) target s w =
      let spawned = maybe_spawn_leaf_drainer s in
      let helped = try_help_from_backlog process spawned w in
      if ltb s.queued_work_ms target || s.outstanding_leaf_tasks == 0
      then some (s, check_for_error s >>= λ _. ok w)
      else elim (check_for_error s) [
        | err e ↦ some (s, err e)
        | ok _ ↦ elim helped.1 [
          | err e ↦ some (helped.0, err e)
          | ok none ↦ wait_for_credit fuel target helped.0 w
          | ok (some w') ↦ wait_for_credit fuel target helped.0 w'
        ]
      ]

  pub maybe_wait_for_work_graph_credit : ℕ → ForgeannScheduler → W → Waiting W
  unfolding wait_for_credit
  maybe_wait_for_work_graph_credit fuel s w =
      if s.work_graph.enable
      then wait_for_credit fuel (target_queued_work_ms s) s w
      else some (s, ok w)

  pub maybe_wait_for_producer_leaf_backlog_soft_limit : ℕ → ForgeannScheduler → W → Waiting W
  unfolding wait_for_leaf_backlog_below
  maybe_wait_for_producer_leaf_backlog_soft_limit fuel s w =
      if s.producer_leaf_backlog_soft_limit == 0
      then some (s, ok w)
      else elim (wait_for_leaf_backlog_below fuel s.producer_leaf_backlog_soft_limit false s w) [
        | none ↦ none
        | some (s', r) ↦ some (s', r >>= λ p. ok (p.1))
      ]

  -- What follows an enqueued leaf.
  unfoldable pub after_enqueue : ℕ → Bool → ForgeannScheduler → W → Waiting W
  unfolding maybe_wait_for_producer_leaf_backlog_soft_limit maybe_wait_for_work_graph_credit
  after_enqueue fuel wait s w =
      let limited = maybe_wait_for_producer_leaf_backlog_soft_limit fuel s w in
      if wait
      then elim limited [
        | none ↦ none
        | some (s', r) ↦ elim r [
          | err e ↦ some (s', err e)
          | ok w' ↦ maybe_wait_for_work_graph_credit fuel s' w'
        ]
      ]
      else some (s, ok w)

  -- The loop of `emit_leaf_with_optional_dataset_wait`.
  unfoldable pub enqueue_or_help : ℕ → Bool → ForgeannScheduler → QueuedLeaf → W → Waiting W
  unfolding after_enqueue
  enqueue_or_help zero wait s q w = none
  enqueue_or_help (suc fuel) wait s q w =
      let tried = try_enqueue_queued_leaf s q in
      let spawned = maybe_spawn_leaf_drainer tried.0 in
      let helped = try_help_from_backlog process spawned w in
      elim tried.1 [
        | ok _ ↦ after_enqueue fuel wait spawned w
        | err q' ↦ elim helped.1 [
          | err e ↦ some (helped.0, err e)
          | ok none ↦ enqueue_or_help fuel wait helped.0 q' w
          | ok (some w') ↦ enqueue_or_help fuel wait helped.0 q' w'
        ]
      ]

  unfoldable pub emit_leaf_with_optional_dataset_wait :
      ℕ → ForgeannScheduler → List ℕ → Option ℕ → Bool → W → Waiting W
  unfolding enqueue_or_help
  emit_leaf_with_optional_dataset_wait fuel s leaf dataset wait w = elim (check_for_error s) [
    | err e ↦ some (s, err e)
    | ok _ ↦ enqueue_or_help fuel wait s (make_queued_leaf s.work_graph leaf dataset) w
  ]

  -- `run_leaf_drainer`: a round, and the end of the loop with whether the drainer retires.
  pub run_leaf_drainer : ℕ → ForgeannScheduler → W → Option (ForgeannScheduler × W)
  unfolding finish_leaf_drainer
  run_leaf_drainer zero s w = none
  run_leaf_drainer (suc fuel) s w =
      let backlog = length s.leaf_backlog in
      let stop = some (finish_leaf_drainer s false, w) in
      elim (check_for_error s) [
        | err e ↦ stop
        | ok _ ↦
            elim (if backlog == 0
              then none
              else retire_leaf_drainer s (leaf_worker_limit_for_backlog s backlog)) [
                | some s' ↦ some (finish_leaf_drainer s' true, w)
                | none ↦ elim (try_take_queued_leaf_batch s) [
                  | none ↦ stop
                  | some (leaves, s') ↦
                      let done = process_taken_leaf_batch process s' leaves w in
                      elim done.1 [
                        | err e ↦ some (finish_leaf_drainer (record_error done.0 e) false, w)
                        | ok w' ↦ run_leaf_drainer fuel done.0 w'
                      ]
                ]
              ]
      ]
