-- ===== src/Scheduler/Emitter/Rounds.antt =====
-- The steps of a round of the emitter: the spawns and the push.
use forge_ann.Prelude.{
  ℕ, zero, suc, ◌≤◌, ◌<◌, ◌≡◌, refl, ◌∙◌, true, false, ltb, ◌==◌, some, inl, inr, Bool-cases,
  Option-cases, List, [], ◌∷◌, ◌++◌, length, arith,
}
use forge_ann.Prelude.Results.{Result, ok, err, ◌>>=◌}
use forge_ann.Scheduler.{
  QueuedLeaf, ForgeannScheduler, add_task, remove_task, push_leaf, add_queued_work, add_queued_mem,
  update_peak_backlog,
}
use forge_ann.Scheduler.Queue.{
  try_enqueue_queued_leaf, add_queued_leaf_credit, finish_leaf_executions,
  try_take_queued_leaf_batch, try_help_from_backlog, process_taken_leaf_batch,
  max_leaf_worker_capacity,
}
use forge_ann.Scheduler.Limits.{spawn_leaf_drainer, leaf_worker_limit_for_backlog}
use forge_ann.Scheduler.Emitter.{spawn_leaf_drainers, maybe_spawn_leaf_drainer}

-- The same queue, of the same capacity, and the same error.
abbrev pub SameQueue : ForgeannScheduler → ForgeannScheduler → Type 0
SameQueue s s' =
    (s'.leaf_backlog ≡ s.leaf_backlog)
    × (s'.backlog_capacity ≡ s.backlog_capacity)
    × (s'.first_error ≡ s.first_error)

SameQueue-trans : (s t u : ForgeannScheduler) → SameQueue s t → SameQueue t u → SameQueue s u
SameQueue-trans s t u a b = (b.0 ∙ a.0, b.1 ∙ a.1, b.2 ∙ a.2)

spawn_leaf_drainer-SameQueue :
    (s : ForgeannScheduler) (target : ℕ) {s' : ForgeannScheduler}
    → spawn_leaf_drainer s target ≡ some s'
    → SameQueue s s'
unfolding spawn_leaf_drainer
spawn_leaf_drainer-SameQueue s target e = ground arith

spawn_leaf_drainers-SameQueue :
    (fuel : ℕ) (s : ForgeannScheduler) → SameQueue s (spawn_leaf_drainers fuel s)
unfolding spawn_leaf_drainers
spawn_leaf_drainers-SameQueue zero s = (refl, refl, refl)
spawn_leaf_drainers-SameQueue (suc fuel) s =
    let target = leaf_worker_limit_for_backlog s (length s.leaf_backlog) in
    elim (Bool-cases (length s.leaf_backlog == 0)) [
      | inl empty ↦ rw empty (refl, refl, refl)
      | inr full ↦ elim (Option-cases (spawn_leaf_drainer s target)) [
        | inl stop ↦ rw (full, stop) (refl, refl, refl)
        | inr (s', spawned) ↦
            rw (full, spawned)
              (SameQueue-trans s s' (spawn_leaf_drainers fuel s')
                (spawn_leaf_drainer-SameQueue s target spawned)
                (spawn_leaf_drainers-SameQueue fuel s'))
      ]
    ]

pub maybe_spawn-SameQueue : (s : ForgeannScheduler) → SameQueue s (maybe_spawn_leaf_drainer s)
unfolding maybe_spawn_leaf_drainer
maybe_spawn-SameQueue s = spawn_leaf_drainers-SameQueue (suc (max_leaf_worker_capacity s)) s

credit-SameQueue :
    (s : ForgeannScheduler) (q : QueuedLeaf)
    → SameQueue s (update_peak_backlog (add_queued_leaf_credit s q))
unfolding add_queued_leaf_credit add_queued_work add_queued_mem update_peak_backlog
credit-SameQueue s q = ground arith

-- With room, the leaf is put behind the others.
pub enqueue_room :
    (s : ForgeannScheduler) (q : QueuedLeaf)
    → length s.leaf_backlog < s.backlog_capacity
    → (s' : ForgeannScheduler) × (try_enqueue_queued_leaf s q ≡ (s', ok tt))
      × (s'.leaf_backlog ≡ s.leaf_backlog ++ (q ∷ []))
unfolding try_enqueue_queued_leaf push_leaf add_task
enqueue_room s q h =
    let room : ltb (length s.leaf_backlog) s.backlog_capacity ≡ true = ground arith in
    let put = record (add_task s) { leaf_backlog = s.leaf_backlog ++ (q ∷ []) } in
    let kept = credit-SameQueue put q in
    (
      update_peak_backlog (add_queued_leaf_credit put q),
      rw (room, try_enqueue_queued_leaf) refl,
      kept.0,
    )

-- Without room, the queue stays.
pub enqueue_full :
    (s : ForgeannScheduler) (q : QueuedLeaf)
    → s.backlog_capacity ≤ length s.leaf_backlog
    → try_enqueue_queued_leaf s q ≡ (remove_task (add_task s), err q)
unfolding try_enqueue_queued_leaf push_leaf add_task
enqueue_full s q h =
    let full : ltb (length s.leaf_backlog) s.backlog_capacity ≡ false = ground arith in
    rw (full, try_enqueue_queued_leaf) refl

pub maybe_spawn-same :
    (s : ForgeannScheduler) → SameQueue s (maybe_spawn_leaf_drainer (remove_task (add_task s)))
unfolding remove_task add_task
maybe_spawn-same s = maybe_spawn-SameQueue (remove_task (add_task s))

pub help-of :
    {W : Type 0} (process : List QueuedLeaf → W → Result ℕ W) (s : ForgeannScheduler)
    (leaves : List QueuedLeaf) (s' : ForgeannScheduler) (w : W)
    → try_take_queued_leaf_batch s ≡ some (leaves, s')
    → try_help_from_backlog process s w
      ≡ (finish_leaf_executions (length leaves) s', process leaves w >>= λ v. ok (some v))
unfolding try_help_from_backlog process_taken_leaf_batch
help-of process s leaves s' w taken = rw (taken, try_help_from_backlog) refl
