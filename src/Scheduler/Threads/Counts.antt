-- ===== src/Scheduler/Threads/Counts.antt =====
-- The counters and the leaves along the interleavings.
use forge_ann.Prelude.{
  ℕ, ◌+◌, ◌^◌, ◌<◌, ◌≡◌, refl, ap, ◌∙◌, some, Option-cases, inl, inr, List, [], ◌∷◌, ◌++◌, length,
  length-append, arith,
}
use forge_ann.Prelude.Usize.{IsCongruent}
use forge_ann.Scheduler.{
  ForgeannScheduler, QueuedLeaf, add_task, remove_task, push_leaf, add_queued_work, add_queued_mem,
  update_peak_backlog, remove_queued_work, remove_queued_mem, start_leaf_execution, remove_inflight,
}
use forge_ann.Scheduler.Ends.{push_leaf-some, pop_leaf-some}
use forge_ann.Scheduler.Threads.{
  System, Phase, next_step, started, Work, takes, advances, Step, emits, works, Reach, here, next,
  run, discard, pushing, crediting_work, crediting_mem, noting_peak, giving_back, debiting_work,
  debiting_mem, starting, dropping, running, leaving,
}
use forge_ann.Scheduler.Threads.Tally.{sum, sum-at, task, busy}

pub record IsCounted (s : ForgeannScheduler) (threads : List Phase) : Type 0 where
  pub tasks : IsCongruent s.outstanding_leaf_tasks (length s.leaf_backlog + sum task threads)
  pub runs : IsCongruent s.inflight_leaf_tasks (sum busy threads)
  pub fits : s.outstanding_leaf_tasks < 2 ^ 64

pub push_leaf-lengths :
    (s : ForgeannScheduler) (q : QueuedLeaf) {s' : ForgeannScheduler}
    → push_leaf s q ≡ some s'
    → (s'.outstanding_leaf_tasks ≡ s.outstanding_leaf_tasks)
      × (s'.inflight_leaf_tasks ≡ s.inflight_leaf_tasks)
      × (length s'.leaf_backlog ≡ length s.leaf_backlog + 1)
push_leaf-lengths s q e =
    let f = push_leaf-some s q e in
    let backlog = ap (λ (t : ForgeannScheduler). length t.leaf_backlog) f in
    (
      ap (λ (t : ForgeannScheduler). t.outstanding_leaf_tasks) f,
      ap (λ (t : ForgeannScheduler). t.inflight_leaf_tasks) f,
      backlog ∙ length-append s.leaf_backlog (q ∷ []),
    )

-- What a credit or a debit leaves alone.
abbrev pub SameTasks : ForgeannScheduler → ForgeannScheduler → Type 0
SameTasks s s' =
    (s'.outstanding_leaf_tasks ≡ s.outstanding_leaf_tasks)
    × (s'.inflight_leaf_tasks ≡ s.inflight_leaf_tasks)
    × (s'.leaf_backlog ≡ s.leaf_backlog)

module _ (s : ForgeannScheduler) (q : QueuedLeaf) where
  pub add_queued_work-SameTasks : SameTasks s (add_queued_work s q)
  unfolding add_queued_work
  add_queued_work-SameTasks = ground arith

  pub add_queued_mem-SameTasks : SameTasks s (add_queued_mem s q)
  unfolding add_queued_mem
  add_queued_mem-SameTasks = ground arith

  pub remove_queued_work-SameTasks : SameTasks s (remove_queued_work s q)
  unfolding remove_queued_work
  remove_queued_work-SameTasks = ground arith

  pub remove_queued_mem-SameTasks : SameTasks s (remove_queued_mem s q)
  unfolding remove_queued_mem
  remove_queued_mem-SameTasks = ground arith

module _ (s : ForgeannScheduler) {threads : List Phase} (before : List Phase) (p : Phase)
    (after : List Phase) (e : threads ≡ before ++ (p ∷ after)) (c : IsCounted s threads) where
  -- A step keeps the counts if it does so with anything beside it.
  become-IsCounted :
      (s' : ForgeannScheduler) (ps : List Phase)
      → ((rest : ℕ)
          → IsCongruent s.outstanding_leaf_tasks (length s.leaf_backlog + (task p + rest))
          → IsCongruent s'.outstanding_leaf_tasks (length s'.leaf_backlog + (sum task ps + rest)))
      → ((rest : ℕ)
          → IsCongruent s.inflight_leaf_tasks (busy p + rest)
          → IsCongruent s'.inflight_leaf_tasks (sum busy ps + rest))
      → s'.outstanding_leaf_tasks < 2 ^ 64
      → IsCounted s' (before ++ (ps ++ after))
  unfolding sum
  become-IsCounted s' ps tasks runs fits =
      let old_tasks = ap (sum task) e ∙ sum-at task before (p ∷ []) after in
      let old_runs = ap (sum busy) e ∙ sum-at busy before (p ∷ []) after in
      let new_tasks = sum-at task before ps after in
      let new_runs = sum-at busy before ps after in
      let was_tasks = c.tasks in
      let was_runs = c.runs in
      record {
        tasks = rw new_tasks (tasks _ (omega arith));
        runs = rw new_runs (runs _ (omega arith));
        fits = fits;
      }

  -- A step that only moves a thread on.
  moved-IsCounted :
      (s' : ForgeannScheduler) (ps : List Phase)
      → SameTasks s s'
      → sum task ps ≡ task p
      → sum busy ps ≡ busy p
      → IsCounted s' (before ++ (ps ++ after))
  moved-IsCounted s' ps same tasks runs =
      become-IsCounted s' ps (λ rest h. rw (same.0, same.2, tasks) h)
        (λ rest h. rw (same.1, runs) h) (rw same.0 c.fits)

pub next_step-IsCounted :
    (x : System) (before : List Phase) (p : Phase) (after : List Phase)
    → x.threads ≡ before ++ (p ∷ after)
    → IsCounted x.shared x.threads
    → IsCounted (next_step x before p after).shared (next_step x before p after).threads
unfolding next_step sum task busy update_peak_backlog remove_task start_leaf_execution
    remove_inflight
next_step-IsCounted x before (pushing q) after e c = elim (Option-cases (push_leaf x.shared q)) [
  | inl full ↦
      rw (full, next_step)
        (moved-IsCounted x.shared before _ after e c x.shared (giving_back q ∷ [])
          (refl, refl, refl) refl refl)
  | inr (s', pushed) ↦
      let lengths = push_leaf-lengths x.shared q pushed in
      rw (pushed, next_step)
        (become-IsCounted x.shared before _ after e c s' (crediting_work q ∷ [])
          (λ rest h. omega arith) (λ rest h. omega arith) (rw lengths.0 c.fits))
]
next_step-IsCounted x before (crediting_work q) after e c =
    moved-IsCounted x.shared before _ after e c _ (crediting_mem q ∷ [])
      (add_queued_work-SameTasks x.shared q) refl refl
next_step-IsCounted x before (crediting_mem q) after e c =
    moved-IsCounted x.shared before _ after e c _ (noting_peak ∷ [])
      (add_queued_mem-SameTasks x.shared q) refl refl
next_step-IsCounted x before noting_peak after e c =
    moved-IsCounted x.shared before _ after e c (update_peak_backlog x.shared) [] (refl, refl, refl)
      refl refl
next_step-IsCounted x before (giving_back q) after e c =
    become-IsCounted x.shared before _ after e c (remove_task x.shared) [] (λ rest h. omega arith)
      (λ rest h. omega arith) (omega arith)
next_step-IsCounted x before (debiting_work fate q) after e c =
    moved-IsCounted x.shared before _ after e c _ (debiting_mem fate q ∷ [])
      (remove_queued_work-SameTasks x.shared q) refl refl
next_step-IsCounted x before (debiting_mem run q) after e c =
    moved-IsCounted x.shared before _ after e c _ (starting q ∷ [])
      (remove_queued_mem-SameTasks x.shared q) refl refl
next_step-IsCounted x before (debiting_mem discard q) after e c =
    moved-IsCounted x.shared before _ after e c _ (dropping q ∷ [])
      (remove_queued_mem-SameTasks x.shared q) refl refl
next_step-IsCounted x before (starting q) after e c =
    become-IsCounted x.shared before _ after e c (start_leaf_execution x.shared) (running q ∷ [])
      (λ rest h. h) (λ rest h. omega arith) c.fits
next_step-IsCounted x before (dropping q) after e c =
    become-IsCounted x.shared before _ after e c (remove_task x.shared) [] (λ rest h. omega arith)
      (λ rest h. omega arith) (omega arith)
next_step-IsCounted x before (running q) after e c =
    become-IsCounted x.shared before _ after e c (remove_inflight x.shared) (leaving q ∷ [])
      (λ rest h. h) (λ rest h. omega arith) c.fits
next_step-IsCounted x before (leaving q) after e c =
    become-IsCounted x.shared before _ after e c (remove_task x.shared) [] (λ rest h. omega arith)
      (λ rest h. omega arith) (omega arith)

Work-IsCounted :
    {x y : System} → Work x y → IsCounted x.shared x.threads → IsCounted y.shared y.threads
unfolding sum task busy
Work-IsCounted {x} (takes fate q s e) c =
    let (rest, backlog, f) = pop_leaf-some x.shared e in
    let before = ap length backlog in
    let after = ap (λ (t : ForgeannScheduler). length t.leaf_backlog) f in
    let outstanding = ap (λ (t : ForgeannScheduler). t.outstanding_leaf_tasks) f in
    let inflight = ap (λ (t : ForgeannScheduler). t.inflight_leaf_tasks) f in
    let was_tasks = c.tasks in
    let was_runs = c.runs in
    let was_fits = c.fits in record { tasks = omega arith; runs = omega arith; fits = omega arith }
Work-IsCounted {x} (advances before p after e) c = next_step-IsCounted x before p after e c

Step-IsCounted :
    {x y : System} → Step x y → IsCounted x.shared x.threads → IsCounted y.shared y.threads
unfolding sum task busy add_task
Step-IsCounted {x} (emits q) c =
    let was_tasks = c.tasks in
    let was_runs = c.runs in
    let was_fits = c.fits in record { tasks = omega arith; runs = omega arith; fits = omega arith }
Step-IsCounted (works w) c = Work-IsCounted w c

-- Whatever threads do in whatever order, from a scheduler without work, `outstanding_leaf_tasks`
-- counts the leaves of the queue with the threads that hold one or offer one, and
-- `inflight_leaf_tasks` counts the threads that run one; both up to the 64 bits of the counters.
pub Reach-IsCounted :
    {s : ForgeannScheduler} {y : System}
    → IsCounted s []
    → Reach (started s) y
    → IsCounted y.shared y.threads
Reach-IsCounted c here = c
Reach-IsCounted c (next r st) = Step-IsCounted st (Reach-IsCounted c r)
