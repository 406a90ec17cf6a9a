-- ===== src/Scheduler/Threads/Done.antt =====
-- The end that the threads come to when no new leaf is emitted, and what the counter of tasks says.
use forge_ann.Prelude.{
  ℕ, zero, suc, ◌+◌, ◌^◌, ◌<◌, ◌≤◌, ◌≡◌, refl, true, ap, ◌⊎◌, inl, inr, List, [], ◌∷◌, length,
  arith,
}
use forge_ann.Scheduler.{QueuedLeaf, WorkGraph, new}
use forge_ann.Scheduler.Budget.{SchedulerBudget, LeafBatchDrainPolicy}
use forge_ann.Scheduler.Ends.{pop_leaf-at}
use forge_ann.Scheduler.Threads.{
  System, Phase, started, Work, takes, advances, Works, done, more, run, pushing, crediting_work,
  crediting_mem, noting_peak, giving_back, debiting_work, debiting_mem, starting, dropping, running,
  leaving, Reach, next, works,
}
use forge_ann.Scheduler.Threads.Tally.{sum, held, task, uncredited, undebited}
use forge_ann.Scheduler.Threads.Counts.{IsCounted, Reach-IsCounted}
use forge_ann.Prelude.Usize.{IsCongruent}
use forge_ann.Scheduler.Threads.Credit.{work_of, Reach-IsCredited}
use forge_ann.Scheduler.Threads.Leaves.{IsKept, Reach-IsKept}
use forge_ann.Scheduler.Threads.Ending.{steps_left, Work-fewer, Works-steps_left}

Works-after : {x y : System} → Work x y → {n : ℕ} {z : System} → Works y n z → Works x (suc n) z
Works-after w done = more done w
Works-after w (more ws v) = more (Works-after w ws) v

pub Reach-Works : {x y : System} → Reach x y → {n : ℕ} {z : System} → Works y n z → Reach x z
Reach-Works r done = r
Reach-Works r (more ws w) = next (Reach-Works r ws) (works w)

-- No thread is at work and the queue is empty.
abbrev pub IsIdle : System → Type 0
IsIdle x = (x.threads ≡ []) × (x.shared.leaf_backlog ≡ [])

-- The threads can stop: at most `steps_left` steps lead to an idle system.
abbrev Stops : System → Type 0
Stops x = (n : ℕ) × (y : System) × Works x n y × IsIdle y

progress-of :
    (x : System) (threads : List Phase) (backlog : List QueuedLeaf)
    → x.threads ≡ threads
    → x.shared.leaf_backlog ≡ backlog
    → IsIdle x ⊎ ((y : System) × Work x y)
progress-of x (p ∷ after) backlog e f = inr (_, advances [] p after e)
progress-of x [] [] e f = inl (e, f)
progress-of x [] (q ∷ rest) e f = inr (_, takes run q _ (pop_leaf-at x.shared q rest f))

-- A system is idle, or some thread can make a step.
progress : (x : System) → IsIdle x ⊎ ((y : System) × Work x y)
progress x = progress-of x x.threads x.shared.leaf_backlog refl refl

run_out : (fuel : ℕ) (x : System) → steps_left x ≤ fuel → Stops x
run_out zero x h = elim (progress x) [
  | inl idle ↦ (0, x, done, idle)
  | inr (y, w) ↦ absurd (omega (arith, Work-fewer w))
]
run_out (suc fuel) x h = elim (progress x) [
  | inl idle ↦ (0, x, done, idle)
  | inr (y, w) ↦
      let (n, z, ws, idle) = run_out fuel y (omega (arith, Work-fewer w)) in
      (suc n, z, Works-after w ws, idle)
]

held-none : (f : QueuedLeaf → ℕ) (ps : List Phase) → sum task ps ≡ 0 → sum (held f) ps ≡ 0
unfolding sum held task
held-none f [] e = refl
held-none f (pushing q ∷ ps) e = omega arith
held-none f (crediting_work q ∷ ps) e = omega (arith, held-none f ps (omega arith))
held-none f (crediting_mem q ∷ ps) e = omega (arith, held-none f ps (omega arith))
held-none f (noting_peak ∷ ps) e = omega (arith, held-none f ps (omega arith))
held-none f (giving_back q ∷ ps) e = omega arith
held-none f (debiting_work fate q ∷ ps) e = omega arith
held-none f (debiting_mem fate q ∷ ps) e = omega arith
held-none f (starting q ∷ ps) e = omega arith
held-none f (dropping q ∷ ps) e = omega arith
held-none f (running q ∷ ps) e = omega arith
held-none f (leaving q ∷ ps) e = omega arith

no_leaves : {A : Type 0} (xs : List A) → length xs ≡ 0 → xs ≡ []
no_leaves [] e = refl
no_leaves (x ∷ xs) e = absurd (omega arith)

module _ (budget : SchedulerBudget) (g : WorkGraph) (policy : LeafBatchDrainPolicy) where
  new-IsCounted : IsCounted (new budget g policy) []
  unfolding new sum
  new-IsCounted = record { tasks = refl; runs = refl; fits = omega arith }

  new_backlog : (new budget g policy).leaf_backlog ≡ []
  unfolding new
  new_backlog = refl

  -- Whatever threads do in whatever order, from a new scheduler: if `outstanding_leaf_tasks` is 0,
  -- and the leaves and threads are fewer than 2 ^ 64, then the queue is empty, and the leaves that
  -- were pushed are those processed and those dropped, each as often as it was pushed.
  pub outstanding-Done :
      {x : System}
      → Reach (started (new budget g policy)) x
      → length x.shared.leaf_backlog + sum task x.threads < 2 ^ 64
      → x.shared.outstanding_leaf_tasks ≡ 0
      → (x.shared.leaf_backlog ≡ [])
        × ((f : QueuedLeaf → ℕ) → sum f x.accepted ≡ sum f x.processed + sum f x.discarded)
  unfolding IsKept sum
  outstanding-Done {x} r few e =
      let c = (Reach-IsCounted new-IsCounted r).tasks in
      let empty = no_leaves x.shared.leaf_backlog (omega arith) in
      (
        empty,
        λ f.
            let kept = Reach-IsKept f new_backlog r in
            let queued = ap (sum f) empty in
            let none_held = held-none f x.threads (omega arith) in omega arith,
      )

  -- From any system that a new scheduler comes to, at most `steps_left` steps of the threads,
  -- without a new leaf, lead to an idle one: `outstanding_leaf_tasks` is 0, and each leaf that was
  -- pushed has been processed or dropped as often as it was pushed.
  pub Reach-Stops :
      {x : System}
      → Reach (started (new budget g policy)) x
      → (n : ℕ) × (y : System) × Works x n y
        × IsIdle y
        × (n ≤ steps_left x)
        × (y.shared.outstanding_leaf_tasks ≡ 0)
        × ((f : QueuedLeaf → ℕ) → sum f y.accepted ≡ sum f y.processed + sum f y.discarded)
  unfolding IsKept sum
  Reach-Stops {x} r =
      let (n, y, ws, idle) = run_out (steps_left x) x (omega arith) in
      let r' = Reach-Works r ws in
      let counted = Reach-IsCounted new-IsCounted r' in
      let c = counted.tasks in
      let b = counted.fits in
      let idle_threads = ap (sum task) idle.0 in
      let idle_queue = ap (length {A = QueuedLeaf}) idle.1 in
      (
        n,
        y,
        ws,
        idle,
        omega (arith, Works-steps_left ws),
        omega arith,
        λ f.
            let kept = Reach-IsKept f new_backlog r' in
            let queued = ap (sum f) idle.1 in
            let with_threads = ap (sum (held f)) idle.0 in omega arith,
      )

  -- Whatever threads do in whatever order, from a new scheduler whose work graph is enabled:
  -- `queued_work_ms`, with the work that pushes have still to credit, is the work of the queue with
  -- the work that pops have still to debit, up to the 64 bits of the counter.
  pub queued_work_ms-credit :
      {x : System}
      → Reach (started (new budget g policy)) x
      → g.enable ≡ true
      → IsCongruent
          (x.shared.queued_work_ms + sum uncredited x.threads)
          (sum work_of x.shared.leaf_backlog + sum undebited x.threads)
  unfolding new sum
  queued_work_ms-credit r on = (Reach-IsCredited r (record { enabled = on; credit = refl })).credit
