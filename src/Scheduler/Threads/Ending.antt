-- ===== src/Scheduler/Threads/Ending.antt =====
-- How long the threads can go on without a new leaf, and what is left when they stop.
use forge_ann.Prelude.{
  ℕ, ◌+◌, ◌*◌, ◌<◌, ◌≤◌, ◌≡◌, refl, ap, ◌∙◌, Option-cases, inl, inr, List, [], ◌∷◌, ◌++◌, length,
  arith,
}
use forge_ann.Scheduler.{
  QueuedLeaf, ForgeannScheduler, push_leaf, add_queued_work, add_queued_mem, remove_queued_work,
  remove_queued_mem, remove_task, update_peak_backlog, start_leaf_execution, remove_inflight,
}
use forge_ann.Scheduler.Ends.{pop_leaf-some}
use forge_ann.Scheduler.Threads.{
  System, Phase, next_step, Work, takes, advances, Works, done, more, run, discard, pushing,
  crediting_work, crediting_mem, noting_peak, giving_back, debiting_work, debiting_mem, starting,
  dropping, running, leaving,
}
use forge_ann.Scheduler.Threads.Tally.{sum, sum-at}
use forge_ann.Scheduler.Threads.Counts.{
  push_leaf-lengths, SameTasks, add_queued_work-SameTasks, add_queued_mem-SameTasks,
  remove_queued_work-SameTasks, remove_queued_mem-SameTasks,
}

-- The steps that a thread has before it, those of the leaf it may push included.
unfoldable pub weight : Phase → ℕ
weight (pushing q) = 10
weight (crediting_work q) = 3
weight (crediting_mem q) = 2
weight noting_peak = 1
weight (giving_back q) = 1
weight (debiting_work fate q) = 5
weight (debiting_mem fate q) = 4
weight (starting q) = 3
weight (running q) = 2
weight (leaving q) = 1
weight (dropping q) = 1

unfoldable pub steps_left : System → ℕ
steps_left x = 6 * length x.shared.leaf_backlog + sum weight x.threads

module _ (x : System) (before : List Phase) (p : Phase) (after : List Phase)
    (e : x.threads ≡ before ++ (p ∷ after)) where
  -- A step leaves fewer steps if it does so without the other threads.
  become-fewer :
      (s : ForgeannScheduler) (ps : List Phase)
      → 6 * length s.leaf_backlog + sum weight ps < 6 * length x.shared.leaf_backlog + weight p
      → 6 * length s.leaf_backlog + sum weight (before ++ (ps ++ after)) < steps_left x
  unfolding sum steps_left
  become-fewer s ps h =
      let old = ap (sum weight) e ∙ sum-at weight before (p ∷ []) after in
      let new = sum-at weight before ps after in omega arith

  moved-fewer :
      (s : ForgeannScheduler) (ps : List Phase)
      → SameTasks x.shared s
      → sum weight ps < weight p
      → 6 * length s.leaf_backlog + sum weight (before ++ (ps ++ after)) < steps_left x
  moved-fewer s ps same h =
      let backlog = ap (length {A = QueuedLeaf}) same.2 in become-fewer s ps (omega arith)

next_step-fewer :
    (x : System) (before : List Phase) (p : Phase) (after : List Phase)
    → x.threads ≡ before ++ (p ∷ after)
    → steps_left (next_step x before p after) < steps_left x
unfolding next_step sum weight steps_left update_peak_backlog remove_task start_leaf_execution
    remove_inflight
next_step-fewer x before (pushing q) after e = elim (Option-cases (push_leaf x.shared q)) [
  | inl full ↦
      rw (full, next_step)
        (moved-fewer x before _ after e x.shared (giving_back q ∷ []) (refl, refl, refl)
          (omega arith))
  | inr (s', pushed) ↦
      let lengths = push_leaf-lengths x.shared q pushed in
      rw (pushed, next_step)
        (become-fewer x before _ after e s' (crediting_work q ∷ []) (omega arith))
]
next_step-fewer x before (crediting_work q) after e =
    moved-fewer x before _ after e (add_queued_work x.shared q) (crediting_mem q ∷ [])
      (add_queued_work-SameTasks x.shared q) (omega arith)
next_step-fewer x before (crediting_mem q) after e =
    moved-fewer x before _ after e (add_queued_mem x.shared q) (noting_peak ∷ [])
      (add_queued_mem-SameTasks x.shared q) (omega arith)
next_step-fewer x before noting_peak after e =
    become-fewer x before _ after e (update_peak_backlog x.shared) [] (omega arith)
next_step-fewer x before (giving_back q) after e =
    become-fewer x before _ after e (remove_task x.shared) [] (omega arith)
next_step-fewer x before (debiting_work fate q) after e =
    moved-fewer x before _ after e (remove_queued_work x.shared q) (debiting_mem fate q ∷ [])
      (remove_queued_work-SameTasks x.shared q) (omega arith)
next_step-fewer x before (debiting_mem run q) after e =
    moved-fewer x before _ after e (remove_queued_mem x.shared q) (starting q ∷ [])
      (remove_queued_mem-SameTasks x.shared q) (omega arith)
next_step-fewer x before (debiting_mem discard q) after e =
    moved-fewer x before _ after e (remove_queued_mem x.shared q) (dropping q ∷ [])
      (remove_queued_mem-SameTasks x.shared q) (omega arith)
next_step-fewer x before (starting q) after e =
    become-fewer x before _ after e (start_leaf_execution x.shared) (running q ∷ []) (omega arith)
next_step-fewer x before (dropping q) after e =
    become-fewer x before _ after e (remove_task x.shared) [] (omega arith)
next_step-fewer x before (running q) after e =
    become-fewer x before _ after e (remove_inflight x.shared) (leaving q ∷ []) (omega arith)
next_step-fewer x before (leaving q) after e =
    become-fewer x before _ after e (remove_task x.shared) [] (omega arith)

pub Work-fewer : {x y : System} → Work x y → steps_left y < steps_left x
unfolding sum weight steps_left
Work-fewer {x} (takes fate q s e) =
    let (rest, backlog, g) = pop_leaf-some x.shared e in
    let was = ap (length {A = QueuedLeaf}) backlog in
    let is = ap (λ (t : ForgeannScheduler). length t.leaf_backlog) g in omega arith
Work-fewer {x} (advances before p after e) = next_step-fewer x before p after e

-- Without a new leaf from the producer, the threads make at most `steps_left` steps, in whatever order.
pub Works-steps_left :
    {x : System} {n : ℕ} {y : System} → Works x n y → n + steps_left y ≤ steps_left x
Works-steps_left done = omega arith
Works-steps_left (more w step) = omega (arith, Works-steps_left w, Work-fewer step)
