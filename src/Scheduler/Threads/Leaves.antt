-- ===== src/Scheduler/Threads/Leaves.antt =====
-- Where the leaves are that have been pushed, whatever the interleaving.
use forge_ann.Prelude.{
  ℕ, ◌+◌, ◌≡◌, refl, ap, ◌∙◌, Option-cases, inl, inr, List, [], ◌∷◌, ◌++◌, arith,
}
use forge_ann.Scheduler.{
  QueuedLeaf, ForgeannScheduler, push_leaf, add_task, remove_task, update_peak_backlog,
  start_leaf_execution, remove_inflight,
}
use forge_ann.Scheduler.Ends.{push_leaf-some, pop_leaf-some}
use forge_ann.Scheduler.Threads.{
  System, Phase, become, next_step, started, Work, takes, advances, Step, emits, works, Reach, here,
  next, run, discard, pushing, crediting_work, crediting_mem, noting_peak, giving_back,
  debiting_work, debiting_mem, starting, dropping, running, leaving,
}
use forge_ann.Scheduler.Threads.Tally.{sum, sum-append, sum-at, held}
use forge_ann.Scheduler.Threads.Counts.{
  SameTasks, add_queued_work-SameTasks, add_queued_mem-SameTasks, remove_queued_work-SameTasks,
  remove_queued_mem-SameTasks,
}

-- Every leaf that was pushed is in the queue, with a thread, processed or dropped, as often as it was
-- pushed: `f` can tell any leaves apart.
unfoldable pub IsKept : (QueuedLeaf → ℕ) → System → Type 0
IsKept f x =
    sum f x.accepted
    ≡ sum f x.shared.leaf_backlog
      + (sum (held f) x.threads + (sum f x.processed + sum f x.discarded))

module _ (f : QueuedLeaf → ℕ) where
  module _ (x : System) (before : List Phase) (p : Phase) (after : List Phase)
      (e : x.threads ≡ before ++ (p ∷ after)) (k : IsKept f x) where
    -- A step keeps the leaves if what it adds is what it takes.
    become-IsKept :
        (s : ForgeannScheduler) (ps : List Phase) (acc proc disc : List QueuedLeaf)
        → sum f acc
            + (sum f x.shared.leaf_backlog + (held f p + (sum f x.processed + sum f x.discarded)))
          ≡ sum f x.accepted
            + (sum f s.leaf_backlog + (sum (held f) ps + (sum f proc + sum f disc)))
        → IsKept f (record {
          shared = s;
          threads = before ++ (ps ++ after);
          accepted = acc;
          processed = proc;
          discarded = disc;
        })
    unfolding sum IsKept
    become-IsKept s ps acc proc disc h =
        let old = ap (sum (held f)) e ∙ sum-at (held f) before (p ∷ []) after in
        let new = sum-at (held f) before ps after in omega arith

    moved-IsKept :
        (s : ForgeannScheduler) (ps : List Phase)
        → SameTasks x.shared s
        → sum (held f) ps ≡ held f p
        → IsKept f (become x before s ps after)
    moved-IsKept s ps same h =
        let backlog = ap (sum f) same.2 in
        become-IsKept s ps x.accepted x.processed x.discarded (omega arith)

  next_step-IsKept :
      (x : System) (before : List Phase) (p : Phase) (after : List Phase)
      → x.threads ≡ before ++ (p ∷ after)
      → IsKept f x
      → IsKept f (next_step x before p after)
  unfolding next_step sum held update_peak_backlog remove_task start_leaf_execution remove_inflight
  next_step-IsKept x before (pushing q) after e k = elim (Option-cases (push_leaf x.shared q)) [
    | inl full ↦
        rw (full, next_step)
          (moved-IsKept x before _ after e k x.shared (giving_back q ∷ []) (refl, refl, refl) refl)
    | inr (s', pushed) ↦
        let backlog =
          ap (λ (t : ForgeannScheduler). sum f t.leaf_backlog) (push_leaf-some x.shared q pushed)
          ∙ sum-append f x.shared.leaf_backlog (q ∷ []) in
        rw (pushed, next_step)
          (become-IsKept x before _ after e k s' (crediting_work q ∷ []) (q ∷ x.accepted)
            x.processed x.discarded (omega arith))
  ]
  next_step-IsKept x before (crediting_work q) after e k =
      moved-IsKept x before _ after e k _ (crediting_mem q ∷ [])
        (add_queued_work-SameTasks x.shared q) refl
  next_step-IsKept x before (crediting_mem q) after e k =
      moved-IsKept x before _ after e k _ (noting_peak ∷ []) (add_queued_mem-SameTasks x.shared q)
        refl
  next_step-IsKept x before noting_peak after e k =
      become-IsKept x before _ after e k (update_peak_backlog x.shared) [] x.accepted x.processed
        x.discarded refl
  next_step-IsKept x before (giving_back q) after e k =
      become-IsKept x before _ after e k (remove_task x.shared) [] x.accepted x.processed
        x.discarded refl
  next_step-IsKept x before (debiting_work fate q) after e k =
      moved-IsKept x before _ after e k _ (debiting_mem fate q ∷ [])
        (remove_queued_work-SameTasks x.shared q) (omega arith)
  next_step-IsKept x before (debiting_mem run q) after e k =
      moved-IsKept x before _ after e k _ (starting q ∷ []) (remove_queued_mem-SameTasks x.shared q)
        (omega arith)
  next_step-IsKept x before (debiting_mem discard q) after e k =
      moved-IsKept x before _ after e k _ (dropping q ∷ []) (remove_queued_mem-SameTasks x.shared q)
        (omega arith)
  next_step-IsKept x before (starting q) after e k =
      become-IsKept x before _ after e k (start_leaf_execution x.shared) (running q ∷ []) x.accepted
        x.processed x.discarded (omega arith)
  next_step-IsKept x before (dropping q) after e k =
      become-IsKept x before _ after e k (remove_task x.shared) [] x.accepted x.processed
        (q ∷ x.discarded) (omega arith)
  next_step-IsKept x before (running q) after e k =
      become-IsKept x before _ after e k (remove_inflight x.shared) (leaving q ∷ []) x.accepted
        (q ∷ x.processed) x.discarded (omega arith)
  next_step-IsKept x before (leaving q) after e k =
      become-IsKept x before _ after e k (remove_task x.shared) [] x.accepted x.processed
        x.discarded refl

  Work-IsKept : {x y : System} → Work x y → IsKept f x → IsKept f y
  unfolding sum held IsKept
  Work-IsKept {x} (takes fate q s e) k =
      let (rest, backlog, g) = pop_leaf-some x.shared e in
      let was = ap (sum f) backlog in
      let is = ap (λ (t : ForgeannScheduler). sum f t.leaf_backlog) g in omega arith
  Work-IsKept {x} (advances before p after e) k = next_step-IsKept x before p after e k

  Step-IsKept : {x y : System} → Step x y → IsKept f x → IsKept f y
  unfolding sum held add_task IsKept
  Step-IsKept (emits q) k = omega arith
  Step-IsKept (works w) k = Work-IsKept w k

  pub Reach-IsKept :
      {s : ForgeannScheduler} {y : System} → s.leaf_backlog ≡ [] → Reach (started s) y → IsKept f y
  unfolding IsKept sum
  Reach-IsKept e here = let none_yet = ap (sum f) e in omega arith
  Reach-IsKept e (next r st) = Step-IsKept st (Reach-IsKept e r)
