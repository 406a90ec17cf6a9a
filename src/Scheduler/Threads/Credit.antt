-- ===== src/Scheduler/Threads/Credit.antt =====
-- The credit of queued work along the interleavings, when the work graph is enabled.
use forge_ann.Prelude.{
  ℕ, ◌+◌, ◌≡◌, refl, ap, ◌∙◌, true, Option-cases, inl, inr, List, [], ◌∷◌, ◌++◌, arith,
}
use forge_ann.Scheduler.{
  QueuedLeaf, ForgeannScheduler, push_leaf, add_queued_work, add_queued_mem, remove_queued_work,
  remove_queued_mem, add_task, remove_task, update_peak_backlog, start_leaf_execution,
  remove_inflight,
}
use forge_ann.Scheduler.Ends.{push_leaf-some, pop_leaf-some}
use forge_ann.Scheduler.Threads.{
  System, Phase, next_step, takes, advances, Step, emits, works, Reach, here, next, run, discard,
  pushing, crediting_work, crediting_mem, noting_peak, giving_back, debiting_work, debiting_mem,
  starting, dropping, running, leaving,
}
use forge_ann.Prelude.Usize.{IsCongruent, wrapping_add, wrapping_sub}
use forge_ann.Scheduler.Threads.Tally.{sum, sum-append, sum-at, uncredited, undebited}

abbrev pub work_of : QueuedLeaf → ℕ
work_of q = q.estimated_work_ms

-- `queued_work_ms`, with what is still to be credited, is the work of the queue with what is still
-- to be debited, up to the 64 bits of the counter.
pub record IsCredited (s : ForgeannScheduler) (threads : List Phase) : Type 0 where
  pub enabled : s.work_graph.enable ≡ true
  pub credit :
      IsCongruent
        (s.queued_work_ms + sum uncredited threads)
        (sum work_of s.leaf_backlog + sum undebited threads)

-- What a step that is not about work leaves alone.
abbrev SameWork : ForgeannScheduler → ForgeannScheduler → Type 0
SameWork s s' =
    (s'.work_graph.enable ≡ s.work_graph.enable)
    × (s'.queued_work_ms ≡ s.queued_work_ms)
    × (s'.leaf_backlog ≡ s.leaf_backlog)

module _ (s : ForgeannScheduler) (q : QueuedLeaf) where
  add_queued_mem-SameWork : SameWork s (add_queued_mem s q)
  unfolding add_queued_mem
  add_queued_mem-SameWork = ground arith

  remove_queued_mem-SameWork : SameWork s (remove_queued_mem s q)
  unfolding remove_queued_mem
  remove_queued_mem-SameWork = ground arith

module _ (s : ForgeannScheduler) (q : QueuedLeaf) (on : s.work_graph.enable ≡ true) where
  add_queued_work-credits :
      ((add_queued_work s q).work_graph.enable ≡ true)
      × ((add_queued_work s q).queued_work_ms ≡ wrapping_add s.queued_work_ms q.estimated_work_ms)
      × ((add_queued_work s q).leaf_backlog ≡ s.leaf_backlog)
  unfolding add_queued_work
  add_queued_work-credits = ground arith

  remove_queued_work-debits :
      ((remove_queued_work s q).work_graph.enable ≡ true)
      × ((remove_queued_work s q).queued_work_ms
          ≡ wrapping_sub s.queued_work_ms q.estimated_work_ms)
      × ((remove_queued_work s q).leaf_backlog ≡ s.leaf_backlog)
  unfolding remove_queued_work
  remove_queued_work-debits = ground arith

module _ (s : ForgeannScheduler) {threads : List Phase} (before : List Phase) (p : Phase)
    (after : List Phase) (e : threads ≡ before ++ (p ∷ after)) (c : IsCredited s threads) where
  become-IsCredited :
      (s' : ForgeannScheduler) (ps : List Phase)
      → s'.work_graph.enable ≡ true
      → ((more owed : ℕ)
          → IsCongruent
              (s.queued_work_ms + (uncredited p + more))
              (sum work_of s.leaf_backlog + (undebited p + owed))
          → IsCongruent
              (s'.queued_work_ms + (sum uncredited ps + more))
              (sum work_of s'.leaf_backlog + (sum undebited ps + owed)))
      → IsCredited s' (before ++ (ps ++ after))
  unfolding sum
  become-IsCredited s' ps on credit =
      let old_more = ap (sum uncredited) e ∙ sum-at uncredited before (p ∷ []) after in
      let old_owed = ap (sum undebited) e ∙ sum-at undebited before (p ∷ []) after in
      let new_more = sum-at uncredited before ps after in
      let new_owed = sum-at undebited before ps after in
      let was = c.credit in
      record { enabled = on; credit = rw (new_more, new_owed) (credit _ _ (omega arith)) }

  moved-IsCredited :
      (s' : ForgeannScheduler) (ps : List Phase)
      → SameWork s s'
      → sum uncredited ps ≡ uncredited p
      → sum undebited ps ≡ undebited p
      → IsCredited s' (before ++ (ps ++ after))
  moved-IsCredited s' ps same more owed =
      become-IsCredited s' ps (same.0 ∙ c.enabled) (λ m o h. rw (same.1, same.2, more, owed) h)

next_step-IsCredited :
    (x : System) (before : List Phase) (p : Phase) (after : List Phase)
    → x.threads ≡ before ++ (p ∷ after)
    → IsCredited x.shared x.threads
    → IsCredited (next_step x before p after).shared (next_step x before p after).threads
unfolding next_step sum uncredited undebited update_peak_backlog remove_task start_leaf_execution
    remove_inflight
next_step-IsCredited x before (pushing q) after e c = elim (Option-cases (push_leaf x.shared q)) [
  | inl full ↦
      rw (full, next_step)
        (moved-IsCredited x.shared before _ after e c x.shared (giving_back q ∷ [])
          (refl, refl, refl) refl refl)
  | inr (s', pushed) ↦
      let change = push_leaf-some x.shared q pushed in
      let backlog =
        ap (λ (t : ForgeannScheduler). sum work_of t.leaf_backlog) change
        ∙ sum-append work_of x.shared.leaf_backlog (q ∷ []) in
      let work = ap (λ (t : ForgeannScheduler). t.queued_work_ms) change in
      let on = ap (λ (t : ForgeannScheduler). t.work_graph.enable) change in
      rw (pushed, next_step)
        (become-IsCredited x.shared before _ after e c s' (crediting_work q ∷ []) (on ∙ c.enabled)
          (λ m o h. omega arith))
]
next_step-IsCredited x before (crediting_work q) after e c =
    let change = add_queued_work-credits x.shared q c.enabled in
    let backlog = ap (sum work_of) change.2 in
    become-IsCredited x.shared before _ after e c (add_queued_work x.shared q)
      (crediting_mem q ∷ []) change.0 (λ m o h. omega arith)
next_step-IsCredited x before (crediting_mem q) after e c =
    moved-IsCredited x.shared before _ after e c (add_queued_mem x.shared q) (noting_peak ∷ [])
      (add_queued_mem-SameWork x.shared q) refl refl
next_step-IsCredited x before noting_peak after e c =
    moved-IsCredited x.shared before _ after e c (update_peak_backlog x.shared) []
      (refl, refl, refl) refl refl
next_step-IsCredited x before (giving_back q) after e c =
    moved-IsCredited x.shared before _ after e c (remove_task x.shared) [] (refl, refl, refl) refl
      refl
next_step-IsCredited x before (debiting_work fate q) after e c =
    let change = remove_queued_work-debits x.shared q c.enabled in
    let backlog = ap (sum work_of) change.2 in
    become-IsCredited x.shared before _ after e c (remove_queued_work x.shared q)
      (debiting_mem fate q ∷ []) change.0 (λ m o h. omega arith)
next_step-IsCredited x before (debiting_mem run q) after e c =
    moved-IsCredited x.shared before _ after e c (remove_queued_mem x.shared q) (starting q ∷ [])
      (remove_queued_mem-SameWork x.shared q) refl refl
next_step-IsCredited x before (debiting_mem discard q) after e c =
    moved-IsCredited x.shared before _ after e c (remove_queued_mem x.shared q) (dropping q ∷ [])
      (remove_queued_mem-SameWork x.shared q) refl refl
next_step-IsCredited x before (starting q) after e c =
    moved-IsCredited x.shared before _ after e c (start_leaf_execution x.shared) (running q ∷ [])
      (refl, refl, refl) refl refl
next_step-IsCredited x before (dropping q) after e c =
    moved-IsCredited x.shared before _ after e c (remove_task x.shared) [] (refl, refl, refl) refl
      refl
next_step-IsCredited x before (running q) after e c =
    moved-IsCredited x.shared before _ after e c (remove_inflight x.shared) (leaving q ∷ [])
      (refl, refl, refl) refl refl
next_step-IsCredited x before (leaving q) after e c =
    moved-IsCredited x.shared before _ after e c (remove_task x.shared) [] (refl, refl, refl) refl
      refl

Step-IsCredited :
    {x y : System} → Step x y → IsCredited x.shared x.threads → IsCredited y.shared y.threads
unfolding sum uncredited undebited add_task
Step-IsCredited (emits q) c =
    let was = c.credit in record { enabled = c.enabled; credit = omega arith }
Step-IsCredited {x} (works (takes fate q s e)) c =
    let (rest, backlog, g) = pop_leaf-some x.shared e in
    let before = ap (sum work_of) backlog in
    let after = ap (λ (t : ForgeannScheduler). sum work_of t.leaf_backlog) g in
    let work = ap (λ (t : ForgeannScheduler). t.queued_work_ms) g in
    let was = c.credit in
    record {
      enabled = ap (λ (t : ForgeannScheduler). t.work_graph.enable) g ∙ c.enabled;
      credit = omega arith;
    }
Step-IsCredited {x} (works (advances before p after e)) c =
    next_step-IsCredited x before p after e c

pub Reach-IsCredited :
    {x y : System} → Reach x y → IsCredited x.shared x.threads → IsCredited y.shared y.threads
Reach-IsCredited here c = c
Reach-IsCredited (next r st) c = Step-IsCredited st (Reach-IsCredited r c)
