-- ===== src/Scheduler/Queue/Take.antt =====
-- One leaf after the other that a call takes from the queue.
use mathlib.Core.List.{append_assoc}
use forge_ann.Prelude.{
  ◌⊎◌, ◌+◌, ◌≡◌, refl, sym, ap, ◌∙◌, none, some, inl, inr, List, [], ◌∷◌, ◌++◌, length,
  length-append, arith,
}
use forge_ann.Prelude.Usize.{IsCongruent}
use forge_ann.Scheduler.{
  QueuedLeaf, ForgeannScheduler, pop_leaf, remove_queued_work, remove_queued_mem,
  start_leaf_execution,
}
use forge_ann.Scheduler.Ends.{pop_leaf-at}
use forge_ann.Scheduler.Queue.{remove_queued_leaf_credit, try_take_queued_leaf}

-- `leaves` are the oldest of the queue, in order, and are counted as in flight and as outstanding.
pub record IsTaken (s : ForgeannScheduler) (leaves : List QueuedLeaf) (s' : ForgeannScheduler)
    : Type 0 where
  pub oldest : s.leaf_backlog ≡ leaves ++ s'.leaf_backlog
  pub tasks : s'.outstanding_leaf_tasks ≡ s.outstanding_leaf_tasks
  pub runs : IsCongruent s'.inflight_leaf_tasks (s.inflight_leaf_tasks + length leaves)
  pub policy : s'.leaf_batch_drain_policy ≡ s.leaf_batch_drain_policy
  pub capacity : s'.backlog_capacity ≡ s.backlog_capacity
  pub errors : s'.first_error ≡ s.first_error
  pub producer : s'.producer_active ≡ s.producer_active
  pub workers : s'.worker_count ≡ s.worker_count

-- A leaf that has been popped is taken.
popped-IsTaken :
    (s : ForgeannScheduler) (q : QueuedLeaf) (rest : List QueuedLeaf) {s' : ForgeannScheduler}
    → s.leaf_backlog ≡ q ∷ rest
    → s' ≡ record s { leaf_backlog = rest }
    → IsTaken s (q ∷ []) (start_leaf_execution (remove_queued_leaf_credit s' q))
unfolding start_leaf_execution remove_queued_leaf_credit remove_queued_work remove_queued_mem
popped-IsTaken s q rest {s'} e f =
    let after : (start_leaf_execution (remove_queued_leaf_credit s' q)).leaf_backlog ≡ rest =
      ground arith in
    record {
      oldest = e ∙ ap (λ xs. q ∷ xs) (sym after);
      tasks = ground arith;
      runs = ground arith;
      policy = ground arith;
      capacity = ground arith;
      errors = ground arith;
      producer = ground arith;
      workers = ground arith;
    }

-- The leaves of two takes in turn.
pub IsTaken-trans :
    {s t u : ForgeannScheduler} {first second : List QueuedLeaf}
    → IsTaken s first t
    → IsTaken t second u
    → IsTaken s (first ++ second) u
IsTaken-trans {s} {t} {u} {first} {second} a b =
    let lengths = length-append first second in
    let runs_a = a.runs in
    let runs_b = b.runs in
    record {
      oldest =
          a.oldest
          ∙ ap (λ xs. first ++ xs) b.oldest
          ∙ sym (append_assoc first second u.leaf_backlog);
      tasks = b.tasks ∙ a.tasks;
      runs = omega arith;
      policy = b.policy ∙ a.policy;
      capacity = b.capacity ∙ a.capacity;
      errors = b.errors ∙ a.errors;
      producer = b.producer ∙ a.producer;
      workers = b.workers ∙ a.workers;
    }

-- A take gives the oldest leaf, or nothing if the queue is empty.
abbrev pub TakeOf : ForgeannScheduler → Type 0
TakeOf s =
    ((try_take_queued_leaf s ≡ none) × (s.leaf_backlog ≡ []))
    ⊎ ((q : QueuedLeaf) × (s' : ForgeannScheduler) × (try_take_queued_leaf s ≡ some (q, s'))
        × IsTaken s (q ∷ []) s')

backlog-TakeOf :
    (s : ForgeannScheduler) (backlog : List QueuedLeaf) → s.leaf_backlog ≡ backlog → TakeOf s
unfolding try_take_queued_leaf pop_leaf
backlog-TakeOf s [] e = inl (rw e refl, e)
backlog-TakeOf s (q ∷ rest) e =
    let popped = pop_leaf-at s q rest e in
    inr (q, _, rw (popped, try_take_queued_leaf) refl, popped-IsTaken s q rest e refl)

pub try_take_queued_leaf-TakeOf : (s : ForgeannScheduler) → TakeOf s
try_take_queued_leaf-TakeOf s = backlog-TakeOf s s.leaf_backlog refl

pub none-IsTaken : (s : ForgeannScheduler) → IsTaken s [] s
none-IsTaken s = record {
  oldest = refl;
  tasks = refl;
  runs = ground arith;
  policy = refl;
  capacity = refl;
  errors = refl;
  producer = refl;
  workers = refl;
}
