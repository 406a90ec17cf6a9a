-- ===== src/Scheduler/Threads.antt =====
-- The threads of the scheduler (ForgeANN/src/forgeann/scheduler.rs, lines 912-1080): each is within
-- `try_enqueue_queued_leaf`, `try_take_queued_leaf`, `finish_leaf_execution` or
-- `discard_queued_leaf_backlog`, and its next atomic step may come at any time. A thread that takes
-- a batch is one phase for each leaf. A take may come at any time, whichever drainer or helper makes
-- it. What a leaf is processed to is not in the counters: a thread that runs a leaf goes on whether
-- that succeeds or fails, and the leaf counts as processed. The addition to a counter and the loop
-- that raises its peak are one step, since the loop touches the peak alone.
pub mod Tally
pub mod Counts
pub mod Leaves
pub mod Ending
pub mod Credit
pub mod Done
use forge_ann.Prelude.{ℕ, suc, ◌+◌, ◌*◌, ◌≡◌, Option, some, none, List, [], ◌∷◌, ◌++◌}
use forge_ann.Scheduler.{
  QueuedLeaf, ForgeannScheduler, add_task, remove_task, push_leaf, add_queued_work, add_queued_mem,
  update_peak_backlog, remove_queued_work, remove_queued_mem, start_leaf_execution, remove_inflight,
  pop_leaf,
}

-- What becomes of a leaf that has been popped.
pub data Fate : Type 0 where
  run : Fate
  discard : Fate

-- Where a thread is; the step that comes next is named.
pub data Phase : Type 0 where
  -- `try_enqueue_queued_leaf`, after the task has been counted
  pushing : QueuedLeaf → Phase
  crediting_work : QueuedLeaf → Phase
  crediting_mem : QueuedLeaf → Phase
  noting_peak : Phase
  -- the queue was full
  giving_back : QueuedLeaf → Phase
  -- `try_take_queued_leaf` and `discard_queued_leaf_backlog`, after the pop
  debiting_work : Fate → QueuedLeaf → Phase
  debiting_mem : Fate → QueuedLeaf → Phase
  starting : QueuedLeaf → Phase
  dropping : QueuedLeaf → Phase
  -- the leaf is processed, then `finish_leaf_execution`
  running : QueuedLeaf → Phase
  leaving : QueuedLeaf → Phase

-- The leaves that have been pushed, processed and dropped are kept for the statements only.
pub record System : Type 0 where
  pub shared : ForgeannScheduler
  pub threads : List Phase
  pub accepted : List QueuedLeaf
  pub processed : List QueuedLeaf
  pub discarded : List QueuedLeaf

abbrev pub started : ForgeannScheduler → System
started s = record { shared = s; threads = []; accepted = []; processed = []; discarded = [] }

-- The system in which a thread has become these phases.
abbrev pub become : System → List Phase → ForgeannScheduler → List Phase → List Phase → System
become x before s ps after = record x { shared = s; threads = before ++ (ps ++ after) }

-- The next atomic step of a thread in a phase, between the threads before it and those after it.
unfoldable pub next_step : System → List Phase → Phase → List Phase → System
next_step x before (pushing q) after = elim (push_leaf x.shared q) [
  | none ↦ become x before x.shared (giving_back q ∷ []) after
  | some s ↦ record (become x before s (crediting_work q ∷ []) after) { accepted = q ∷ x.accepted }
]
next_step x before (crediting_work q) after =
    become x before (add_queued_work x.shared q) (crediting_mem q ∷ []) after
next_step x before (crediting_mem q) after =
    become x before (add_queued_mem x.shared q) (noting_peak ∷ []) after
next_step x before noting_peak after = become x before (update_peak_backlog x.shared) [] after
next_step x before (giving_back q) after = become x before (remove_task x.shared) [] after
next_step x before (debiting_work fate q) after =
    become x before (remove_queued_work x.shared q) (debiting_mem fate q ∷ []) after
next_step x before (debiting_mem run q) after =
    become x before (remove_queued_mem x.shared q) (starting q ∷ []) after
next_step x before (debiting_mem discard q) after =
    become x before (remove_queued_mem x.shared q) (dropping q ∷ []) after
next_step x before (starting q) after =
    become x before (start_leaf_execution x.shared) (running q ∷ []) after
next_step x before (dropping q) after = record (become x before (remove_task x.shared) [] after) {
  discarded = q ∷ x.discarded;
}
next_step x before (running q) after =
    record (become x before (remove_inflight x.shared) (leaving q ∷ []) after) {
      processed = q ∷ x.processed;
    }
next_step x before (leaving q) after = become x before (remove_task x.shared) [] after

-- A step that takes no new leaf from the producer.
pub data Work (x : System) : System → Type 0 where
  takes :
      (fate : Fate) (q : QueuedLeaf) (s : ForgeannScheduler)
      → pop_leaf x.shared ≡ some (q, s)
      → Work x (record x { shared = s; threads = debiting_work fate q ∷ x.threads })
  advances :
      (before : List Phase) (p : Phase) (after : List Phase)
      → x.threads ≡ before ++ (p ∷ after)
      → Work x (next_step x before p after)

pub data Step (x : System) : System → Type 0 where
  emits :
      (q : QueuedLeaf)
      → Step x (record x { shared = add_task x.shared; threads = pushing q ∷ x.threads })
  works : {y : System} → Work x y → Step x y

pub data Reach (x : System) : System → Type 0 where
  here : Reach x x
  next : {y z : System} → Reach x y → Step y z → Reach x z

-- Any number of steps, counted, that take no new leaf from the producer.
pub data Works (x : System) : ℕ → System → Type 0 where
  done : Works x 0 x
  more : {n : ℕ} {y z : System} → Works x n y → Work y z → Works x (suc n) z
