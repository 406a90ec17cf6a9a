-- ===== src/Scheduler/Threads/Tally.antt =====
-- Sums over leaves and over threads, and what a leaf in each phase counts for.
use forge_ann.Prelude.{ℕ, ◌+◌, ◌≡◌, List, [], ◌∷◌, ◌++◌, arith}
use forge_ann.Scheduler.{QueuedLeaf}
use forge_ann.Scheduler.Threads.{
  Phase, pushing, crediting_work, giving_back, debiting_work, debiting_mem, starting, dropping,
  running, leaving,
}

unfoldable pub sum {ℓ} : {A : Type ℓ} → (A → ℕ) → List A → ℕ
sum f [] = 0
sum f (x ∷ xs) = f x + sum f xs

pub sum-append {ℓ} :
    {A : Type ℓ} (f : A → ℕ) (xs ys : List A) → sum f (xs ++ ys) ≡ sum f xs + sum f ys
unfolding sum
sum-append f [] ys = omega arith
sum-append f (x ∷ xs) ys = let rest = sum-append f xs ys in omega arith

-- The sum around a place in the list.
pub sum-at {ℓ} :
    {A : Type ℓ} (f : A → ℕ) (before ps after : List A)
    → sum f (before ++ (ps ++ after)) ≡ sum f ps + (sum f before + sum f after)
sum-at f before ps after =
    let outer = sum-append f before (ps ++ after) in
    let inner = sum-append f ps after in omega arith

-- A leaf that a thread holds, outside the queue and before it is processed or dropped.
unfoldable pub held : (QueuedLeaf → ℕ) → Phase → ℕ
held f (debiting_work fate q) = f q
held f (debiting_mem fate q) = f q
held f (starting q) = f q
held f (dropping q) = f q
held f (running q) = f q
held f _ = 0

-- A phase that `outstanding_leaf_tasks` counts.
unfoldable pub task : Phase → ℕ
task (pushing q) = 1
task (giving_back q) = 1
task (debiting_work fate q) = 1
task (debiting_mem fate q) = 1
task (starting q) = 1
task (dropping q) = 1
task (running q) = 1
task (leaving q) = 1
task _ = 0

-- A phase that `inflight_leaf_tasks` counts.
unfoldable pub busy : Phase → ℕ
busy (running q) = 1
busy _ = 0

-- Work that is in the queue, or was, and is not credited yet.
unfoldable pub uncredited : Phase → ℕ
uncredited (crediting_work q) = q.estimated_work_ms
uncredited _ = 0

-- Work that has left the queue, and is not debited yet.
unfoldable pub undebited : Phase → ℕ
undebited (debiting_work fate q) = q.estimated_work_ms
undebited _ = 0
