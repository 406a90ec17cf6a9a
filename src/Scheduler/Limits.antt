-- ===== src/Scheduler/Limits.antt =====
-- The number of threads that drain the queue of ForgeANN/src/forgeann/scheduler.rs: the limits that
-- guards set, and the drainers that are spawned, retired and finished. A loop of compare-exchange
-- is its round that succeeds; counters of telemetry are left out.
pub mod Guards
pub mod Bounds
use forge_ann.Prelude.{
  ℕ, zero, suc, ◌+◌, ◌*◌, ◌-◌, ◌≤◌, ◌<◌, ◌≡◌, Bool, true, false, ◌&&◌, ◌==◌, ltb, leb,
  if◌then◌else◌, min, max, Option, none, some, List, [], ◌∷◌, ◌++◌,
}
use forge_ann.Prelude.Usize.{wrapping_add, wrapping_sub, saturating_mul}
use forge_ann.Scheduler.{ForgeannScheduler, LeafDrainerLimitEntry, DrainerSignals}
use forge_ann.Scheduler.Queue.{max_leaf_worker_capacity}

pub active_producer_leaf_worker_cap : ForgeannScheduler → ℕ
active_producer_leaf_worker_cap s = if leb s.worker_count 1 then 1 else max_leaf_worker_capacity s

pub effective_leaf_drainer_limit_for_backlog : ForgeannScheduler → ℕ → ℕ
effective_leaf_drainer_limit_for_backlog s backlog =
    let limit = s.drainers.leaf_drainer_limit in
    let backpressure_limit = s.drainers.leaf_drainer_backpressure_limit in
    let backlog_capacity = max s.backlog_capacity 1 in
    if limit == 0
    then limit
    else if backlog == 0
    then limit
    else if ltb (saturating_mul backlog 4) (saturating_mul backlog_capacity 3)
    then limit
    else if backpressure_limit == 0
    then limit
    else max (min backpressure_limit (max_leaf_worker_capacity s)) 1

unfoldable pub leaf_worker_limit_for_backlog : ForgeannScheduler → ℕ → ℕ
unfolding active_producer_leaf_worker_cap effective_leaf_drainer_limit_for_backlog
leaf_worker_limit_for_backlog s backlog =
    let capacity = max_leaf_worker_capacity s in
    let cap =
      if ltb 0 s.drainers.active_large_assignment_count
      then max (min capacity 2) 1
      else if s.producer_active
      then active_producer_leaf_worker_cap s
      else capacity in
    let limit = effective_leaf_drainer_limit_for_backlog s backlog in
    if backlog == 0 then 0 else min backlog (if limit == 0 then cap else min cap limit)

-- `iter().map(…).min().unwrap_or(0)`
unfoldable pub least_of : (LeafDrainerLimitEntry → ℕ) → List LeafDrainerLimitEntry → ℕ
least_of f [] = 0
least_of f (x ∷ []) = f x
least_of f (x ∷ (y ∷ ys)) = min (f x) (least_of f (y ∷ ys))

pub refresh_leaf_drainer_limits : DrainerSignals → List LeafDrainerLimitEntry → DrainerSignals
unfolding least_of
refresh_leaf_drainer_limits d limits = record d {
  leaf_drainer_limits = limits;
  leaf_drainer_limit = least_of (λ (e : LeafDrainerLimitEntry). e.limit) limits;
  leaf_drainer_backpressure_limit =
      least_of (λ (e : LeafDrainerLimitEntry). e.backpressure_limit) limits;
}

unfoldable pub limit_entry : ForgeannScheduler → ℕ → ℕ → LeafDrainerLimitEntry
limit_entry s limit backpressure_limit = record {
  limit = min (max limit 1) (max_leaf_worker_capacity s);
  backpressure_limit = min (max backpressure_limit 1) (max_leaf_worker_capacity s);
}

pub begin_leaf_drainer_limit : ForgeannScheduler → ℕ → ℕ → ForgeannScheduler
unfolding refresh_leaf_drainer_limits limit_entry
begin_leaf_drainer_limit s limit backpressure_limit = record s {
  drainers =
      refresh_leaf_drainer_limits s.drainers
        (s.drainers.leaf_drainer_limits ++ (limit_entry s limit backpressure_limit ∷ []));
}

is_entry : LeafDrainerLimitEntry → LeafDrainerLimitEntry → Bool
is_entry x y = (x.limit == y.limit) && (x.backpressure_limit == y.backpressure_limit)

-- `rposition` and `remove`: the last entry that is equal.
remove_last :
    LeafDrainerLimitEntry → List LeafDrainerLimitEntry → Option (List LeafDrainerLimitEntry)
unfolding is_entry
remove_last e [] = none
remove_last e (x ∷ xs) = elim (remove_last e xs) [
  | some rest ↦ some (x ∷ rest)
  | none ↦ if is_entry x e then some xs else none
]

-- `pop`
drop_last : List LeafDrainerLimitEntry → List LeafDrainerLimitEntry
drop_last [] = []
drop_last (x ∷ []) = []
drop_last (x ∷ (y ∷ ys)) = x ∷ drop_last (y ∷ ys)

remaining_limits : LeafDrainerLimitEntry → List LeafDrainerLimitEntry → List LeafDrainerLimitEntry
unfolding remove_last drop_last
remaining_limits e limits = elim (remove_last e limits) [
  | some rest ↦ rest
  | none ↦ drop_last limits
]

pub finish_leaf_drainer_limit : ForgeannScheduler → ℕ → ℕ → ForgeannScheduler
unfolding refresh_leaf_drainer_limits limit_entry remaining_limits
finish_leaf_drainer_limit s limit backpressure_limit = record s {
  drainers =
      refresh_leaf_drainer_limits s.drainers
        (remaining_limits (limit_entry s limit backpressure_limit) s.drainers.leaf_drainer_limits);
}

pub begin_large_assignment : ForgeannScheduler → ForgeannScheduler
begin_large_assignment s =
    let active = wrapping_add s.drainers.active_large_assignment_count 1 in
    record s {
      drainers = record s.drainers {
        active_large_assignment_count = active;
        active_large_assignment_peak = max s.drainers.active_large_assignment_peak active;
      };
    }

pub finish_large_assignment : ForgeannScheduler → ForgeannScheduler
finish_large_assignment s = record s {
  drainers = record s.drainers {
    active_large_assignment_count = wrapping_sub s.drainers.active_large_assignment_count 1;
  };
}

module _ (s : ForgeannScheduler) where
  set_drainers : ℕ → ℕ → ForgeannScheduler
  set_drainers active retiring = record s {
    drainers = record s.drainers {
      active_leaf_drainers = active;
      retiring_leaf_drainers = retiring;
    };
  }

  -- The compare-exchange of `maybe_spawn_leaf_drainer`; `none` is a return without a spawn.
  unfoldable pub spawn_leaf_drainer : ℕ → Option ForgeannScheduler
  unfolding set_drainers
  spawn_leaf_drainer target =
      if ltb s.drainers.active_leaf_drainers target
      then some (
          set_drainers (wrapping_add s.drainers.active_leaf_drainers 1)
            s.drainers.retiring_leaf_drainers)
      else none

  -- That of `try_reserve_leaf_drainer_retirement`.
  pub retire_leaf_drainer : ℕ → Option ForgeannScheduler
  unfolding set_drainers
  retire_leaf_drainer target =
      if leb (s.drainers.active_leaf_drainers - s.drainers.retiring_leaf_drainers) target
      then none
      else some (
          set_drainers s.drainers.active_leaf_drainers
            (wrapping_add s.drainers.retiring_leaf_drainers 1))

  -- The two atomic steps of `finish_leaf_drainer`.
  pub release_retiring : ForgeannScheduler
  unfolding set_drainers
  release_retiring =
      set_drainers s.drainers.active_leaf_drainers
        (wrapping_sub s.drainers.retiring_leaf_drainers 1)

  pub release_active : ForgeannScheduler
  unfolding set_drainers
  release_active =
      set_drainers (wrapping_sub s.drainers.active_leaf_drainers 1)
        s.drainers.retiring_leaf_drainers
