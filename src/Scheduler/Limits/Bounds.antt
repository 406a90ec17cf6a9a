-- ===== src/Scheduler/Limits/Bounds.antt =====
-- How many threads drain the queue at once.
use forge_ann.Prelude.{ℕ, suc, ◌+◌, ◌-◌, ◌^◌, ◌≤◌, ◌<◌, ◌≡◌, ◌∙◌, min, max, some, arith}
use forge_ann.Prelude.Usize.{wrapping_add}
use forge_ann.Scheduler.{ForgeannScheduler}
use forge_ann.Scheduler.Queue.{max_leaf_worker_capacity}
use forge_ann.Scheduler.Limits.{
  active_producer_leaf_worker_cap, effective_leaf_drainer_limit_for_backlog,
  leaf_worker_limit_for_backlog, spawn_leaf_drainer, retire_leaf_drainer, release_retiring,
  release_active,
}

-- For any state of guards and assignments: no drainer for an empty queue; at least one otherwise,
-- and at most one for each leaf and one less than the workers.
pub leaf_worker_limit_for_backlog-bounds :
    (s : ForgeannScheduler) (backlog : ℕ)
    → (min backlog 1 ≤ leaf_worker_limit_for_backlog s backlog)
      × (leaf_worker_limit_for_backlog s backlog ≤ backlog)
      × (leaf_worker_limit_for_backlog s backlog ≤ max (s.worker_count - 1) 1)
unfolding leaf_worker_limit_for_backlog active_producer_leaf_worker_cap
    effective_leaf_drainer_limit_for_backlog max_leaf_worker_capacity
leaf_worker_limit_for_backlog-bounds s backlog = ground arith

-- The drainers that are at work, that are to retire, and that have given back the retirement.
pub record Drainers : Type 0 where
  pub working : ℕ
  pub retiring : ℕ
  pub released : ℕ

pub record Pool : Type 0 where
  pub shared : ForgeannScheduler
  pub drainers : Drainers

-- A target may have been computed in an earlier state `s` of the same scheduler.
pub data Turn (x : Pool) : Pool → Type 0 where
  spawns :
      (s s' : ForgeannScheduler) (backlog : ℕ)
      → s.worker_count ≡ x.shared.worker_count
      → spawn_leaf_drainer x.shared (leaf_worker_limit_for_backlog s backlog) ≡ some s'
      → Turn x (record {
        shared = s';
        drainers = record x.drainers { working = suc x.drainers.working };
      })
  retires :
      (s' : ForgeannScheduler) (target : ℕ)
      → 1 ≤ x.drainers.working
      → retire_leaf_drainer x.shared target ≡ some s'
      → Turn x (record {
        shared = s';
        drainers = record x.drainers {
          working = x.drainers.working - 1;
          retiring = suc x.drainers.retiring;
        };
      })
  -- `finish_leaf_drainer` of a drainer that retires, its first step
  releases :
      1 ≤ x.drainers.retiring
      → Turn x (record {
        shared = release_retiring x.shared;
        drainers = record x.drainers {
          retiring = x.drainers.retiring - 1;
          released = suc x.drainers.released;
        };
      })
  -- and its last
  ends_released :
      1 ≤ x.drainers.released
      → Turn x (record {
        shared = release_active x.shared;
        drainers = record x.drainers { released = x.drainers.released - 1 };
      })
  -- `finish_leaf_drainer` of one that does not
  ends_working :
      1 ≤ x.drainers.working
      → Turn x (record {
        shared = release_active x.shared;
        drainers = record x.drainers { working = x.drainers.working - 1 };
      })

pub data Turns (x : Pool) : Pool → Type 0 where
  here : Turns x x
  next : {y z : Pool} → Turns x y → Turn y z → Turns x z

pub record IsStaffed (workers : ℕ) (x : Pool) : Type 0 where
  pub same_workers : x.shared.worker_count ≡ workers
  pub active :
      x.shared.drainers.active_leaf_drainers
      ≡ x.drainers.working + (x.drainers.retiring + x.drainers.released)
  pub retiring : x.shared.drainers.retiring_leaf_drainers ≡ x.drainers.retiring
  pub within : x.shared.drainers.active_leaf_drainers ≤ max (workers - 1) 1

spawn_leaf_drainer-some :
    (s : ForgeannScheduler) (target : ℕ) {s' : ForgeannScheduler}
    → spawn_leaf_drainer s target ≡ some s'
    → (s'.worker_count ≡ s.worker_count)
      × (s'.drainers.active_leaf_drainers ≡ wrapping_add s.drainers.active_leaf_drainers 1)
      × (s'.drainers.retiring_leaf_drainers ≡ s.drainers.retiring_leaf_drainers)
      × (s.drainers.active_leaf_drainers < target)
unfolding spawn_leaf_drainer
spawn_leaf_drainer-some s target e = ground arith

retire_leaf_drainer-some :
    (s : ForgeannScheduler) (target : ℕ) {s' : ForgeannScheduler}
    → retire_leaf_drainer s target ≡ some s'
    → (s'.worker_count ≡ s.worker_count)
      × (s'.drainers.active_leaf_drainers ≡ s.drainers.active_leaf_drainers)
      × (s'.drainers.retiring_leaf_drainers ≡ wrapping_add s.drainers.retiring_leaf_drainers 1)
unfolding retire_leaf_drainer
retire_leaf_drainer-some s target e = ground arith

Turn-IsStaffed :
    {workers : ℕ} {x y : Pool}
    → workers < 2 ^ 64
    → Turn x y
    → IsStaffed workers x
    → IsStaffed workers y
unfolding spawn_leaf_drainer retire_leaf_drainer release_retiring release_active
Turn-IsStaffed {workers} {x} w (spawns s s' backlog same e) i =
    let target = leaf_worker_limit_for_backlog s backlog in
    let change = spawn_leaf_drainer-some x.shared target e in
    let bounds = leaf_worker_limit_for_backlog-bounds s backlog in
    let known = i.same_workers in
    record {
      same_workers = change.0 ∙ i.same_workers;
      active = omega arith;
      retiring = omega arith;
      within = omega arith;
    }
Turn-IsStaffed {workers} {x} w (retires s' target h e) i =
    let change = retire_leaf_drainer-some x.shared target e in
    record {
      same_workers = change.0 ∙ i.same_workers;
      active = omega arith;
      retiring = omega arith;
      within = omega arith;
    }
Turn-IsStaffed w (releases h) i = record {
  same_workers = i.same_workers;
  active = omega arith;
  retiring = omega arith;
  within = omega arith;
}
Turn-IsStaffed w (ends_released h) i = record {
  same_workers = i.same_workers;
  active = omega arith;
  retiring = omega arith;
  within = omega arith;
}
Turn-IsStaffed w (ends_working h) i = record {
  same_workers = i.same_workers;
  active = omega arith;
  retiring = omega arith;
  within = omega arith;
}

pub Turns-IsStaffed :
    {workers : ℕ} {x y : Pool}
    → workers < 2 ^ 64
    → Turns x y
    → IsStaffed workers x
    → IsStaffed workers y
Turns-IsStaffed w here i = i
Turns-IsStaffed w (next r t) i = Turn-IsStaffed w t (Turns-IsStaffed w r i)
