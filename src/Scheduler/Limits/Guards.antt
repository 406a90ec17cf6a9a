-- ===== src/Scheduler/Limits/Guards.antt =====
-- The guards that limit the drainers.
use mathlib.Core.List.{cons-ne-nil}
use native.Mathlib.Nat.{le_refl}
use forge_ann.Prelude.{
  ℕ, suc, ◌⊎◌, inl, inr, Bool-cases, ◌+◌, ◌≤◌, ◌≡◌, refl, sym, ap, ◌∙◌, true, leb, min, none, some,
  List, [], ◌∷◌, ◌++◌, get_elem?, All, All-imp, arith,
}
use forge_ann.Scheduler.{ForgeannScheduler, LeafDrainerLimitEntry, DrainerSignals}
use forge_ann.Scheduler.Queue.{max_leaf_worker_capacity}
use forge_ann.Scheduler.Threads.Tally.{sum}
use forge_ann.Scheduler.Limits.{
  remove_last, is_entry, remaining_limits, limit_entry, refresh_leaf_drainer_limits,
  begin_leaf_drainer_limit, finish_leaf_drainer_limit, least_of,
}

is_entry_self : (e : LeafDrainerLimitEntry) → is_entry e e ≡ true
unfolding is_entry
is_entry_self e = ground arith

remove_last-append :
    (e : LeafDrainerLimitEntry) (limits : List LeafDrainerLimitEntry)
    → remove_last e (limits ++ (e ∷ [])) ≡ some limits
unfolding remove_last
remove_last-append e [] = rw (is_entry_self e) refl
remove_last-append e (x ∷ xs) = rw (remove_last-append e xs) refl

-- The stored limits are those of the entries.
pub IsRefreshed : ForgeannScheduler → Type 0
IsRefreshed s = refresh_leaf_drainer_limits s.drainers s.drainers.leaf_drainer_limits ≡ s.drainers

-- A guard that is dropped while it is the last one leaves the scheduler as it was before the guard.
pub finish-begin_limit :
    (s : ForgeannScheduler) (limit backpressure_limit : ℕ)
    → IsRefreshed s
    → finish_leaf_drainer_limit
        (begin_leaf_drainer_limit s limit backpressure_limit)
        limit
        backpressure_limit
      ≡ s
unfolding IsRefreshed limit_entry max_leaf_worker_capacity finish_leaf_drainer_limit
    begin_leaf_drainer_limit remaining_limits refresh_leaf_drainer_limits
finish-begin_limit s limit backpressure_limit r =
    let e = limit_entry s limit backpressure_limit in
    let removed = remove_last-append e s.drainers.leaf_drainer_limits in
    let left : remaining_limits e (s.drainers.leaf_drainer_limits ++ (e ∷ []))
        ≡ s.drainers.leaf_drainer_limits =
      rw (removed, remaining_limits) refl in
    ap (λ (d : DrainerSignals). record s { drainers = d })
      (ap (refresh_leaf_drainer_limits s.drainers) left ∙ r)

is_entry-same : (x e : LeafDrainerLimitEntry) → is_entry x e ≡ true → x ≡ e
unfolding is_entry
is_entry-same x e h = ground arith

-- `rest` with `e` is `limits`, whatever can be told of entries.
abbrev Without :
    LeafDrainerLimitEntry → List LeafDrainerLimitEntry → List LeafDrainerLimitEntry → Type 0
Without e limits rest = (f : LeafDrainerLimitEntry → ℕ) → sum f rest + f e ≡ sum f limits

module _ (e : LeafDrainerLimitEntry) where
  -- Of a list without an equal entry nothing is removed.
  remove_last-cases :
      (limits : List LeafDrainerLimitEntry)
      → (remove_last e limits ≡ none)
        ⊎ ((rest : List LeafDrainerLimitEntry) × (remove_last e limits ≡ some rest)
            × Without e limits rest)
  unfolding remove_last sum
  remove_last-cases [] = inl refl
  remove_last-cases (x ∷ xs) = elim (remove_last-cases xs) [
    | inr (rest, removed, h) ↦ inr (x ∷ rest, rw removed refl, λ f. let hf = h f in omega arith)
    | inl absent ↦ elim (Bool-cases (is_entry x e)) [
      | inl same ↦
          inr (
            xs,
            rw (absent, same) refl,
            λ f. let here = ap f (is_entry-same x e same) in omega arith,
          )
      | inr other ↦ inl (rw (absent, other) refl)
    ]
  ]

  -- The entry is there, so one equal to it goes.
  remove_last-some :
      (before after : List LeafDrainerLimitEntry)
      → (rest : List LeafDrainerLimitEntry) × (remove_last e (before ++ (e ∷ after)) ≡ some rest)
        × Without e (before ++ (e ∷ after)) rest
  unfolding remove_last sum
  remove_last-some [] after = elim (remove_last-cases after) [
    | inr (rest, removed, h) ↦ (e ∷ rest, rw removed refl, λ f. let hf = h f in omega arith)
    | inl absent ↦ (after, rw (absent, is_entry_self e) refl, λ f. omega arith)
  ]
  remove_last-some (x ∷ before) after =
      let (rest, removed, h) = remove_last-some before after in
      (x ∷ rest, rw removed refl, λ f. let hf = h f in omega arith)

-- What a minimum over entries is, 0 if there is none.
abbrev pub IsLeast : (LeafDrainerLimitEntry → ℕ) → List LeafDrainerLimitEntry → ℕ → Type 0
IsLeast f limits m =
    ((limits ≡ []) × (m ≡ 0))
    ⊎ (All (λ e. m ≤ f e) limits
        × ((i : ℕ) × (e : LeafDrainerLimitEntry) × (get_elem? limits i ≡ some e) × (f e ≡ m)))

least_of-IsLeast :
    (f : LeafDrainerLimitEntry → ℕ) (limits : List LeafDrainerLimitEntry)
    → IsLeast f limits (least_of f limits)
unfolding least_of
least_of-IsLeast f [] = inl (refl, refl)
least_of-IsLeast f (x ∷ []) = inr ((le_refl _, tt), (0, x, refl, refl))
least_of-IsLeast f (x ∷ (y ∷ ys)) = elim (least_of-IsLeast f (y ∷ ys)) [
  | inl (empty, _) ↦ absurd (cons-ne-nil _ _ empty)
  | inr (low, (i, e, at, m)) ↦ elim (Bool-cases (leb (f x) (least_of f (y ∷ ys)))) [
    | inl first ↦
        let q : min (f x) (least_of f (y ∷ ys)) ≡ f x = ground arith in
        inr (
          (omega arith, All-imp (λ e' (h : least_of f (y ∷ ys) ≤ f e'). omega arith) (y ∷ ys) low),
          (0, x, refl, sym q),
        )
    | inr later ↦
        let q : min (f x) (least_of f (y ∷ ys)) ≡ least_of f (y ∷ ys) = ground arith in
        inr (
          (ground arith, All-imp (λ e' (h : least_of f (y ∷ ys) ≤ f e'). omega arith) (y ∷ ys) low),
          (suc i, e, at, m ∙ sym q),
        )
  ]
]

-- What the drop of a guard leaves: the limits that are in force, and all else as it was.
pub record IsRest (s : ForgeannScheduler) (dropped : LeafDrainerLimitEntry) (s' : ForgeannScheduler)
    : Type 0 where
  -- each of the other entries as often as before
  pub others :
      (f : LeafDrainerLimitEntry → ℕ)
      → sum f s'.drainers.leaf_drainer_limits + f dropped ≡ sum f s.drainers.leaf_drainer_limits
  pub limit : IsLeast (λ e. e.limit) s'.drainers.leaf_drainer_limits s'.drainers.leaf_drainer_limit
  pub backpressure_limit :
      IsLeast
        (λ e. e.backpressure_limit)
        s'.drainers.leaf_drainer_limits
        s'.drainers.leaf_drainer_backpressure_limit
  pub active : s'.drainers.active_leaf_drainers ≡ s.drainers.active_leaf_drainers
  pub retiring : s'.drainers.retiring_leaf_drainers ≡ s.drainers.retiring_leaf_drainers
  pub queue : s'.leaf_backlog ≡ s.leaf_backlog

-- In whatever order guards are dropped: dropping one whose entry is in force leaves the other
-- entries, each as often as before; the stored limit is then the least of theirs, and so is the
-- stored limit of backpressure, 0 if there is none; the drainers and the queue stay.
pub finish_leaf_drainer_limit-IsRest :
    (s : ForgeannScheduler) (limit backpressure_limit : ℕ)
    (before after : List LeafDrainerLimitEntry)
    → s.drainers.leaf_drainer_limits ≡ before ++ (limit_entry s limit backpressure_limit ∷ after)
    → IsRest s
        (limit_entry s limit backpressure_limit)
        (finish_leaf_drainer_limit s limit backpressure_limit)
unfolding finish_leaf_drainer_limit remaining_limits refresh_leaf_drainer_limits
finish_leaf_drainer_limit-IsRest s limit backpressure_limit before after e =
    let mine = limit_entry s limit backpressure_limit in
    let (rest, removed, h) = remove_last-some mine before after in
    let left : remaining_limits mine s.drainers.leaf_drainer_limits ≡ rest =
      ap (remaining_limits mine) e ∙ rw (removed, remaining_limits) refl in
    record {
      others =
          λ f. let was = ap (sum f) e in let now = ap (sum f) left in let hf = h f in omega arith;
      limit = least_of-IsLeast (λ x. x.limit) _;
      backpressure_limit = least_of-IsLeast (λ x. x.backpressure_limit) _;
      active = refl;
      retiring = refl;
      queue = refl;
    }
