-- ===== src/SpineOverlay/Select.antt =====
-- What a selected row is.
use forge_ann.Prelude.{
  ℕ, ◌+◌, ◌-◌, ◌≤◌, ◌<◌, ◌≡◌, refl, sym, subst, min, Bool, true, false, ◌||◌, List, [], length,
  length-take, take, drop, take-append-drop, contains, Within-trans, All, All-imp, All-append,
  All-of_append, AreDistinct, Within, Within-refl, arith,
}
use forge_ann.SpineOverlay.{
  SpineOverlayPruneOptions, keep_base, add_overlay, refill_base,
  select_spine_overlay_row_with_stats,
}
use forge_ann.SpineOverlay.Grows.{Grows-trans, keep_base_lem, add_overlay_lem, refill_base_lem}

-- From where an id of the row may come.
abbrev pub IsOffered : List ℕ → List ℕ → ℕ → Type 0
IsOffered base overlay x = (contains x base || contains x overlay) ≡ true

IsOffered-base : (base overlay : List ℕ) → All (IsOffered base overlay) base
IsOffered-base base overlay = All-imp (λ x h. rw h refl) base (Within-refl base)

IsOffered-overlay : (base overlay : List ℕ) → All (IsOffered base overlay) overlay
IsOffered-overlay base overlay =
    All-imp (λ x h. rw h (either (contains x base))) overlay (Within-refl overlay)
  where
    either : (b : Bool) → (b || true) ≡ true
    either true = refl
    either false = refl

-- A selected row has at most `max_degree` ids, each once and each from the base row or the overlay. It has the
-- first ids of the base row, as many as the overlay's budget leaves room for; of the overlay it adds
-- no more than the budget; and if it is not full, it has the whole base row. Its counters add up
-- with the ids that were kept at first.
pub select_spine_overlay_row_with_stats_lem :
    (base_row overlay_row : List ℕ) (options : SpineOverlayPruneOptions)
    → let out = select_spine_overlay_row_with_stats base_row overlay_row options in
      let kept = take (options.max_degree - options.overlay_budget) base_row in
      (length out.0 ≤ options.max_degree)
      × AreDistinct out.0
      × All (IsOffered base_row overlay_row) out.0
      × Within out.0 kept
      × (out.1 ≤ options.overlay_budget)
      × (length out.0 ≡ length (keep_base kept []) + out.1 + out.2)
      × (length out.0 < options.max_degree → Within out.0 base_row)
unfolding select_spine_overlay_row_with_stats
select_spine_overlay_row_with_stats_lem base overlay options =
    let m = options.max_degree in
    let b = min options.overlay_budget m in
    let keep = m - b in
    let same : m - b ≡ m - options.overlay_budget = omega arith in
    let P = IsOffered base overlay in
    let whole = take-append-drop keep base in
    let both = subst (All P) (sym whole) (IsOffered-base base overlay) in
    let (pa, pb) = All-of_append P (take keep base) (drop keep base) both in
    let (g, held, n) = keep_base_lem P (take keep base) [] pa tt tt in
    let kept = keep_base (take keep base) [] in
    let short = length-take keep base in
    let v =
      add_overlay_lem P m b overlay kept 0 (IsOffered-overlay base overlay) g.distinct g.all in
    let added = add_overlay m b overlay kept 0 in
    let w = refill_base_lem P m (drop keep base) added.0 0 pb v.grows.distinct v.grows.all in
    let out = refill_base m (drop keep base) added.0 0 in
    let first =
      Within-trans (take keep base) kept out.0 (Grows-trans P v.grows w.grows).keeps held in
    let s = v.sized in
    let t = w.sized in
    let c = v.counted (omega arith) in
    rw (← same) (
      w.bounded (v.bounded (omega arith)),
      w.grows.distinct,
      w.grows.all,
      first,
      omega arith,
      omega arith,
      λ h. subst (Within out.0) whole (
          All-append (λ x. contains x out.0 ≡ true) (take keep base) (drop keep base) first
            (w.complete h)),
    )
