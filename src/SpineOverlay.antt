-- ===== src/SpineOverlay.antt =====
-- ForgeANN/src/forgeann/spine_overlay_prune.rs: the row of a point, from its base row and the ranked overlay
-- candidates.
pub mod Grows
pub mod Select
pub mod Accumulator
mod Tests
use forge_ann.Prelude.{
  ℕ, suc, ◌+◌, ◌-◌, ◌*◌, ◌^◌, min, max, Bool, true, false, not, ◌||◌, ltb, leb, ◌==◌, if◌then◌else◌,
  List, [], ◌∷◌, ◌++◌, length, take, drop, contains,
}
use forge_ann.Prelude.Results.{Result, ok, err, ◌>>◌, reject_if}

-- The part of the options that the selection of a row reads.
pub record SpineOverlayPruneOptions : Type 0 where
  pub max_degree : ℕ
  pub overlay_budget : ℕ

-- Whether the id was new, and the row afterwards.
pub push_unique_id : ℕ → List ℕ → Bool × List ℕ
push_unique_id dst selected =
    if contains dst selected then (false, selected) else (true, selected ++ (dst ∷ []))

-- The loop over the part of the base row that is kept.
pub keep_base : List ℕ → List ℕ → List ℕ
unfolding push_unique_id
keep_base [] selected = selected
keep_base (dst ∷ base_row) selected = keep_base base_row (push_unique_id dst selected).1

-- The loop over the overlay: the row and `overlay_added`.
pub add_overlay : ℕ → ℕ → List ℕ → List ℕ → ℕ → List ℕ × ℕ
unfolding push_unique_id
add_overlay max_degree overlay_budget [] selected overlay_added = (selected, overlay_added)
add_overlay max_degree overlay_budget (dst ∷ overlay_row) selected overlay_added =
    let pushed = push_unique_id dst selected in
    let rest =
      add_overlay max_degree overlay_budget overlay_row pushed.1
        (if pushed.0 then suc overlay_added else overlay_added) in
    if leb max_degree (length selected) || leb overlay_budget overlay_added
    then (selected, overlay_added)
    else rest

-- The loop over the rest of the base row: the row and `base_refill`.
pub refill_base : ℕ → List ℕ → List ℕ → ℕ → List ℕ × ℕ
unfolding push_unique_id
refill_base max_degree [] selected base_refill = (selected, base_refill)
refill_base max_degree (dst ∷ base_row) selected base_refill =
    let pushed = push_unique_id dst selected in
    let rest =
      refill_base max_degree base_row pushed.1
        (if pushed.0 then suc base_refill else base_refill) in
    if leb max_degree (length selected) then (selected, base_refill) else rest

pub select_spine_overlay_row_with_stats :
    List ℕ → List ℕ → SpineOverlayPruneOptions → List ℕ × ℕ × ℕ
unfolding keep_base add_overlay refill_base
select_spine_overlay_row_with_stats base_row overlay_row options =
    let overlay_budget = min options.overlay_budget options.max_degree in
    let base_keep = options.max_degree - overlay_budget in
    let kept = keep_base (take base_keep base_row) [] in
    let added = add_overlay options.max_degree overlay_budget overlay_row kept 0 in
    let refilled = refill_base options.max_degree (drop base_keep base_row) added.0 0 in
    (refilled.0, added.1, refilled.1)
