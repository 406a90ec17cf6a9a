-- ===== src/SpineOverlay/Tests.antt =====
-- Rows of a few ids.
use forge_ann.Prelude.{
  ℕ, ◌≡◌, ◌≤◌, ◌<◌, ◌+◌, ◌-◌, refl, List, [], ◌∷◌, take, length, All, AreDistinct, Within,
}
use forge_ann.SpineOverlay.{
  SpineOverlayPruneOptions, push_unique_id, keep_base, add_overlay, refill_base,
  select_spine_overlay_row_with_stats,
}
use forge_ann.SpineOverlay.Accumulator.{
  RuntimeOverlayUpdate, RuntimeOverlayCandidate, empty, dsts, insert_update,
}
use forge_ann.SpineOverlay.Accumulator.Rows.{IsRow, insert_update-IsRow}
use forge_ann.Prelude.{min, contains, true, false, arith}
use forge_ann.SpineOverlay.Select.{IsOffered, select_spine_overlay_row_with_stats_lem}

abbrev options : SpineOverlayPruneOptions
options = record { max_degree = 4; overlay_budget = 2 }

abbrev base : List ℕ
base = 1 ∷ 2 ∷ 3 ∷ 4 ∷ []

abbrev overlay : List ℕ
overlay = 2 ∷ 9 ∷ []

-- The overlay repeats an id of the base row, and its place goes to the base row again.
refills : select_spine_overlay_row_with_stats base overlay options ≡ (1 ∷ 2 ∷ 9 ∷ 3 ∷ [], 1, 1)
unfolding select_spine_overlay_row_with_stats push_unique_id keep_base add_overlay refill_base
refills = refl

select_spine_overlay_row_with_stats_example :
    let out = select_spine_overlay_row_with_stats base overlay options in
    let kept = take (4 - 2) base in
    (length out.0 ≤ 4)
    × AreDistinct out.0
    × All (IsOffered base overlay) out.0
    × Within out.0 kept
    × (out.1 ≤ 2)
    × (length out.0 ≡ length (keep_base kept []) + out.1 + out.2)
    × (length out.0 < 4 → Within out.0 base)
select_spine_overlay_row_with_stats_example =
    select_spine_overlay_row_with_stats_lem base overlay options

-- A full row of two slots, and a vote for another id.
abbrev two_slots : List RuntimeOverlayCandidate
two_slots =
    record empty { dst = 5; family_support = 2 } ∷ record empty { dst = 8; family_support = 1 } ∷ []

abbrev vote : RuntimeOverlayUpdate
vote = record {
  dst = 3;
  dist2 = 100;
  family = 7;
  local_rank = 1;
  direct = true;
  reciprocal = false;
}

two_slots-IsRow : IsRow (min 2 16) (dsts two_slots)
two_slots-IsRow = record {
  few = omega arith;
  distinct = (((λ q. absurd (omega arith)), tt), (tt, tt));
}

insert_update-IsRow_example :
    IsRow (min 2 16) (dsts (insert_update two_slots vote 2))
    × (contains 3 (dsts two_slots) ≡ true → dsts (insert_update two_slots vote 2) ≡ dsts two_slots)
    × (length two_slots < min 2 16
        → (contains 3 (dsts (insert_update two_slots vote 2)) ≡ true)
          × Within (dsts (insert_update two_slots vote 2)) (dsts two_slots))
insert_update-IsRow_example = insert_update-IsRow two_slots vote 2 two_slots-IsRow
