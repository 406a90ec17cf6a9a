-- ===== src/SpineOverlay/Accumulator.antt =====
-- `RuntimeSpineOverlayRow` and its candidates: the support that a row's overlay ids gather, in at most 16 slots.
-- The used slots of the array are a list.
pub mod Rows
use Prim.Native.Nat.{bit_and, bit_or, compare, Ordering}
use forge_ann.Prelude.{
  ℕ, zero, suc, ◌+◌, ◌-◌, ◌*◌, ◌/◌, ◌%◌, ◌^◌, min, max, Bool, true, false, not, ◌&&◌, ltb, leb,
  ◌==◌, if◌then◌else◌, List, [], ◌∷◌, ◌++◌, length, map, set, contains,
}
use forge_ann.Float32.{is_nan, f32_lt}

pub record RuntimeOverlayUpdate : Type 0 where
  pub dst : ℕ
  pub dist2 : ℕ
  pub family : ℕ
  pub local_rank : ℕ
  pub direct : Bool
  pub reciprocal : Bool

pub record RuntimeOverlayCandidate : Type 0 where
  pub dst : ℕ
  pub dist2 : ℕ
  pub family_support : ℕ
  pub reciprocal_support : ℕ
  pub rank_mass : ℕ
  pub best_rank : ℕ
  pub family_bits : ℕ
  pub reciprocal_bits : ℕ

abbrev runtime_overlay_max_slots : ℕ
runtime_overlay_max_slots = 16

rank_weight : ℕ → ℕ
rank_weight rank = if rank == 1 then 6 else if rank == 2 then 3 else if rank == 3 then 2 else 1

-- Multiplications and the rotation by 13 are of 32 bits; the bit is one of 64.
family_bit : ℕ → ℕ
family_bit family =
    let first = (family * 2654435761) % 2 ^ 32 in
    let rotated = (first * 2 ^ 13) % 2 ^ 32 + first / 2 ^ 19 in
    2 ^ (((rotated * 2246822507) % 2 ^ 32) % 64)

-- `f32::min`
f32_min : ℕ → ℕ → ℕ
f32_min a b = if is_nan a then b else if is_nan b then a else if f32_lt b a then b else a

abbrev saturating_add : ℕ → ℕ → ℕ → ℕ
saturating_add bits a b = min (a + b) (2 ^ bits - 1)

-- `empty`: the greatest u32, infinity, the greatest u8.
abbrev pub empty : RuntimeOverlayCandidate
empty = record {
  dst = 4294967295;
  dist2 = 0x7f800000;
  family_support = 0;
  reciprocal_support = 0;
  rank_mass = 0;
  best_rank = 255;
  family_bits = 0;
  reciprocal_bits = 0;
}

apply_direct : RuntimeOverlayCandidate → RuntimeOverlayUpdate → RuntimeOverlayCandidate
unfolding family_bit rank_weight
apply_direct c update =
    let bit = family_bit update.family in
    let rank = max update.local_rank 1 in
    if update.direct && (bit_and c.family_bits bit == 0)
    then record c {
      family_bits = bit_or c.family_bits bit;
      family_support = saturating_add 16 c.family_support 1;
      rank_mass = saturating_add 32 c.rank_mass (rank_weight rank);
      best_rank = if ltb rank c.best_rank then rank else c.best_rank;
    }
    else c

apply_reciprocal : RuntimeOverlayCandidate → RuntimeOverlayUpdate → RuntimeOverlayCandidate
unfolding family_bit
apply_reciprocal c update =
    let bit = family_bit update.family in
    if update.reciprocal && (bit_and c.reciprocal_bits bit == 0)
    then record c {
      reciprocal_bits = bit_or c.reciprocal_bits bit;
      reciprocal_support = saturating_add 16 c.reciprocal_support 1;
    }
    else c

pub apply : RuntimeOverlayCandidate → RuntimeOverlayUpdate → RuntimeOverlayCandidate
unfolding f32_min apply_direct apply_reciprocal
apply c update =
    apply_reciprocal (apply_direct (record c { dist2 = f32_min c.dist2 update.dist2 }) update)
      update

pub new_candidate : RuntimeOverlayUpdate → RuntimeOverlayCandidate
unfolding apply
new_candidate update = apply (record empty { dst = update.dst }) update

-- `Ordering::then_with`
abbrev then_with : Ordering → Ordering → Ordering
then_with Ordering.eq next = next
then_with Ordering.lt next = Ordering.lt
then_with Ordering.gt next = Ordering.gt

-- `partial_cmp(..).unwrap_or(Equal)`
f32_compare : ℕ → ℕ → Ordering
f32_compare a b =
    if f32_lt a b then Ordering.lt else if f32_lt b a then Ordering.gt else Ordering.eq

pub runtime_retention_cmp : RuntimeOverlayCandidate → RuntimeOverlayCandidate → Ordering
unfolding f32_compare
runtime_retention_cmp a b = then_with (compare b.family_support a.family_support) (
    then_with (compare b.rank_mass a.rank_mass) (
      then_with (compare a.best_rank b.best_rank) (
        then_with (compare b.reciprocal_support a.reciprocal_support)
          (then_with (f32_compare a.dist2 b.dist2) (compare a.dst b.dst)))))

abbrev pub is_lt : Ordering → Bool
is_lt o = elim o [ Ordering.lt ↦ true | _ ↦ false ]

abbrev is_gt : Ordering → Bool
is_gt o = elim o [ Ordering.gt ↦ true | _ ↦ false ]

-- `max_by` over the slots behind the one at `idx`: of equals the last one.
pub worst_from :
    ℕ → RuntimeOverlayCandidate → ℕ → List RuntimeOverlayCandidate → ℕ × RuntimeOverlayCandidate
unfolding runtime_retention_cmp
worst_from idx worst next [] = (idx, worst)
worst_from idx worst next (c ∷ slots) =
    if is_gt (runtime_retention_cmp worst c)
    then worst_from idx worst (suc next) slots
    else worst_from next c (suc next) slots

-- The first slot of the update's id is updated.
pub apply_in : List RuntimeOverlayCandidate → RuntimeOverlayUpdate → List RuntimeOverlayCandidate
unfolding apply
apply_in [] update = []
apply_in (c ∷ slots) update =
    if c.dst == update.dst then apply c update ∷ slots else c ∷ apply_in slots update

pub replace_worst :
    List RuntimeOverlayCandidate → RuntimeOverlayCandidate → List RuntimeOverlayCandidate
unfolding worst_from
replace_worst [] candidate = []
replace_worst (c ∷ slots) candidate =
    let worst = worst_from 0 c 1 slots in
    if is_lt (runtime_retention_cmp candidate worst.1)
    then set (c ∷ slots) worst.0 candidate
    else c ∷ slots

abbrev pub dsts : List RuntimeOverlayCandidate → List ℕ
dsts = map (λ c. c.dst)

pub insert_update :
    List RuntimeOverlayCandidate → RuntimeOverlayUpdate → ℕ → List RuntimeOverlayCandidate
unfolding apply_in new_candidate replace_worst
insert_update slots update capacity =
    let bound = min capacity runtime_overlay_max_slots in
    if bound == 0
    then slots
    else if contains update.dst (dsts slots)
    then apply_in slots update
    else if ltb (length slots) bound
    then slots ++ (new_candidate update ∷ [])
    else replace_worst slots (new_candidate update)
