-- ===== src/Reservoir/Invariant.antt =====
-- The representation invariant of `HashPruneReservoir`, and the two helpers that change its slots
-- as total functions that keep it.
use forge_ann.Prelude.{
  ℕ, zero, suc, ◌-◌, ◌^◌, ◌≤◌, ◌<◌, ◌≡◌, some, List, [], length, All, false, arith,
}
use forge_ann.Float32.{is_nan}
use forge_ann.Reservoir.{Slot, Reservoir, new, clear, replace_slot_sorted}
use forge_ann.Reservoir.Ordered.{
  ordered_insert, delete_at, IsSorted, IsDistinct, Lacks, insert_at-upper_bound,
  remove_at-delete_at, length-ordered_insert, length-delete_at, All-ordered_insert, All-delete_at,
  ordered_insert-IsSorted, delete_at-IsSorted, ordered_insert-IsDistinct, delete_at-IsDistinct,
}
use forge_ann.Reservoir.Farthest.{
  distance_at, IsNumber, Within, refreshed, refreshed-held, scanned_most,
  recompute_farthest_if_nonempty-refreshed,
}

abbrev pub IsWord : Slot → Type 0
IsWord s = (s.hash < 2 ^ 16) × (s.dist < 2 ^ 16)

-- Holds whatever the distances are, NaNs included.
pub record IsValid (r : Reservoir) : Type 0 where
  pub room : 0 < r.l_max
  pub bounded : length r.slots ≤ r.l_max
  pub sorted : IsSorted r.slots
  pub distinct : IsDistinct r.slots
  pub words : All IsWord r.slots
  pub cached_in : r.farthest_idx ≤ length r.slots - 1
  pub held : distance_at r.slots r.farthest_idx ≡ r.farthest_dist

-- The cached slot is a farthest one, where no distance is a NaN.
pub record IsFarthest (r : Reservoir) : Type 0 where
  pub numbers : All IsNumber r.slots
  pub number : is_nan r.farthest_dist ≡ false
  pub most : All (Within r.farthest_dist) r.slots

-- A new reservoir is valid.
pub new-IsValid : (l : ℕ) {r : Reservoir} → new l ≡ some r → IsValid r × IsFarthest r
unfolding new is_nan
new-IsValid zero e = cc
new-IsValid (suc l) e = ground arith

pub new-empty : (l : ℕ) {r : Reservoir} → new l ≡ some r → (r.l_max ≡ l) × (r.slots ≡ [])
unfolding new
new-empty zero e = cc
new-empty (suc l) e = ground arith

-- A cleared reservoir is as good as a new one.
pub clear-IsValid : (r : Reservoir) → IsValid r → IsValid (clear r) × IsFarthest (clear r)
unfolding clear is_nan
clear-IsValid r v = ground arith

pub refreshed-IsFarthest :
    (r : Reservoir) (slots : List Slot) → All IsNumber slots → IsFarthest (refreshed r slots)
refreshed-IsFarthest r slots h =
    let (n, m) = scanned_most slots h in record { numbers = h; number = n; most = m }

-- The slots after a replacement at `pos`.
abbrev pub swapped : List Slot → ℕ → Slot → List Slot
swapped slots pos slot = ordered_insert slot (delete_at pos slots)

pub replace_slot_sorted-refreshed :
    (r : Reservoir) (pos : ℕ) (slot : Slot)
    → pos < length r.slots
    → replace_slot_sorted r pos slot ≡ some (refreshed r (swapped r.slots pos slot))
unfolding replace_slot_sorted
replace_slot_sorted-refreshed r pos slot h = ground (
  arith,
  remove_at-delete_at pos r.slots h,
  insert_at-upper_bound slot (delete_at pos r.slots),
  recompute_farthest_if_nonempty-refreshed r (swapped r.slots pos slot),
)

pub replaced-IsValid :
    (r : Reservoir) (pos : ℕ) (slot : Slot)
    → IsValid r
    → pos < length r.slots
    → IsWord slot
    → Lacks slot.target (delete_at pos r.slots)
    → IsValid (refreshed r (swapped r.slots pos slot))
replaced-IsValid r pos slot v h w l =
    let (c, d) = refreshed-held (swapped r.slots pos slot) in
    record {
      room = v.room;
      bounded = omega (
        arith,
        v.bounded,
        length-ordered_insert slot (delete_at pos r.slots),
        length-delete_at pos r.slots h,
      );
      sorted = ordered_insert-IsSorted slot _ (delete_at-IsSorted pos r.slots v.sorted);
      distinct = ordered_insert-IsDistinct slot _ l (delete_at-IsDistinct pos r.slots v.distinct);
      words = All-ordered_insert IsWord slot _ w (All-delete_at IsWord pos r.slots v.words);
      cached_in = c;
      held = d;
    }

pub replaced-IsFarthest :
    (r : Reservoir) (pos : ℕ) (slot : Slot)
    → IsFarthest r
    → IsNumber slot
    → IsFarthest (refreshed r (swapped r.slots pos slot))
replaced-IsFarthest r pos slot f n =
    refreshed-IsFarthest r _
      (All-ordered_insert IsNumber slot _ n (All-delete_at IsNumber pos r.slots f.numbers))
