-- ===== src/Reservoir/Outcome.antt =====
-- What one `insert` of HashPruneReservoir does to a reservoir without NaNs, told without its
-- searches and scans.
use forge_ann.Prelude.{
  ℕ, ◌≤◌, ◌<◌, ◌≡◌, refl, sym, subst, ap, ◌∙◌, some, length, get_elem?, All, ◌≢◌, true, false,
}
use forge_ann.Float32.{key, is_nan, f32_lt}
use forge_ann.Reservoir.{Slot, Reservoir, new_slot, insert}
use forge_ann.Reservoir.Ordered.{ordered_insert, Lacks}
use forge_ann.Reservoir.Farthest.{distance, distance_at, Within}
use forge_ann.Reservoir.Invariant.{IsValid, IsFarthest, swapped}
use forge_ann.Reservoir.Adding.{slots-appended}
use forge_ann.Reservoir.Run.{FarthestOf, distance_at-get_elem?}
use forge_ann.Reservoir.Rules.{
  Rival, same_target, same_hash, farthest, Change, added, refused, replaced, insert-Follows,
}
use forge_ann.Reservoir.Insert.{IsCandidate, Change-IsValid, Change-IsFarthest}

-- The slot that a candidate has to beat.
pub data Opponent (r : Reservoir) (target hash : ℕ) (s : Slot) : Type 0 where
  -- the target is there already
  holds_target : s.target ≡ target → Opponent r target hash s
  -- the reservoir is full, and `s` is a farthest slot of those that hold this hash
  farthest_of_hash :
      Lacks target r.slots
      → r.l_max ≤ length r.slots
      → s.hash ≡ hash
      → FarthestOf hash s r.slots
      → Opponent r target hash s
  -- the reservoir is full and no slot holds this hash, and `s` is a farthest slot of all
  farthest_of_all :
      Lacks target r.slots
      → r.l_max ≤ length r.slots
      → All (λ (x : Slot). x.hash ≢ hash) r.slots
      → All (λ (x : Slot). key (distance x) ≤ key (distance s)) r.slots
      → Opponent r target hash s

-- The slots after the candidate has been offered.
pub data Outcome (r : Reservoir) (target hash dist : ℕ) (r' : Reservoir) : Type 0 where
  joined :
      Lacks target r.slots
      → length r.slots < r.l_max
      → r'.slots ≡ ordered_insert (new_slot target hash dist) r.slots
      → Outcome r target hash dist r'
  -- the candidate is not nearer
  ignored :
      (pos : ℕ) (s : Slot)
      → get_elem? r.slots pos ≡ some s
      → Opponent r target hash s
      → f32_lt dist (distance s) ≡ false
      → r' ≡ r
      → Outcome r target hash dist r'
  -- the candidate is nearer
  took_over :
      (pos : ℕ) (s : Slot)
      → get_elem? r.slots pos ≡ some s
      → Opponent r target hash s
      → f32_lt dist (distance s) ≡ true
      → r'.slots ≡ swapped r.slots pos (new_slot target hash dist)
      → Outcome r target hash dist r'

Rival-Opponent :
    {r : Reservoir} {target hash pos : ℕ} {s : Slot}
    → IsValid r
    → IsFarthest r
    → get_elem? r.slots pos ≡ some s
    → Rival r target hash pos s
    → Opponent r target hash s
Rival-Opponent v f e (same_target t) = holds_target t
Rival-Opponent v f e (same_hash l full h most) = farthest_of_hash l full h (most f.numbers)
Rival-Opponent {r} {pos} {s} v f e (farthest l full misses cached) =
    let here : distance s ≡ r.farthest_dist =
      sym (distance_at-get_elem? r.slots pos e) ∙ ap (distance_at r.slots) cached ∙ v.held in
    farthest_of_all l full misses (subst (λ d. All (Within d) r.slots) (sym here) f.most)

Change-Outcome :
    {r : Reservoir} {target hash dist : ℕ} {r' : Reservoir}
    → IsValid r
    → IsFarthest r
    → Change r target hash dist r'
    → Outcome r target hash dist r'
Change-Outcome {r} {target = t} {hash = h} {dist = d} v f (added l room) =
    joined l room (slots-appended r (new_slot t h d)).0
Change-Outcome v f (refused pos s e rival far) =
    ignored pos s e (Rival-Opponent v f e rival) far refl
Change-Outcome v f (replaced pos s e rival near) =
    took_over pos s e (Rival-Opponent v f e rival) near refl

-- A candidate that is no NaN, offered to a valid reservoir without NaNs whose cache names a
-- farthest slot. The insertion succeeds. A slot of the same target is replaced; without one the
-- candidate joins while there is room, in the order of the hashes; a full reservoir replaces a
-- farthest slot of the same hash, or if there is none, a farthest of all; each replacement only if
-- the candidate is nearer, and else nothing changes. The reservoir stays valid with its capacity,
-- and its cache names a farthest slot again.
pub insert-Outcome :
    (r : Reservoir) (target hash dist : ℕ)
    → IsValid r
    → IsFarthest r
    → IsCandidate hash dist
    → is_nan dist ≡ false
    → (r' : Reservoir) × (insert r target hash dist ≡ some r')
      × Outcome r target hash dist r'
      × IsValid r'
      × IsFarthest r'
      × (r'.l_max ≡ r.l_max)
insert-Outcome r target hash dist v f c n =
    let (r', e, ch) = insert-Follows r target hash dist v in
    let (v', l) = Change-IsValid v c ch in
    (r', e, Change-Outcome v f ch, v', Change-IsFarthest f c.1 n ch, l)
