-- ===== src/Reservoir/Insert.antt =====
-- One `insert` of HashPruneReservoir, and any sequence of them: the invariant, the farthest cache, and
-- the fate of each target.
use mathlib.Core.Option.{some-injective, none-ne-some}
use native.Mathlib.Nat.{le_refl}
use forge_ann.Prelude.{
  ℕ, ◌^◌, ◌≤◌, ◌<◌, ◌≡◌, refl, sym, subst, ◌==◌, if◌then◌else◌, some, none, List, length, get_elem?,
  All-get_elem?, lt_of_get_elem?, arith, ◌∙◌, ◌⊎◌, inl, ◌≢◌, false,
}
use forge_ann.Float32.{key, is_nan}
use forge_ann.Float32.Bounds.{truncated-no-nan, truncated-le, from_f32-lt, key_of_f32_lt}
use forge_ann.Reservoir.{Slot, Reservoir, new_slot, insert}
use forge_ann.Reservoir.Ordered.{
  find, Lacks, IsDistinct, delete_at, delete_at-Lacks, All-delete_at, find-of_Lacks,
  find-ordered_insert, find-delete_at, find-get_elem?,
}
use forge_ann.Reservoir.Farthest.{distance, distance_at, refreshed}
use forge_ann.Reservoir.Invariant.{
  IsValid, IsFarthest, IsWord, swapped, replaced-IsValid, replaced-IsFarthest,
}
use forge_ann.Reservoir.Adding.{appended, appended-IsValid, appended-IsFarthest, slots-appended}
use forge_ann.Reservoir.Rules.{
  Rival, same_target, same_hash, farthest, Change, added, refused, replaced, insert-Follows,
}

-- A candidate of 32-bit distance and 16-bit hash.
abbrev pub IsCandidate : ℕ → ℕ → Type 0
IsCandidate hash dist = (hash < 2 ^ 16) × (dist < 2 ^ 32)

-- Whatever the candidate beats, its target is nowhere else.
Rival-Lacks :
    {r : Reservoir} {target hash pos : ℕ} {s : Slot}
    → IsValid r
    → get_elem? r.slots pos ≡ some s
    → Rival r target hash pos s
    → Lacks target (delete_at pos r.slots)
Rival-Lacks {r} {target} {hash} {pos} v e (same_target t) =
    subst (λ u. Lacks u (delete_at pos r.slots)) t (delete_at-Lacks pos r.slots v.distinct e)
Rival-Lacks {r} {target} {hash} {pos} v e (same_hash l _ _ _) = All-delete_at _ pos r.slots l
Rival-Lacks {r} {target} {hash} {pos} v e (farthest l _ _ _) = All-delete_at _ pos r.slots l

pub Change-IsValid :
    {r : Reservoir} {target hash dist : ℕ} {r' : Reservoir}
    → IsValid r
    → IsCandidate hash dist
    → Change r target hash dist r'
    → IsValid r' × (r'.l_max ≡ r.l_max)
Change-IsValid {r} {target = t} {hash = h} {dist = d} v c (added l room) = (
  appended-IsValid r (new_slot t h d) v (c.0, from_f32-lt d) l room,
  (slots-appended r (new_slot t h d)).1,
)
Change-IsValid v c (refused pos s e rival far) = (v, refl)
Change-IsValid {r} {target = t} {hash = h} {dist = d} v c (replaced pos s e rival near) = (
  replaced-IsValid r pos (new_slot t h d) v (lt_of_get_elem? r.slots pos e) (c.0, from_f32-lt d)
      (Rival-Lacks v e rival),
  refl,
)

pub Change-IsFarthest :
    {r : Reservoir} {target hash dist : ℕ} {r' : Reservoir}
    → IsFarthest r
    → dist < 2 ^ 32
    → is_nan dist ≡ false
    → Change r target hash dist r'
    → IsFarthest r'
Change-IsFarthest {r} {target = t} {hash = h} {dist = d} f b n (added l room) =
    appended-IsFarthest r (new_slot t h d) f (truncated-no-nan d b n)
Change-IsFarthest f b n (refused pos s e rival far) = f
Change-IsFarthest {r} {target = t} {hash = h} {dist = d} f b n (replaced pos s e rival near) =
    replaced-IsFarthest r pos (new_slot t h d) f (truncated-no-nan d b n)

-- `insert` never panics on a valid reservoir, and keeps it valid and its capacity as it is, for
-- every distance, NaN and infinities included.
pub insert-IsValid :
    (r : Reservoir) (target hash dist : ℕ)
    → IsValid r
    → IsCandidate hash dist
    → (r' : Reservoir) × (insert r target hash dist ≡ some r') × IsValid r' × (r'.l_max ≡ r.l_max)
insert-IsValid r target hash dist v c =
    let (r', e, ch) = insert-Follows r target hash dist v in
    let (v', l) = Change-IsValid v c ch in (r', e, v', l)

-- On a valid reservoir without NaNs, a candidate that is no NaN leaves the cache at a farthest
-- slot: its index is in range, its distance is the cached one, and no slot is farther.
pub insert-IsFarthest :
    (r : Reservoir) (target hash dist : ℕ) {r' : Reservoir}
    → IsValid r
    → IsFarthest r
    → IsCandidate hash dist
    → is_nan dist ≡ false
    → insert r target hash dist ≡ some r'
    → (distance_at r'.slots r'.farthest_idx ≡ r'.farthest_dist) × IsFarthest r'
insert-IsFarthest r target hash dist {r'} v f c n e =
    let (q, e', ch) = insert-Follows r target hash dist v in
    let same : q ≡ r' = some-injective _ _ (sym e' ∙ e) in
    subst (λ x. (distance_at x.slots x.farthest_idx ≡ x.farthest_dist) × IsFarthest x) same
      ((Change-IsValid v c ch).0.held, Change-IsFarthest f c.1 n ch)

find-swapped :
    (u pos : ℕ) (xs : List Slot) (new : Slot) {s : Slot}
    → IsDistinct xs
    → get_elem? xs pos ≡ some s
    → Lacks new.target (delete_at pos xs)
    → find u (swapped xs pos new)
      ≡ (if new.target == u then some new else if s.target == u then none else find u xs)
find-swapped u pos xs new d e l =
    rw (find-ordered_insert u new (delete_at pos xs) l, find-delete_at u pos xs d e)

find-appended :
    (u : ℕ) (r : Reservoir) (new : Slot)
    → Lacks new.target r.slots
    → find u (appended r new).slots ≡ (if new.target == u then some new else find u r.slots)
find-appended u r new l = rw ((slots-appended r new).0, find-ordered_insert u new r.slots l)

-- What is stored under another target.
abbrev pub Evicted : Reservoir → Reservoir → ℕ → Type 0
Evicted r r' u = (r.l_max ≤ length r.slots) × (find u r'.slots ≡ none)

Change-find_other :
    {r : Reservoir} {target hash dist : ℕ} {r' : Reservoir} (u : ℕ)
    → IsValid r
    → u ≢ target
    → Change r target hash dist r'
    → (find u r'.slots ≡ find u r.slots) ⊎ Evicted r r' u
Change-find_other {r} {target = t} {hash = h} {dist = d} u v ne (added l room) =
    inl (rw (find-appended u r (new_slot t h d) l) (ground arith))
Change-find_other u v ne (refused pos s e rival far) = inl refl
Change-find_other {r} {target = t} {hash = h} {dist = d} u v ne (replaced pos s e rival near) =
    other rival
  where
    after :
        find u (swapped r.slots pos (new_slot t h d))
        ≡ (if t == u then some (new_slot t h d) else if s.target == u then none else find u r.slots)
    after = find-swapped u pos r.slots (new_slot t h d) v.distinct e (Rival-Lacks v e rival)

    other :
        Rival r t h pos s
        → (find u (swapped r.slots pos (new_slot t h d)) ≡ find u r.slots)
          ⊎ ((r.l_max ≤ length r.slots) × (find u (swapped r.slots pos (new_slot t h d)) ≡ none))
    other (same_target p) = ground (arith, after)
    other (same_hash _ full _ _) = ground (arith, after)
    other (farthest _ full _ _) = ground (arith, after)

-- What is stored under the candidate's target, if it was there.
abbrev pub Nearer : ℕ → Slot → Reservoir → Type 0
Nearer target s r' =
    (s' : Slot) × (find target r'.slots ≡ some s') × (key (distance s') ≤ key (distance s))

Change-find_present :
    {r : Reservoir} {target hash dist : ℕ} {r' : Reservoir} {s : Slot}
    → IsValid r
    → IsCandidate hash dist
    → find target r.slots ≡ some s
    → Change r target hash dist r'
    → Nearer target s r' × ((u : ℕ) → u ≢ target → find u r'.slots ≡ find u r.slots)
Change-find_present {r} {target = t} {s} v c f (added l room) =
    absurd (none-ne-some s (sym (find-of_Lacks t r.slots l) ∙ f))
Change-find_present {s} v c f (refused pos _ e rival far) = ((s, f, le_refl _), λ u ne. refl)
Change-find_present {r} {target = t} {hash = h} {dist = d} {s} v c f
      (replaced pos old e rival near) =
    present rival
  where
    after :
        (u : ℕ)
        → find u (swapped r.slots pos (new_slot t h d)) ≡ (
            if t == u
            then some (new_slot t h d)
            else if old.target == u
            then none
            else find u r.slots)
    after u = find-swapped u pos r.slots (new_slot t h d) v.distinct e (Rival-Lacks v e rival)

    nearer : key (distance (new_slot t h d)) ≤ key (distance old)
    nearer =
        truncated-le d old.dist c.1 (All-get_elem? IsWord r.slots pos v.words e).1
          (omega (arith, key_of_f32_lt d (distance old) near))

    present :
        Rival r t h pos old
        → Nearer t s (refreshed r (swapped r.slots pos (new_slot t h d)))
          × ((u : ℕ) → u ≢ t → find u (swapped r.slots pos (new_slot t h d)) ≡ find u r.slots)
    present (same_target p) =
        let same : old ≡ s = some-injective _ _ (
          sym (subst (λ k. find k r.slots ≡ some old) p (find-get_elem? pos r.slots v.distinct e))
          ∙ f) in
        (
          (
            new_slot t h d,
            ground (arith, after t),
            subst (λ (x : Slot). key (distance (new_slot t h d)) ≤ key (distance x)) same nearer,
          ),
          λ u ne. ground (arith, after u),
        )
    present (same_hash l _ _ _) = absurd (none-ne-some s (sym (find-of_Lacks t r.slots l) ∙ f))
    present (farthest l _ _ _) = absurd (none-ne-some s (sym (find-of_Lacks t r.slots l) ∙ f))

-- The outcome of a known insertion follows the rules.
insert-Change :
    (r : Reservoir) (target hash dist : ℕ) {r' : Reservoir}
    → IsValid r
    → insert r target hash dist ≡ some r'
    → Change r target hash dist r'
insert-Change r target hash dist v e =
    let (q, e', ch) = insert-Follows r target hash dist v in
    subst (Change r target hash dist) (some-injective _ _ (sym e' ∙ e)) ch

-- After an insertion into a valid reservoir, a target other than the candidate's reads as before,
-- or the reservoir was full and the target is gone.
pub insert-find_other :
    (r : Reservoir) (target hash dist u : ℕ) {r' : Reservoir}
    → IsValid r
    → insert r target hash dist ≡ some r'
    → u ≢ target
    → (find u r'.slots ≡ find u r.slots) ⊎ Evicted r r' u
insert-find_other r target hash dist u v e ne =
    Change-find_other u v ne (insert-Change r target hash dist v e)

-- A candidate whose target is stored never drops it or makes it farther, and touches no other
-- target.
pub insert-find_present :
    (r : Reservoir) (target hash dist : ℕ) {r' : Reservoir} {s : Slot}
    → IsValid r
    → IsCandidate hash dist
    → find target r.slots ≡ some s
    → insert r target hash dist ≡ some r'
    → Nearer target s r' × ((u : ℕ) → u ≢ target → find u r'.slots ≡ find u r.slots)
insert-find_present r target hash dist v c f e =
    Change-find_present v c f (insert-Change r target hash dist v e)
