-- ===== src/SpineOverlay/Grows.antt =====
-- A row under the pushes, and the loops that push.
use forge_ann.Prelude.{
  ℕ, suc, ◌+◌, ◌≤◌, ◌<◌, ◌≡◌, refl, ◌∙◌, Bool, true, false, ◌||◌, leb, ◌==◌, if◌then◌else◌,
  Bool-cases, inl, inr, List, [], ◌∷◌, ◌++◌, length, length-append, contains, contains-append,
  Within-trans, All, All-imp, All-append, AreDistinct, Within, Within-refl, Absent-of_contains,
  AreDistinct-append_one, arith,
}
use forge_ann.SpineOverlay.{push_unique_id, keep_base, add_overlay, refill_base}

-- A row grows to another: nothing is lost or repeated, and what is new satisfies `P`.
pub record Grows (P : ℕ → Type 0) (selected later : List ℕ) : Type 0 where
  pub distinct : AreDistinct later
  pub all : All P later
  pub keeps : Within later selected

pub Grows-refl :
    (P : ℕ → Type 0) (selected : List ℕ)
    → AreDistinct selected
    → All P selected
    → Grows P selected selected
Grows-refl P selected d a = record { distinct = d; all = a; keeps = Within-refl selected }

pub push_lem :
    (P : ℕ → Type 0) (dst : ℕ) (selected : List ℕ)
    → P dst
    → AreDistinct selected
    → All P selected
    → Grows P selected (push_unique_id dst selected).1
      × (contains dst (push_unique_id dst selected).1 ≡ true)
      × (length (push_unique_id dst selected).1
          ≡ length selected + (if (push_unique_id dst selected).0 then 1 else 0))
unfolding push_unique_id
push_lem P dst selected p d a = elim (Bool-cases (contains dst selected)) [
  | inl old ↦ rw old (Grows-refl P selected d a, old, omega arith)
  | inr fresh ↦
      let self : (dst == dst) ≡ true = ground arith in
      let here : contains dst (selected ++ (dst ∷ [])) ≡ true =
        contains-append dst selected (dst ∷ []) ∙ rw (fresh, self) refl in
      rw fresh (
        record {
          distinct = AreDistinct-append_one selected dst d (Absent-of_contains selected dst fresh);
          all = All-append P selected (dst ∷ []) a (p, tt);
          keeps =
              All-imp (λ x h. contains-append x selected (dst ∷ []) ∙ rw h refl) selected
                (Within-refl selected);
        },
        here,
        length-append selected (dst ∷ []),
      )
]

pub Grows-trans :
    (P : ℕ → Type 0) {xs ys zs : List ℕ} → Grows P xs ys → Grows P ys zs → Grows P xs zs
Grows-trans P {xs} {ys} {zs} g h = record {
  distinct = h.distinct;
  all = h.all;
  keeps = Within-trans xs ys zs h.keeps g.keeps;
}

pub keep_base_lem :
    (P : ℕ → Type 0) (base selected : List ℕ)
    → All P base
    → AreDistinct selected
    → All P selected
    → Grows P selected (keep_base base selected)
      × Within (keep_base base selected) base
      × (length (keep_base base selected) ≤ length selected + length base)
unfolding keep_base
keep_base_lem P [] selected a d b = (Grows-refl P selected d b, tt, omega arith)
keep_base_lem P (dst ∷ base) selected (p, a) d b =
    let (g, here, n) = push_lem P dst selected p d b in
    let next = (push_unique_id dst selected).1 in
    let (h, kept, m) = keep_base_lem P base next a g.distinct g.all in
    let (first, unused) = Within-trans (dst ∷ []) next (keep_base base next) h.keeps (here, tt) in
    (
      Grows-trans P g h,
      (first, kept),
      at_most (push_unique_id dst selected).0 (length next) (length (keep_base base next))
          (length selected) (length base) n m,
    )
  where
    at_most : (b : Bool) (x y l k : ℕ) → x ≡ l + (if b then 1 else 0) → y ≤ x + k → y ≤ l + suc k
    at_most true x y l k q r = omega arith
    at_most false x y l k q r = omega arith

-- The row of the overlay loop: sizes and counters.
pub record Added (P : ℕ → Type 0) (m b added : ℕ) (selected : List ℕ) (out : List ℕ × ℕ)
    : Type 0 where
  pub grows : Grows P selected out.0
  pub sized : length out.0 + added ≡ length selected + out.1
  pub bounded : length selected ≤ m → length out.0 ≤ m
  pub counted : added ≤ b → out.1 ≤ b

pub add_overlay_lem :
    (P : ℕ → Type 0) (m b : ℕ) (overlay selected : List ℕ) (added : ℕ)
    → All P overlay
    → AreDistinct selected
    → All P selected
    → Added P m b added selected (add_overlay m b overlay selected added)
unfolding add_overlay
add_overlay_lem P m b [] selected added a d c = record {
  grows = Grows-refl P selected d c;
  sized = refl;
  bounded = λ h. h;
  counted = λ h. h;
}
add_overlay_lem P m b (dst ∷ overlay) selected added (p, a) d c =
    elim (Bool-cases (leb m (length selected) || leb b added)) [
      | inl stop ↦
          rw (add_overlay, stop)
            (record {
              grows = Grows-refl P selected d c;
              sized = refl;
              bounded = λ h. h;
              counted = λ h. h;
            })
      | inr go ↦
          let (g, here, n) = push_lem P dst selected p d c in
          let pushed = push_unique_id dst selected in
          let more =
            add_overlay_lem P m b overlay pushed.1 (if pushed.0 then suc added else added) a
              g.distinct g.all in
          let room : length selected < m = ground arith in
          let left : added < b = ground arith in
          rw (add_overlay, go) (step pushed.0 pushed.1 g n more room left)
    ]
  where
    step :
        (new : Bool) (next : List ℕ) {out : List ℕ × ℕ}
        → Grows P selected next
        → length next ≡ length selected + (if new then 1 else 0)
        → Added P m b (if new then suc added else added) next out
        → length selected < m
        → added < b
        → Added P m b added selected out
    step true next g n v room left =
        let s = v.sized in
        record {
          grows = Grows-trans P g v.grows;
          sized = omega arith;
          bounded = λ h. v.bounded (omega arith);
          counted = λ h. v.counted (omega arith);
        }
    step false next g n v room left =
        let s = v.sized in
        record {
          grows = Grows-trans P g v.grows;
          sized = omega arith;
          bounded = λ h. v.bounded (omega arith);
          counted = λ h. v.counted (omega arith);
        }

-- The row of the refill: if there is room left, the whole base row is in.
pub record Refilled (P : ℕ → Type 0) (m refill : ℕ) (base selected : List ℕ) (out : List ℕ × ℕ)
    : Type 0 where
  pub grows : Grows P selected out.0
  pub sized : length out.0 + refill ≡ length selected + out.1
  pub bounded : length selected ≤ m → length out.0 ≤ m
  pub complete : length out.0 < m → Within out.0 base

pub refill_base_lem :
    (P : ℕ → Type 0) (m : ℕ) (base selected : List ℕ) (refill : ℕ)
    → All P base
    → AreDistinct selected
    → All P selected
    → Refilled P m refill base selected (refill_base m base selected refill)
unfolding refill_base
refill_base_lem P m [] selected refill a d c = record {
  grows = Grows-refl P selected d c;
  sized = refl;
  bounded = λ h. h;
  complete = λ h. tt;
}
refill_base_lem P m (dst ∷ base) selected refill (p, a) d c =
    elim (Bool-cases (leb m (length selected))) [
      | inl stop ↦
          let full : m ≤ length selected = ground arith in
          rw (refill_base, stop)
            (record {
              grows = Grows-refl P selected d c;
              sized = refl;
              bounded = λ h. h;
              complete = λ h. absurd (omega arith);
            })
      | inr go ↦
          let (g, here, n) = push_lem P dst selected p d c in
          let pushed = push_unique_id dst selected in
          let more =
            refill_base_lem P m base pushed.1 (if pushed.0 then suc refill else refill) a g.distinct
              g.all in
          let room : length selected < m = ground arith in
          rw (refill_base, go) (step pushed.0 pushed.1 g here n more room)
    ]
  where
    step :
        (new : Bool) (next : List ℕ) {out : List ℕ × ℕ}
        → Grows P selected next
        → contains dst next ≡ true
        → length next ≡ length selected + (if new then 1 else 0)
        → Refilled P m (if new then suc refill else refill) base next out
        → length selected < m
        → Refilled P m refill (dst ∷ base) selected out
    step true next {out} g here n v room =
        let s = v.sized in
        record {
          grows = Grows-trans P g v.grows;
          sized = omega arith;
          bounded = λ h. v.bounded (omega arith);
          complete =
              λ h. ((Within-trans (dst ∷ []) next out.0 v.grows.keeps (here, tt)).0, v.complete h);
        }
    step false next {out} g here n v room =
        let s = v.sized in
        record {
          grows = Grows-trans P g v.grows;
          sized = omega arith;
          bounded = λ h. v.bounded (omega arith);
          complete =
              λ h. ((Within-trans (dst ∷ []) next out.0 v.grows.keeps (here, tt)).0, v.complete h);
        }
