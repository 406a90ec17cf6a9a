-- ===== src/SpineOverlay/Accumulator/Rows.antt =====
-- The ids of a row: each once, and no more than the capacity.
use forge_ann.Prelude.{
  ℕ, zero, suc, ◌≤◌, ◌<◌, ◌≡◌, ◌≢◌, refl, ap, sym, ◌∙◌, min, true, false, ltb, ◌==◌, Bool-cases,
  inl, inr, List, [], ◌∷◌, ◌++◌, length, length-append, length-map, set, contains, contains-append,
  All, All-imp, AreDistinct, Within, Within-refl, Absent-of_contains, AreDistinct-append_one, arith,
}
use forge_ann.SpineOverlay.Accumulator.{
  RuntimeOverlayUpdate, RuntimeOverlayCandidate, apply, apply_direct, apply_reciprocal, empty,
  new_candidate, runtime_retention_cmp, is_lt, worst_from, apply_in, replace_worst, dsts,
  insert_update,
}

apply_direct-dst :
    (c : RuntimeOverlayCandidate) (u : RuntimeOverlayUpdate) → (apply_direct c u).dst ≡ c.dst
unfolding apply_direct
apply_direct-dst c u = ground arith

apply_reciprocal-dst :
    (c : RuntimeOverlayCandidate) (u : RuntimeOverlayUpdate) → (apply_reciprocal c u).dst ≡ c.dst
unfolding apply_reciprocal
apply_reciprocal-dst c u = ground arith

apply-dst : (c : RuntimeOverlayCandidate) (u : RuntimeOverlayUpdate) → (apply c u).dst ≡ c.dst
unfolding apply
apply-dst c u = apply_reciprocal-dst _ u ∙ apply_direct-dst _ u

dsts-apply_in :
    (slots : List RuntimeOverlayCandidate) (u : RuntimeOverlayUpdate)
    → dsts (apply_in slots u) ≡ dsts slots
unfolding apply_in
dsts-apply_in [] u = refl
dsts-apply_in (c ∷ slots) u = elim (Bool-cases (c.dst == u.dst)) [
  | inl same ↦ rw (same, apply-dst c u) refl
  | inr other ↦ rw (other, dsts-apply_in slots u) refl
]

dsts-append_one :
    (slots : List RuntimeOverlayCandidate) (c : RuntimeOverlayCandidate)
    → dsts (slots ++ (c ∷ [])) ≡ dsts slots ++ (c.dst ∷ [])
dsts-append_one [] c = refl
dsts-append_one (s ∷ slots) c = ap (λ l. s.dst ∷ l) (dsts-append_one slots c)

dsts-set :
    (slots : List RuntimeOverlayCandidate) (i : ℕ) (c : RuntimeOverlayCandidate)
    → dsts (set slots i c) ≡ set (dsts slots) i c.dst
dsts-set [] i c = refl
dsts-set (s ∷ slots) zero c = refl
dsts-set (s ∷ slots) (suc i) c = ap (λ l. s.dst ∷ l) (dsts-set slots i c)

All-set : (P : ℕ → Type 0) (xs : List ℕ) (i v : ℕ) → P v → All P xs → All P (set xs i v)
All-set P [] i v p a = tt
All-set P (x ∷ xs) zero v p (q, a) = (p, a)
All-set P (x ∷ xs) (suc i) v p (q, a) = (q, All-set P xs i v p a)

AreDistinct-set :
    (xs : List ℕ) (i v : ℕ) → All (λ y. y ≢ v) xs → AreDistinct xs → AreDistinct (set xs i v)
AreDistinct-set [] i v n d = tt
AreDistinct-set (x ∷ xs) zero v (p, n) (l, d) = (n, d)
AreDistinct-set (x ∷ xs) (suc i) v (p, n) (l, d) =
    (All-set (λ y. y ≢ x) xs i v (λ q. p (sym q)) l, AreDistinct-set xs i v n d)

length-set : (xs : List ℕ) (i v : ℕ) → length (set xs i v) ≡ length xs
length-set [] i v = refl
length-set (x ∷ xs) zero v = refl
length-set (x ∷ xs) (suc i) v = ap suc (length-set xs i v)

pub record IsRow (bound : ℕ) (ids : List ℕ) : Type 0 where
  pub few : length ids ≤ bound
  pub distinct : AreDistinct ids

replace_worst-IsRow :
    (bound : ℕ) (slots : List RuntimeOverlayCandidate) (c : RuntimeOverlayCandidate)
    → contains c.dst (dsts slots) ≡ false
    → IsRow bound (dsts slots)
    → IsRow bound (dsts (replace_worst slots c))
unfolding replace_worst
replace_worst-IsRow bound [] c f v = v
replace_worst-IsRow bound (s ∷ slots) c f v =
    let worst = worst_from 0 s 1 slots in
    elim (Bool-cases (is_lt (runtime_retention_cmp c worst.1))) [
      | inl better ↦
          let n = Absent-of_contains (dsts (s ∷ slots)) c.dst f in
          let size = length-set (dsts (s ∷ slots)) worst.0 c.dst in
          let low = v.few in
          rw (better, dsts-set (s ∷ slots) worst.0 c)
            (record {
              few = omega arith;
              distinct = AreDistinct-set (dsts (s ∷ slots)) worst.0 c.dst n v.distinct;
            })
      | inr worse ↦ rw worse v
    ]

new_candidate-dst : (u : RuntimeOverlayUpdate) → (new_candidate u).dst ≡ u.dst
unfolding new_candidate
new_candidate-dst u = apply-dst (record empty { dst = u.dst }) u

-- An insertion keeps the ids of a row distinct and within the capacity, of at most 16 slots. An id that the row
-- has changes no id; and while the row is not full, the id is in the row afterwards, and all that
-- were there before.
pub insert_update-IsRow :
    (slots : List RuntimeOverlayCandidate) (u : RuntimeOverlayUpdate) (capacity : ℕ)
    → IsRow (min capacity 16) (dsts slots)
    → IsRow (min capacity 16) (dsts (insert_update slots u capacity))
      × (contains u.dst (dsts slots) ≡ true → dsts (insert_update slots u capacity) ≡ dsts slots)
      × (length slots < min capacity 16
          → (contains u.dst (dsts (insert_update slots u capacity)) ≡ true)
            × Within (dsts (insert_update slots u capacity)) (dsts slots))
unfolding insert_update
insert_update-IsRow slots u capacity v = elim (Bool-cases (min capacity 16 == 0)) [
  | inl shut ↦ rw shut (v, (λ h. refl), (λ h. absurd (ground arith)))
  | inr some_slots ↦ elim (Bool-cases (contains u.dst (dsts slots))) [
    | inl old ↦
        rw (some_slots, old, dsts-apply_in slots u)
          (v, (λ h. refl), (λ h. (old, Within-refl (dsts slots))))
    | inr fresh ↦ elim (Bool-cases (ltb (length slots) (min capacity 16))) [
      | inl room ↦
          let self : (u.dst == u.dst) ≡ true = ground arith in
          let n = length-append (dsts slots) (u.dst ∷ []) in
          let m = length-map (λ (c : RuntimeOverlayCandidate). c.dst) slots in
          let k : length slots < min capacity 16 = ground arith in
          rw (some_slots, fresh, room, dsts-append_one slots (new_candidate u), new_candidate-dst u)
            (
              record {
                few = omega arith;
                distinct =
                    AreDistinct-append_one (dsts slots) u.dst v.distinct
                      (Absent-of_contains (dsts slots) u.dst fresh);
              },
              (λ h. absurd (cc)),
              (λ h. (
                contains-append u.dst (dsts slots) (u.dst ∷ []) ∙ rw (fresh, self) refl,
                All-imp (λ x w. contains-append x (dsts slots) (u.dst ∷ []) ∙ rw w refl)
                    (dsts slots) (Within-refl (dsts slots)),
              )),
            )
      | inr full ↦
          let f : contains (new_candidate u).dst (dsts slots) ≡ false =
            rw (new_candidate-dst u) fresh in
          rw (some_slots, fresh, full)
            (
              replace_worst-IsRow (min capacity 16) slots (new_candidate u) f v,
              (λ h. absurd (cc)),
              (λ h. absurd (ground arith)),
            )
    ]
  ]
]
