-- ===== src/Spill/Reduce/Whole.antt =====
-- The loop over the groups.
use mathlib.Core.List.{append-nil}
use native.Mathlib.Nat.{mod-eq_of_lt, suc-mul, mul-le-mul_right}
use forge_ann.Prelude.{
  ℕ, suc, ◌+◌, ◌-◌, ◌*◌, ◌^◌, ◌≤◌, ◌<◌, ◌≡◌, refl, subst, ◌∙◌, min, max, false, ltb, leb, ◌||◌,
  if◌then◌else◌, Bool-cases, inl, inr, some, List, [], ◌∷◌, ◌++◌, All, All-imp, arith, length,
}
use forge_ann.Prelude.Usize.{saturating_mul}
use forge_ann.Prelude.Results.{Result, ok, ◌>>=◌, Result-cases}
use forge_ann.Reservoir.{Reservoir, new}
use forge_ann.Spill.{SpillRecord, SpillError}
use forge_ann.Spill.Memory.{InMemorySpillSegment}
use forge_ann.Spill.Reduce.{
  add_usize, check_ranges, emit_empty_point_range, reduce_in_memory_segment_group_in_range,
  reduce_runs,
}
use forge_ann.Spill.Reduce.Rows.{
  candidates_of, candidates_of-append, candidates_of-none, rows, rows-cong, rows-add, emit_rows,
  emit_rows-append, emit_empty_points_lem,
}
use forge_ann.Spill.Reduce.Group.{group_order, reduce_group_lem}
use forge_ann.Spill.Reduce.Order.{
  Runs, run_orders, IsIn, AreRuns, IsWithin, group-IsWithin, group_order-IsWithin, range_lem,
  run_orders_above,
}

check_ranges_lem :
    (sp n shard end : ℕ) (group : List InMemorySpillSegment)
    → 0 < sp
    → min (shard * sp + sp) n ≡ end
    → All (IsIn sp n shard) group
    → check_ranges (shard * sp) end group ≡ ok tt
unfolding check_ranges
check_ranges_lem sp n shard end [] pos e a = refl
check_ranges_lem sp n shard end (s ∷ group) pos e (p, a) =
    let (lo, y, hi, top) = range_lem sp n shard s pos p in
    let fine : (ltb s.src_min (shard * sp) || leb end s.src_max) ≡ false = ground arith in
    rw fine (check_ranges_lem sp n shard end group pos e a)

-- A group that is not empty starts below `n`.
group_start :
    (sp n shard : ℕ) (group : List InMemorySpillSegment)
    → 0 < sp
    → 0 < length group
    → All (IsIn sp n shard) group
    → shard * sp < n
group_start sp n shard [] pos m a = absurd (omega arith)
group_start sp n shard (s ∷ group) pos m (p, a) =
    let (lo, y, hi, top) = range_lem sp n shard s pos p in omega arith

-- Candidates of a point outside a list's sources.
candidates_of-below :
    (p low : ℕ) (xs : List SpillRecord)
    → All (λ r. low ≤ r.src) xs
    → p < low
    → candidates_of p xs ≡ []
candidates_of-below p low xs a h =
    candidates_of-none p xs (All-imp (λ r k e. absurd (omega arith)) xs a)

candidates_of-above :
    (p high : ℕ) (xs : List SpillRecord)
    → All (λ r. r.src < high) xs
    → high ≤ p
    → candidates_of p xs ≡ []
candidates_of-above p high xs a h =
    candidates_of-none p xs (All-imp (λ r k e. absurd (omega arith)) xs a)

candidates_of-left :
    (p : ℕ) (xs ys : List SpillRecord)
    → candidates_of p ys ≡ []
    → candidates_of p (xs ++ ys) ≡ candidates_of p xs
candidates_of-left p xs ys e = candidates_of-append p xs ys ∙ rw e (append-nil (candidates_of p xs))

candidates_of-right :
    (p : ℕ) (xs ys : List SpillRecord)
    → candidates_of p xs ≡ []
    → candidates_of p (xs ++ ys) ≡ candidates_of p ys
candidates_of-right p xs ys e = candidates_of-append p xs ys ∙ rw e refl

-- The rows of the points before a group, of the group, and after it.
record Parts (l sp n shard next gs se : ℕ) (group : List InMemorySpillSegment)
    (later : List SpillRecord) : Type 0 where
  before : (q : ℕ) → q < shard * sp → candidates_of q (group_order group ++ later) ≡ []
  inside :
      rows l (group_order group ++ later) gs (se - gs) ≡ rows l (group_order group) gs (se - gs)
  after : rows l (group_order group ++ later) se (n - se) ≡ rows l later se (n - se)
  split :
      rows l (group_order group ++ later) next (n - next)
      ≡ rows l (group_order group ++ later) next (gs - next)
        ++ (rows l (group_order group ++ later) gs (se - gs)
            ++ rows l (group_order group ++ later) se (n - se))

parts_lem :
    (l sp n shard next gs se : ℕ) (group : List InMemorySpillSegment) (later : List SpillRecord)
    → 0 < sp
    → All (IsIn sp n shard) group
    → All (λ r. shard * sp + sp ≤ r.src) later
    → min (shard * sp + sp) n ≡ se
    → next ≤ gs
    → gs < se
    → Parts l sp n shard next gs se group later
parts_lem l sp n shard next gs se group later pos a b e h k =
    let all = group_order group ++ later in
    let here = group_order-IsWithin sp n shard group pos a in
    let low = All-imp (λ r q. q.0) (group_order group) here in
    let high : All (λ r. r.src < se) (group_order group) =
      All-imp (λ r q. below r q) (group_order group) here in
    record {
      before = λ q lt.
          candidates_of-right q (group_order group) later
            (candidates_of-below q (shard * sp) (group_order group) low lt)
          ∙ candidates_of-below q (shard * sp + sp) later b (omega arith);
      inside = rows-cong l all (group_order group) gs (se - gs) (λ q x y.
          candidates_of-left q (group_order group) later
            (candidates_of-below q (shard * sp + sp) later b (omega arith)));
      after = rows-cong l all later se (n - se) (λ q x y.
          candidates_of-right q (group_order group) later
            (candidates_of-above q se (group_order group) high x));
      split =
          let s : n - next ≡ (gs - next) + ((se - gs) + (n - se)) = omega arith in
          let f : next + (gs - next) ≡ gs = omega arith in
          let g : gs + (se - gs) ≡ se = omega arith in
          rw
            (
              s,
              rows-add l all next (gs - next) ((se - gs) + (n - se)),
              f,
              rows-add l all gs (se - gs) (n - se),
              g,
            )
            refl;
    }
  where
    below : (r : SpillRecord) → IsWithin sp n shard r → r.src < se
    below r (lo, hi, (lt, c)) = omega arith

module _ {S : Type 0} (on_point_done : ℕ → List ℕ → S → Result SpillError S) where
  gap_lem :
      (l next gs : ℕ) {r : Reservoir} (xs : List SpillRecord) (s : S)
      → new l ≡ some r
      → ((q : ℕ) → next ≤ q → q < gs → candidates_of q xs ≡ [])
      → (if ltb next gs then emit_empty_point_range on_point_done next gs s else ok s)
        ≡ emit_rows on_point_done (rows l xs next (gs - next)) s
  unfolding emit_empty_point_range rows emit_rows
  gap_lem l next gs xs s e h = elim (Bool-cases (ltb next gs)) [
    | inl some_points ↦ rw some_points (
        emit_empty_points_lem on_point_done l xs next (gs - next) s e
          (λ q a b. h q a (omega arith)))
    | inr none_here ↦ let z : gs - next ≡ 0 = ground arith in rw (none_here, z) refl
  ]

  -- Three stretches of rows, the middle one written by a group.
  three_lem :
      (xs ys zs : List (ℕ × List ℕ)) (s : S) (check : Result SpillError (Unit {0}))
      (group rest : S → Result SpillError S)
      → check ≡ ok tt
      → ((t : S) → group t ≡ emit_rows on_point_done ys t)
      → ((t : S) → rest t ≡ emit_rows on_point_done zs t)
      → (emit_rows on_point_done xs s >>= λ s1. check >>= λ _. group s1 >>= λ s2. rest s2)
        ≡ emit_rows on_point_done (xs ++ (ys ++ zs)) s
  three_lem xs ys zs s check group rest c g h =
      rw (emit_rows-append on_point_done xs (ys ++ zs) s, c)
        (elim (Result-cases (emit_rows on_point_done xs s)) [
          | inl (s1, e) ↦
              rw (e, g s1, emit_rows-append on_point_done ys zs s1)
                (elim (Result-cases (emit_rows on_point_done ys s1)) [
                  | inl (s2, f) ↦ rw f (h s2)
                  | inr (x, f) ↦ rw f refl
                ])
          | inr (x, e) ↦ rw e refl
        ])

  module _ (n start l sp : ℕ) {r : Reservoir} (fresh : new l ≡ some r) (pos : 0 < sp)
      (fits : n + sp ≤ 2 ^ 64) where
    pub reduce_runs_lem :
        (low next : ℕ) (runs : Runs) (s : S)
        → AreRuns sp n low runs
        → next ≤ max (low * sp) start
        → start ≤ next
        → next ≤ n
        → reduce_runs on_point_done n start l sp next runs s
          ≡ emit_rows on_point_done (rows l (run_orders runs) next (n - next)) s
    unfolding reduce_runs candidates_of
    reduce_runs_lem low next [] s a h k m = gap_lem l next n [] s fresh (λ q x y. refl)
    reduce_runs_lem low next ((t, group) ∷ runs) s (below, full, good, a) h k m =
        let first = group_start sp n t group pos full good in
        let product : saturating_mul t sp ≡ t * sp = omega arith in
        let sum : add_usize (t * sp) sp ≡ t * sp + sp = mod-eq_of_lt (omega arith) in
        let se = min (t * sp + sp) n in
        let gs = max (t * sp) start in
        let up : low * sp ≤ t * sp = mul-le-mul_right sp below in
        let next_shard = suc-mul t sp in
        let enters : leb n (t * sp) ≡ false = ground arith in
        let later : All (λ q. t * sp + sp ≤ q.src) (run_orders runs) =
          subst (λ b. All (λ q. b ≤ q.src) (run_orders runs)) next_shard
            (run_orders_above sp n (suc t) runs pos a) in
        elim (Bool-cases (leb se start)) [
          | inl skipped ↦
              let here = group_order-IsWithin sp n t group pos good in
              let cut =
                rows-cong l (group_order group ++ run_orders runs) (run_orders runs) next (n - next)
                  (λ q x y. candidates_of-right q (group_order group) (run_orders runs) (
                    candidates_of-above q se (group_order group)
                      (All-imp (λ z (lo, hi, (lt, c)). omega arith) (group_order group) here)
                      (ground arith))) in
              rw (reduce_runs, product, enters, product, sum, skipped, cut)
                (reduce_runs_lem (suc t) next runs s a (ground arith) k m)
          | inr reduced ↦
              let ahead : start < se = ground arith in
              let parts =
                parts_lem l sp n t next gs se group (run_orders runs) pos good later refl
                  (omega arith) (omega arith) in
              rw
                (
                  reduce_runs,
                  product,
                  enters,
                  product,
                  sum,
                  reduced,
                  product,
                  sum,
                  gap_lem l next gs (group_order group ++ run_orders runs) s fresh
                      (λ q x y. parts.before q (omega arith)),
                  parts.split,
                  parts.inside,
                  parts.after,
                )
                (three_lem (rows l (group_order group ++ run_orders runs) next (gs - next))
                  (rows l (group_order group) gs (se - gs)) (rows l (run_orders runs) se (n - se)) s
                  (check_ranges (t * sp) se group)
                  (λ s1. reduce_in_memory_segment_group_in_range on_point_done gs se l sp group s1)
                  (λ s2. reduce_runs on_point_done n start l sp se runs s2)
                  (check_ranges_lem sp n t se group pos refl good)
                  (λ s1.
                    reduce_group_lem on_point_done gs se l sp group s1 fresh (omega arith)
                      (omega arith) (omega arith)
                      (All-imp
                        (λ z q. All-imp (λ y (lo, hi, (lt, c)). (omega arith, c)) z.records q) group
                        (group-IsWithin sp n t group pos good)))
                  (λ s2.
                    reduce_runs_lem (suc t) se runs s2 a (omega arith) (omega arith) (omega arith)))
        ]
