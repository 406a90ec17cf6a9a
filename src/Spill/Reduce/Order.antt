-- ===== src/Spill/Reduce/Order.antt =====
-- The groups in the order of the shards, and the order in which all records are fed.
use mathlib.Core.List.{Perm, append_assoc}
use mathlib.Core.List.Perm
use native.Mathlib.Nat.{div-mul-le_self, lt-div-mul-add, mul-le-mul_right, le_trans}
use forge_ann.Prelude.{
  ℕ, suc, ◌+◌, ◌*◌, ◌/◌, ◌≤◌, ◌<◌, ◌≡◌, refl, ap, sym, subst, ◌∙◌, Bool, ◌==◌, Bool-cases, inl, inr,
  List, [], ◌∷◌, ◌++◌, All, All-imp, All-append, arith, length, map,
}
use forge_ann.Prelude.Sorting.{insert_by, sort_by, sort_by-perm, All-sort_by, Ascends}
use forge_ann.Spill.{SpillRecord}
use forge_ann.Spill.Memory.{InMemorySpillSegment, by_src}
use forge_ann.Spill.Memory.Contents.{spilled, IsSegment, IsOfShard}
use forge_ann.Spill.Memory.Flush.{perm_front, ends_lem}
use forge_ann.Spill.Reduce.{by_range, by_shard, sort_records, join_run, shard_runs}
use forge_ann.Spill.Reduce.Group.{IsBelow, group_order}

abbrev pub Runs : Type 0
Runs = List (ℕ × List InMemorySpillSegment)

-- The order in which the records of all groups are fed.
abbrev pub run_orders : Runs → List SpillRecord
run_orders [] = []
run_orders ((t, group) ∷ runs) = group_order group ++ run_orders runs

abbrev pub IsGood : ℕ → ℕ → InMemorySpillSegment → Type 0
IsGood sp n s = IsSegment sp s × All (IsBelow n) s.records

abbrev pub IsIn : ℕ → ℕ → ℕ → InMemorySpillSegment → Type 0
IsIn sp n shard s = (s.shard_id ≡ shard) × IsGood sp n s

-- Groups of good segments whose shards rise, the first of them at `low` or above.
abbrev pub AreRuns : ℕ → ℕ → ℕ → Runs → Type 0
AreRuns sp n low [] = Unit
AreRuns sp n low ((t, group) ∷ runs) =
    (low ≤ t) × (0 < length group) × All (IsIn sp n t) group × AreRuns sp n (suc t) runs

join_run_lem :
    (sp n low : ℕ) (s : InMemorySpillSegment) (runs : Runs)
    → low ≤ s.shard_id
    → IsGood sp n s
    → AreRuns sp n s.shard_id runs
    → AreRuns sp n low (join_run s runs)
unfolding join_run
join_run_lem sp n low s [] h g a = (h, omega arith, ((refl, g), tt), tt)
join_run_lem sp n low s ((t, group) ∷ runs) h g (k, m, b, a) = elim (Bool-cases (t == s.shard_id)) [
  | inl same ↦
      let e : s.shard_id ≡ t = ground arith in rw same (le_trans h k, omega arith, ((e, g), b), a)
  | inr other ↦
      let above : suc s.shard_id ≤ t = ground arith in
      rw other (h, omega arith, ((refl, g), tt), (above, m, b, a))
]

pub shard_runs_lem :
    (sp n low : ℕ) (segments : List InMemorySpillSegment)
    → Ascends (λ s. s.shard_id) low segments
    → All (IsGood sp n) segments
    → AreRuns sp n low (shard_runs segments)
unfolding shard_runs
shard_runs_lem sp n low [] u a = tt
shard_runs_lem sp n low (s ∷ segments) (h, u) (g, a) =
    join_run_lem sp n low s (shard_runs segments) h g (shard_runs_lem sp n s.shard_id segments u a)

-- The same records.
spilled-insert_by :
    (le : InMemorySpillSegment → InMemorySpillSegment → Bool) (s : InMemorySpillSegment)
    (segments : List InMemorySpillSegment)
    → Perm (spilled (insert_by le s segments)) (s.records ++ spilled segments)
unfolding insert_by
spilled-insert_by le s [] = Perm.refl (s.records ++ [])
spilled-insert_by le s (t ∷ segments) = elim (Bool-cases (le s t)) [
  | inl first ↦ rw first (Perm.refl (s.records ++ (t.records ++ spilled segments)))
  | inr later ↦ rw later (
      Perm.trans (Perm.append_left t.records (spilled-insert_by le s segments))
        (perm_front t.records s.records (spilled segments)))
]

pub spilled-sort_by :
    (le : InMemorySpillSegment → InMemorySpillSegment → Bool) (segments : List InMemorySpillSegment)
    → Perm (spilled (sort_by le segments)) (spilled segments)
unfolding sort_by
spilled-sort_by le [] = Perm.refl []
spilled-sort_by le (s ∷ segments) =
    Perm.trans (spilled-insert_by le s (sort_by le segments))
      (Perm.append_left s.records (spilled-sort_by le segments))

spilled-sort_records :
    (segments : List InMemorySpillSegment)
    → Perm (spilled (map sort_records segments)) (spilled segments)
unfolding sort_records
spilled-sort_records [] = Perm.refl []
spilled-sort_records (s ∷ segments) =
    Perm.trans
      (Perm.append_right (spilled (map sort_records segments)) (sort_by-perm by_src s.records))
      (Perm.append_left s.records (spilled-sort_records segments))

pub group_order-perm :
    (group : List InMemorySpillSegment) → Perm (group_order group) (spilled group)
group_order-perm group =
    Perm.trans (spilled-sort_by by_range (map sort_records group)) (spilled-sort_records group)

abbrev plain : Runs → List SpillRecord
plain [] = []
plain ((t, group) ∷ runs) = spilled group ++ plain runs

run_orders-plain : (runs : Runs) → Perm (run_orders runs) (plain runs)
run_orders-plain [] = Perm.refl []
run_orders-plain ((t, group) ∷ runs) =
    Perm.trans (Perm.append_right (run_orders runs) (group_order-perm group))
      (Perm.append_left (spilled group) (run_orders-plain runs))

plain-join_run :
    (s : InMemorySpillSegment) (runs : Runs) → plain (join_run s runs) ≡ s.records ++ plain runs
unfolding join_run
plain-join_run s [] = append_assoc s.records [] []
plain-join_run s ((t, group) ∷ runs) = elim (Bool-cases (t == s.shard_id)) [
  | inl same ↦ rw same (append_assoc s.records (spilled group) (plain runs))
  | inr other ↦ rw other (append_assoc s.records [] (spilled group ++ plain runs))
]

plain-shard_runs :
    (segments : List InMemorySpillSegment) → plain (shard_runs segments) ≡ spilled segments
unfolding shard_runs
plain-shard_runs [] = refl
plain-shard_runs (s ∷ segments) =
    plain-join_run s (shard_runs segments) ∙ ap (λ l. s.records ++ l) (plain-shard_runs segments)

pub run_orders-shard_runs :
    (segments : List InMemorySpillSegment)
    → Perm (run_orders (shard_runs (sort_by by_shard segments))) (spilled segments)
run_orders-shard_runs segments =
    let sorted = sort_by by_shard segments in
    Perm.trans (run_orders-plain (shard_runs sorted)) (
      subst (λ l. Perm l (spilled segments)) (sym (plain-shard_runs sorted))
        (spilled-sort_by by_shard segments))

-- Where the records lie.
All-spilled :
    (P : SpillRecord → Type 0) (segments : List InMemorySpillSegment)
    → All (λ s. All P s.records) segments
    → All P (spilled segments)
All-spilled P [] a = tt
All-spilled P (s ∷ segments) (p, a) =
    All-append P s.records (spilled segments) p (All-spilled P segments a)

All-group_order :
    (P : SpillRecord → Type 0) (group : List InMemorySpillSegment)
    → All (λ s. All P s.records) group
    → All P (group_order group)
unfolding sort_records
All-group_order P group a =
    All-spilled P (sort_by by_range (map sort_records group))
      (All-sort_by by_range (λ s. All P s.records) (map sort_records group) (sorted group a))
  where
    sorted :
        (segments : List InMemorySpillSegment)
        → All (λ s. All P s.records) segments
        → All (λ s. All P s.records) (map sort_records segments)
    sorted [] q = tt
    sorted (t ∷ segments) (p, q) = (All-sort_by by_src P t.records p, sorted segments q)

-- A record of the shard's points, below `n`.
abbrev pub IsWithin : ℕ → ℕ → ℕ → SpillRecord → Type 0
IsWithin sp n shard r = (shard * sp ≤ r.src) × (r.src < shard * sp + sp) × IsBelow n r

shard_bounds :
    (sp shard src : ℕ) → 0 < sp → src / sp ≡ shard → (shard * sp ≤ src) × (src < shard * sp + sp)
shard_bounds sp shard src pos e = (
  subst (λ k. k * sp ≤ src) e (div-mul-le_self src sp),
  subst (λ k. src < k * sp + sp) e (lt-div-mul-add pos),
)

within_lem :
    (sp n shard : ℕ) (shard_id : ℕ) (records : List SpillRecord)
    → 0 < sp
    → shard_id ≡ shard
    → All (IsOfShard sp shard_id) records
    → All (IsBelow n) records
    → All (IsWithin sp n shard) records
within_lem sp n shard id [] pos e a b = tt
within_lem sp n shard id (r ∷ records) pos e (p, a) (q, b) =
    let (lo, hi) = shard_bounds sp shard r.src pos (p ∙ e) in
    ((lo, hi, q), within_lem sp n shard id records pos e a b)

pub group-IsWithin :
    (sp n shard : ℕ) (group : List InMemorySpillSegment)
    → 0 < sp
    → All (IsIn sp n shard) group
    → All (λ s. All (IsWithin sp n shard) s.records) group
group-IsWithin sp n shard [] pos a = tt
group-IsWithin sp n shard (s ∷ group) pos ((e, (g, b)), a) = (
  within_lem sp n shard s.shard_id s.records pos e g.apart b,
  group-IsWithin sp n shard group pos a,
)

pub group_order-IsWithin :
    (sp n shard : ℕ) (group : List InMemorySpillSegment)
    → 0 < sp
    → All (IsIn sp n shard) group
    → All (IsWithin sp n shard) (group_order group)
group_order-IsWithin sp n shard group pos a =
    All-group_order (IsWithin sp n shard) group (group-IsWithin sp n shard group pos a)

-- The bounds that a segment states of its sources.
pub range_lem :
    (sp n shard : ℕ) (s : InMemorySpillSegment)
    → 0 < sp
    → IsIn sp n shard s
    → (shard * sp ≤ s.src_min)
      × (shard * sp ≤ s.src_max)
      × (s.src_max < shard * sp + sp)
      × (s.src_max < n)
range_lem sp n shard s pos (e, (g, b)) =
    let (lo, x) = shard_bounds sp shard s.src_min pos (g.min_in ∙ e) in
    let (y, hi) = shard_bounds sp shard s.src_max pos (g.max_in ∙ e) in
    let top : s.src_max < n =
      subst (λ k. k < n) (sym g.last)
        (ends_lem (λ k. k < n) s.records g.filled (All-imp (λ r q. q.0) s.records b)).1 in
    (lo, y, hi, top)

pub run_orders_above :
    (sp n low : ℕ) (runs : Runs)
    → 0 < sp
    → AreRuns sp n low runs
    → All (λ r. low * sp ≤ r.src) (run_orders runs)
run_orders_above sp n low [] pos a = tt
run_orders_above sp n low ((t, group) ∷ runs) pos (h, m, b, a) =
    let here : low * sp ≤ t * sp = mul-le-mul_right sp h in
    let later : low * sp ≤ suc t * sp = mul-le-mul_right sp (omega arith) in
    All-append (λ r. low * sp ≤ r.src) (group_order group) (run_orders runs)
      (All-imp (λ r q. le_trans here q.0) (group_order group)
        (group_order-IsWithin sp n t group pos b))
      (All-imp (λ r q. le_trans later q) (run_orders runs)
        (run_orders_above sp n (suc t) runs pos a))
