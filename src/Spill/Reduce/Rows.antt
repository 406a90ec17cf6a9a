-- ===== src/Spill/Reduce/Rows.antt =====
-- The rows of a range of points: each point's reservoir fed with that point's records of one list.
use mathlib.Core.Path.{fun_ext}
use forge_ann.Prelude.{
  ℕ, zero, suc, ◌+◌, ◌%◌, ◌^◌, ◌≤◌, ◌<◌, ◌≡◌, ◌≢◌, refl, ap, ◌==◌, if◌then◌else◌, Bool-cases, inl,
  inr, Option, none, some, ◌>>=◌, List, [], ◌∷◌, ◌++◌, All, arith,
}
use forge_ann.Prelude.Results
use forge_ann.Prelude.Results.{Result, ok, err}
use forge_ann.Reservoir.{Reservoir, new, drain_neighbors}
use forge_ann.Reservoir.Invariant.{new-empty}
use forge_ann.Reservoir.Batch.{Candidate, insert_all}
use forge_ann.Spill.{SpillRecord, SpillError}
use forge_ann.Spill.Reduce.{emit_empty_points}

abbrev pub candidate_of : SpillRecord → Candidate
candidate_of r = record { target = r.dst; hash = r.hash; dist = r.dist }

-- The candidates of one source, in their order.
unfoldable pub candidates_of : ℕ → List SpillRecord → List Candidate
candidates_of p [] = []
candidates_of p (r ∷ rs) =
    let rest = candidates_of p rs in if r.src == p then candidate_of r ∷ rest else rest

unfoldable pub reservoir_of : ℕ → List Candidate → Option Reservoir
reservoir_of l cs = new l >>= λ r. insert_all r cs

unfoldable pub row_of : ℕ → List Candidate → List ℕ
unfolding reservoir_of
row_of l cs = elim (reservoir_of l cs) [ none ↦ [] | some r ↦ (drain_neighbors r).0 ]

-- The rows of `count` points.
unfoldable pub rows : ℕ → List SpillRecord → ℕ → ℕ → List (ℕ × List ℕ)
unfolding row_of candidates_of
rows l records p zero = []
rows l records p (suc count) =
    (p % 2 ^ 32, row_of l (candidates_of p records)) ∷ rows l records (suc p) count

-- Candidates.
pub candidates_of-append :
    (p : ℕ) (xs ys : List SpillRecord)
    → candidates_of p (xs ++ ys) ≡ candidates_of p xs ++ candidates_of p ys
unfolding candidates_of
candidates_of-append p [] ys = refl
candidates_of-append p (r ∷ xs) ys = elim (Bool-cases (r.src == p)) [
  | inl same ↦ rw same (ap (λ l. candidate_of r ∷ l) (candidates_of-append p xs ys))
  | inr other ↦ rw other (candidates_of-append p xs ys)
]

pub candidates_of-none :
    (p : ℕ) (xs : List SpillRecord) → All (λ r. r.src ≢ p) xs → candidates_of p xs ≡ []
unfolding candidates_of
candidates_of-none p [] a = refl
candidates_of-none p (r ∷ xs) (n, a) = elim (Bool-cases (r.src == p)) [
  | inl same ↦ absurd (n (ground arith))
  | inr other ↦ rw other (candidates_of-none p xs a)
]

-- Rows depend on the candidates only.
pub rows-cong :
    (l : ℕ) (xs ys : List SpillRecord) (p count : ℕ)
    → ((q : ℕ) → p ≤ q → q < p + count → candidates_of q xs ≡ candidates_of q ys)
    → rows l xs p count ≡ rows l ys p count
unfolding rows
rows-cong l xs ys p zero h = refl
rows-cong l xs ys p (suc count) h =
    let rest = rows-cong l xs ys (suc p) count (λ q a b. h q (omega arith) (omega arith)) in
    rw (h p (omega arith) (omega arith), rest) refl

pub rows-add :
    (l : ℕ) (xs : List SpillRecord) (p m n : ℕ)
    → rows l xs p (m + n) ≡ rows l xs p m ++ rows l xs (p + m) n
unfolding rows
rows-add l xs p zero n =
    let e : p + 0 ≡ p = omega arith in let f : 0 + n ≡ n = omega arith in rw (e, f) refl
rows-add l xs p (suc m) n =
    let e : suc m + n ≡ suc (m + n) = omega arith in
    let f : p + suc m ≡ suc p + m = omega arith in
    rw (e, f)
      (ap (λ t. (p % 2 ^ 32, row_of l (candidates_of p xs)) ∷ t) (rows-add l xs (suc p) m n))

pub row_of-empty : (l : ℕ) {r : Reservoir} → new l ≡ some r → row_of l [] ≡ []
unfolding row_of reservoir_of insert_all drain_neighbors
row_of-empty l {r} e = rw (row_of, reservoir_of, e, (new-empty l e).1) refl

-- The callback along the rows.
module _ {S : Type 0} (on_point_done : ℕ → List ℕ → S → Result SpillError S) where
  unfoldable pub emit_rows : List (ℕ × List ℕ) → S → Result SpillError S
  emit_rows [] s = ok s
  emit_rows (row ∷ more) s = Results.◌>>=◌ (on_point_done row.0 row.1 s) (λ s'. emit_rows more s')

  pub emit_rows-append :
      (xs ys : List (ℕ × List ℕ)) (s : S)
      → emit_rows (xs ++ ys) s ≡ Results.◌>>=◌ (emit_rows xs s) (λ s'. emit_rows ys s')
  unfolding emit_rows
  emit_rows-append [] ys s = refl
  emit_rows-append (row ∷ xs) ys s = elim (Results.Result-cases (on_point_done row.0 row.1 s)) [
    | inl (s', e) ↦ rw e (emit_rows-append xs ys s')
    | inr (x, e) ↦ rw e refl
  ]

  -- Points without candidates have empty rows.
  pub emit_empty_points_lem :
      (l : ℕ) {r : Reservoir} (xs : List SpillRecord) (p count : ℕ) (s : S)
      → new l ≡ some r
      → ((q : ℕ) → p ≤ q → q < p + count → candidates_of q xs ≡ [])
      → emit_empty_points on_point_done p count s ≡ emit_rows (rows l xs p count) s
  unfolding emit_empty_points emit_rows rows
  emit_empty_points_lem l xs p zero s e h = refl
  emit_empty_points_lem l xs p (suc count) s e h =
      let none_here = h p (omega arith) (omega arith) in
      let rest : (t : S)
          → emit_empty_points on_point_done (suc p) count t
            ≡ emit_rows (rows l xs (suc p) count) t =
        λ t.
          emit_empty_points_lem l xs (suc p) count t e (λ q a b. h q (omega arith) (omega arith)) in
      rw (none_here, row_of-empty l e)
        (ap (λ f. Results.◌>>=◌ (on_point_done (p % 2 ^ 32) [] s) f) (fun_ext rest))
