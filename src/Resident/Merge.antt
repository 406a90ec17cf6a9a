-- ===== src/Resident/Merge.antt =====
-- The merge of sorted ids with the ids of the store.
use native.Mathlib.Nat.{suc-mul}
use forge_ann.Prelude.{
  ℕ, suc, ◌+◌, ◌*◌, ◌≤◌, ◌<◌, ◌≡◌, refl, sym, ◌∙◌, true, false, ltb, ◌==◌, Bool-cases, inl, inr,
  some, List, [], ◌∷◌, length, take, drop, drop-add, contains, arith,
}
use forge_ann.Prelude.Results.{ok}
use forge_ann.Resident.{
  ResidentSubsetPointStore, is_strictly_increasing, is_nondecreasing, copy_row, skip_below, head_is,
  read_sorted, read_sorted_points_into,
}
use forge_ann.Resident.Lookup.{find_row, find_row-absent}
use forge_ann.Resident.Rows.{IsStore, rows_of, copy_row_lem}

-- Merging sorted ids.
contains-below :
    (pid id : ℕ) (ids : List ℕ)
    → pid < id
    → is_strictly_increasing (id ∷ ids) ≡ true
    → contains pid (id ∷ ids) ≡ false
unfolding is_strictly_increasing
contains-below pid id [] h r = ground arith
contains-below pid id (next ∷ ids) h r =
    let up : id < next = ground arith in
    let more : is_strictly_increasing (next ∷ ids) ≡ true = ground arith in
    ground (arith, contains-below pid next ids (omega arith) more)

is_strictly_increasing-rest :
    (id : ℕ) (ids : List ℕ)
    → is_strictly_increasing (id ∷ ids) ≡ true
    → is_strictly_increasing ids ≡ true
unfolding is_strictly_increasing
is_strictly_increasing-rest id [] r = refl
is_strictly_increasing-rest id (next ∷ ids) r = ground arith

-- What is left from a row on serves all ids from `pid` on.
record Serves (s : ResidentSubsetPointStore) (pid row : ℕ) (left : List ℕ) : Type 0 where
  same :
      (q : ℕ)
      → pid ≤ q
      → find_row s.dim q s.global_ids s.vectors
        ≡ find_row s.dim q left (drop (row * s.dim) s.vectors)
  long : row + length left ≡ length s.global_ids
  rises : is_strictly_increasing left ≡ true

Serves-next :
    (s : ResidentSubsetPointStore) (pid row id : ℕ) (left : List ℕ)
    → id < pid
    → Serves s pid row (id ∷ left)
    → Serves s pid (suc row) left
unfolding find_row
Serves-next s pid row id left h v =
    let n = v.long in
    record {
      same = λ q k.
          let other : (id == q) ≡ false = ground arith in
          let step : drop (suc row * s.dim) s.vectors ≡ drop s.dim (drop (row * s.dim) s.vectors) =
            rw (suc-mul row s.dim) (drop-add (row * s.dim) s.dim s.vectors) in
          v.same q k ∙ rw (other, step) refl;
      long = omega arith;
      rises = is_strictly_increasing-rest id left v.rises;
    }

record Skipped (s : ResidentSubsetPointStore) (pid : ℕ) (at : ℕ × List ℕ) : Type 0 where
  serves : Serves s pid at.0 at.1
  first : contains pid at.1 ≡ head_is pid at.1

skip_below_lem :
    (s : ResidentSubsetPointStore) (pid row : ℕ) (left : List ℕ)
    → Serves s pid row left
    → Skipped s pid (skip_below pid row left)
unfolding skip_below head_is
skip_below_lem s pid row [] v = record { serves = v; first = refl }
skip_below_lem s pid row (id ∷ left) v = elim (Bool-cases (ltb id pid)) [
  | inl low ↦
      rw (skip_below, low)
        (skip_below_lem s pid (suc row) left (Serves-next s pid row id left (ground arith) v))
  | inr high ↦
      rw (skip_below, high)
        (record {
          serves = v;
          first = elim (Bool-cases (id == pid)) [
            | inl same ↦ rw same refl
            | inr other ↦ rw (contains-below pid id left (ground arith) v.rises, other) refl
          ];
        })
]

head_row :
    (s : ResidentSubsetPointStore) (pid row : ℕ) (left : List ℕ)
    → IsStore s
    → Serves s pid row left
    → head_is pid left ≡ true
    → (copy_row s row ≡ ok (take s.dim (drop (row * s.dim) s.vectors)))
      × (find_row s.dim pid s.global_ids s.vectors
          ≡ some (take s.dim (drop (row * s.dim) s.vectors)))
unfolding head_is find_row
head_row s pid row [] v w h = cc
head_row s pid row (id ∷ left) v w h =
    let n = w.long in (copy_row_lem s row v (omega arith), w.same pid (omega arith) ∙ rw h refl)

read_sorted_lem :
    (s : ResidentSubsetPointStore) (low row : ℕ) (left ids : List ℕ)
    → IsStore s
    → Serves s low row left
    → is_nondecreasing (low ∷ ids) ≡ true
    → read_sorted s row left ids ≡ rows_of s ids
unfolding read_sorted rows_of is_nondecreasing
read_sorted_lem s low row left [] v w r = refl
read_sorted_lem s low row left (pid ∷ ids) v w r =
    let up : low ≤ pid = ground arith in
    let more : is_nondecreasing (pid ∷ ids) ≡ true = ground arith in
    let later : Serves s pid row left = record {
      same = λ q k. w.same q (omega arith);
      long = w.long;
      rises = w.rises;
    } in
    let skipped = skip_below_lem s pid row left later in
    let at = skip_below pid row left in
    elim (Bool-cases (head_is pid at.1)) [
      | inl here ↦
          let (e, f) = head_row s pid at.0 at.1 v skipped.serves here in
          rw (here, e, f, read_sorted_lem s pid at.0 at.1 ids v skipped.serves more) refl
      | inr gone ↦
          let e =
            skipped.serves.same pid (omega arith)
            ∙ find_row-absent s.dim pid at.1 (drop (at.0 * s.dim) s.vectors)
                (skipped.first ∙ gone) in
          rw (gone, e) refl
    ]

is_nondecreasing-zero :
    (ids : List ℕ) → is_nondecreasing ids ≡ true → is_nondecreasing (0 ∷ ids) ≡ true
unfolding is_nondecreasing
is_nondecreasing-zero [] h = refl
is_nondecreasing-zero (id ∷ ids) h = ground arith

pub read_sorted_points_into_lem :
    (s : ResidentSubsetPointStore) (ids : List ℕ)
    → IsStore s
    → s.sorted_unique_ids ≡ true
    → is_nondecreasing ids ≡ true
    → read_sorted_points_into s ids ≡ rows_of s ids
unfolding read_sorted_points_into
read_sorted_points_into_lem s ids v sorted r =
    let z : 0 * s.dim ≡ 0 = omega arith in
    let start : Serves s 0 0 s.global_ids = record {
      same = λ q k. rw z refl;
      long = omega arith;
      rises = sym v.flag ∙ sorted;
    } in
    read_sorted_lem s 0 0 s.global_ids ids v start (is_nondecreasing-zero ids r)
