-- ===== src/Resident/Reads.antt =====
-- The reads of the store against the reference, and its three ways to serve a list of ids.
use native.Mathlib.Nat.{suc-mul}
use mathlib.Core.List.{append_assoc}
use forge_ann.Prelude.{
  ◌⊎◌, take, contains, ℕ, suc, ◌+◌, ◌*◌, ◌^◌, ◌<◌, ◌≡◌, refl, ap, sym, subst, ◌∙◌, true, false, not,
  ◌&&◌, ◌==◌, if◌then◌else◌, Bool-cases, inl, inr, some, List, [], ◌∷◌, ◌++◌, length, length-append,
  length-drop, drop, drop-add, take-append-drop, get_elem?, arith,
}
use forge_ann.Prelude.Usize.{saturating_mul}
use forge_ann.Prelude.Results.{Result, ok, err}
use forge_ann.Prelude.Entries.{get_elem?-middle}
use forge_ann.Resident.{
  ResidentSubsetPointStore, is_strictly_increasing, is_nondecreasing, id_table, capacity_of,
  check_matrix_buffer, same_ids, read_points_into, StoreError, missing,
}
use forge_ann.Resident.Lookup.{find_row-at}
use forge_ann.Resident.Rows.{IsStore, rows_of, read_each_lem}
use forge_ann.Resident.Merge.{read_sorted_points_into_lem}

-- All rows of the store.
same_ids_lem : (xs ys : List ℕ) → same_ids xs ys ≡ true → xs ≡ ys
unfolding same_ids
same_ids_lem [] [] h = refl
same_ids_lem [] (y ∷ ys) h = cc
same_ids_lem (x ∷ xs) [] h = cc
same_ids_lem (x ∷ xs) (y ∷ ys) h =
    let p : x ≡ y = ground arith in
    let q : same_ids xs ys ≡ true = ground arith in rw (p, same_ids_lem xs ys q) refl

drop-whole : (n : ℕ) (xs : List ℕ) → length xs ≡ n → drop n xs ≡ []
drop-whole n xs e = elim_nil (drop n xs) (omega (arith, length-drop n xs))
  where
    elim_nil : (ys : List ℕ) → length ys ≡ 0 → ys ≡ []
    elim_nil [] h = refl
    elim_nil (y ∷ ys) h = absurd (omega arith)

rows_of-rest :
    (s : ResidentSubsetPointStore) (before left : List ℕ)
    → IsStore s
    → s.global_ids ≡ before ++ left
    → rows_of s left ≡ ok (drop (length before * s.dim) s.vectors)
unfolding rows_of
rows_of-rest s before [] v e =
    let n : length s.global_ids ≡ length before + 0 = ap length e ∙ length-append before [] in
    let m : length s.global_ids ≡ length before = omega arith in
    rw (drop-whole (length before * s.dim) s.vectors (v.fits ∙ ap (λ k. k * s.dim) m)) refl
rows_of-rest s before (id ∷ left) v e =
    let at : get_elem? s.global_ids (length before) ≡ some id =
      rw e (get_elem?-middle before id left) in
    let n : length (before ++ (id ∷ [])) ≡ suc (length before) =
      omega (arith, length-append before (id ∷ [])) in
    let rest : rows_of s left ≡ ok (drop (suc (length before) * s.dim) s.vectors) =
      subst (λ k. rows_of s left ≡ ok (drop (k * s.dim) s.vectors)) n
        (rows_of-rest s (before ++ (id ∷ [])) left v
          (e ∙ sym (append_assoc before (id ∷ []) left))) in
    rw
      (
        find_row-at s.dim id (length before) s.global_ids s.vectors v.distinct at,
        rest,
        suc-mul (length before) s.dim,
        drop-add (length before * s.dim) s.dim s.vectors,
      )
      (ap ok (take-append-drop s.dim (drop (length before * s.dim) s.vectors)))

-- Whichever way a read of ids is served, by the copy of the whole matrix, by the merge of sorted ids or
-- by a lookup of each id, the buffer then holds the rows of the ids in the order of the request, and
-- an id that the store does not have is the error `missing`: for a store of ids without repetition,
-- and a buffer of the right size that a usize can state.
pub read_points_into-rows_of :
    (s : ResidentSubsetPointStore) (ids out : List ℕ)
    → IsStore s
    → length out ≡ length ids * s.dim
    → length out < 2 ^ 64
    → read_points_into s ids out ≡ rows_of s ids
unfolding read_points_into check_matrix_buffer rows_of
read_points_into-rows_of s ids out v n b =
    let fine : not (length out == saturating_mul (length ids) s.dim) ≡ false = ground arith in
    elim (Bool-cases (length ids == 0)) [
      | inl nothing ↦ rw (fine, nothing) (empty ids out (ground arith) n)
      | inr something ↦
          elim (Bool-cases ((length ids == length s.global_ids) && same_ids ids s.global_ids)) [
            | inl whole ↦
                let q : same_ids ids s.global_ids ≡ true = ground arith in
                let all = rows_of-rest s [] s.global_ids v refl in
                let z : 0 * s.dim ≡ 0 = omega arith in
                rw (fine, something, whole) (rw (same_ids_lem ids s.global_ids q, all, z) refl)
            | inr part ↦ elim (Bool-cases (s.sorted_unique_ids && is_nondecreasing ids)) [
              | inl merge ↦
                  rw (fine, something, part, merge)
                    (read_sorted_points_into_lem s ids v (ground arith) (ground arith))
              | inr scattered ↦ rw (fine, something, part, scattered) (read_each_lem s ids v)
            ]
          ]
    ]
  where
    empty : (xs ys : List ℕ) → length xs ≡ 0 → length ys ≡ length xs * s.dim → ok ys ≡ rows_of s xs
    empty [] [] h k = refl
    empty [] (y ∷ ys) h k = absurd (omega arith)
    empty (x ∷ xs) ys h k = absurd (omega arith)

-- The store of ids and their matrix.
abbrev made : List ℕ → ℕ → List ℕ → ResidentSubsetPointStore
made ids dim vectors = record {
  global_ids = ids;
  id_to_row = if is_strictly_increasing ids then [] else id_table ids;
  vectors = vectors;
  dim = dim;
  sorted_unique_ids = is_strictly_increasing ids;
  point_id_capacity = capacity_of ids;
}

-- What a lookup of an id comes to in a matrix whose rows belong to `ids`.
abbrev pub ReadOf : List ℕ → ℕ → List ℕ → ℕ → Result StoreError (List ℕ) → Type 0
ReadOf ids dim vectors pid r =
    ((row : ℕ) × (get_elem? ids row ≡ some pid) × (r ≡ ok (take dim (drop (row * dim) vectors))))
    ⊎ ((contains pid ids ≡ false) × (r ≡ err missing))
