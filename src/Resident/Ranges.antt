-- ===== src/Resident/Ranges.antt =====
-- Reads of a range of ids: row by row, and in one copy where the store has the range in one piece.
use native.Mathlib.Nat.{suc-mul}
use forge_ann.Prelude.{
  ℕ, zero, suc, ◌+◌, ◌-◌, ◌*◌, ◌%◌, ◌^◌, ◌≤◌, ◌<◌, ◌≡◌, refl, ap, sym, subst, ◌∙◌, min, true, false,
  not, ◌&&◌, leb, ◌==◌, Bool-cases, Option-cases, inl, inr, some, List, [], ◌∷◌, length,
  length-take, length-drop, take, drop, drop-add, take-add, get_elem?, get_elem?_of_lt,
  lt_of_get_elem?, get_or, arith,
}
use forge_ann.Prelude.Usize.{saturating_mul}
use forge_ann.Prelude.Results.{ok, ok_or}
use forge_ann.Resident.{
  ResidentSubsetPointStore, missing, is_strictly_increasing, binary_search, check_point_buffer,
  check_matrix_buffer, read_point_into, read_range_rows, contiguous_range, read_range_into,
}
use forge_ann.Resident.Lookup.{
  find_row, find_row-absent, find_row-at, local_row_lem, binary_search-found,
}
use forge_ann.Resident.Rows.{IsStore, rows_of, copy_row_lem}

-- `count` ids in a row.
pub range_ids : ℕ → ℕ → List ℕ
range_ids start zero = []
range_ids start (suc count) = start ∷ range_ids (suc start) count

-- One point is one row.
pub read_point_into_lem :
    (s : ResidentSubsetPointStore) (pid : ℕ) (out : List ℕ)
    → IsStore s
    → length out ≡ s.dim
    → read_point_into s pid out ≡ ok_or (find_row s.dim pid s.global_ids s.vectors) missing
unfolding read_point_into check_point_buffer
read_point_into_lem s pid out v n =
    let fine : not (length out == s.dim) ≡ false = ground arith in
    elim (local_row_lem s pid v.table) [
      | inl (row, e, at) ↦
          rw
            (
              fine,
              e,
              copy_row_lem s row v (lt_of_get_elem? s.global_ids row at),
              find_row-at s.dim pid row s.global_ids s.vectors v.distinct at,
            )
            refl
      | inr (e, absent) ↦ rw (fine, e, find_row-absent s.dim pid s.global_ids s.vectors absent) refl
    ]

read_range_rows_lem :
    (s : ResidentSubsetPointStore) (start row count : ℕ) (out : List ℕ)
    → IsStore s
    → start + row + count ≤ 2 ^ 32
    → length out ≡ count * s.dim
    → read_range_rows s start row count out ≡ rows_of s (range_ids (start + row) count)
unfolding read_range_rows rows_of range_ids
read_range_rows_lem s start row zero out v b n = refl
read_range_rows_lem s start row (suc count) out v b n =
    let id : min (start + row % 2 ^ 32) (2 ^ 32 - 1) ≡ start + row = omega arith in
    let m = n ∙ suc-mul count s.dim in
    let first : length (take s.dim out) ≡ s.dim = length-take s.dim out ∙ omega arith in
    let left : length (drop s.dim out) ≡ count * s.dim = length-drop s.dim out ∙ omega arith in
    let next : start + suc row ≡ suc (start + row) = omega arith in
    let rest = read_range_rows_lem s start (suc row) count (drop s.dim out) v (omega arith) left in
    rw (id, read_point_into_lem s (start + row) (take s.dim out) v first, rest, next) refl

-- Ids that rise strictly rise by one at least for each place.
rises_by_one :
    (ids : List ℕ) (i a b : ℕ)
    → is_strictly_increasing ids ≡ true
    → get_elem? ids i ≡ some a
    → get_elem? ids (suc i) ≡ some b
    → a < b
unfolding is_strictly_increasing
rises_by_one [] i a b r e f = cc
rises_by_one (x ∷ []) i a b r e f = cc
rises_by_one (x ∷ y ∷ ids) zero a b r e f = ground arith
rises_by_one (x ∷ y ∷ ids) (suc i) a b r e f =
    let more : is_strictly_increasing (y ∷ ids) ≡ true = ground arith in
    rises_by_one (y ∷ ids) i a b more e f

rises_by :
    (ids : List ℕ) (i k a b : ℕ)
    → is_strictly_increasing ids ≡ true
    → get_elem? ids i ≡ some a
    → get_elem? ids (i + k) ≡ some b
    → a + k ≤ b
rises_by ids i zero a b r e f =
    let z : i + 0 ≡ i = omega arith in
    let g : get_elem? ids i ≡ some b = subst (λ j. get_elem? ids j ≡ some b) z f in
    let same : a ≡ b = ground arith in omega arith
rises_by ids i (suc k) a b r e f =
    let q : i + suc k ≡ suc (i + k) = omega arith in
    let g : get_elem? ids (suc (i + k)) ≡ some b = subst (λ j. get_elem? ids j ≡ some b) q f in
    let long = lt_of_get_elem? ids (suc (i + k)) g in
    let (c, h) = get_elem?_of_lt ids (i + k) (omega arith) in
    let low = rises_by ids i k a c r e h in
    let up = rises_by_one ids (i + k) c b r h g in omega arith

-- So a stretch whose ends are as far apart as their places has no gaps.
no_gaps :
    (ids : List ℕ) (i j m start : ℕ)
    → is_strictly_increasing ids ≡ true
    → get_elem? ids i ≡ some start
    → get_elem? ids (i + (j + m)) ≡ some (start + (j + m))
    → get_elem? ids (i + j) ≡ some (start + j)
no_gaps ids i j m start r e f =
    let long = lt_of_get_elem? ids (i + (j + m)) f in
    let (x, h) = get_elem?_of_lt ids (i + j) (omega arith) in
    let low = rises_by ids i j start x r e h in
    let q : i + (j + m) ≡ i + j + m = omega arith in
    let high =
      rises_by ids (i + j) m x (start + (j + m)) r h
        (subst (λ k. get_elem? ids k ≡ some (start + (j + m))) q f) in
    let same : x ≡ start + j = omega arith in h ∙ ap some same

get_elem?-get_or : (ids : List ℕ) (i : ℕ) → i < length ids → get_elem? ids i ≡ some (get_or ids i 0)
get_elem?-get_or [] i h = absurd (omega arith)
get_elem?-get_or (x ∷ ids) zero h = refl
get_elem?-get_or (x ∷ ids) (suc i) h = get_elem?-get_or ids i (omega arith)

stretch_lem :
    (s : ResidentSubsetPointStore) (place start n : ℕ)
    → IsStore s
    → ((j : ℕ) → j < n → get_elem? s.global_ids (place + j) ≡ some (start + j))
    → rows_of s (range_ids start n) ≡ ok (take (n * s.dim) (drop (place * s.dim) s.vectors))
unfolding rows_of range_ids
stretch_lem s place start zero v h = let z : 0 * s.dim ≡ 0 = omega arith in rw z refl
stretch_lem s place start (suc n) v h =
    let here : get_elem? s.global_ids place ≡ some start =
      subst (λ k. get_elem? s.global_ids k ≡ some start) (omega arith)
        (h 0 (omega arith) ∙ ap some (omega arith)) in
    let rest = stretch_lem s (suc place) (suc start) n v (λ j k.
      let p : place + suc j ≡ suc place + j = omega arith in
      let q : start + suc j ≡ suc start + j = omega arith in
      subst (λ t. get_elem? s.global_ids t ≡ some (suc start + j)) p
        (h (suc j) (omega arith) ∙ ap some q)) in
    let whole : suc n * s.dim ≡ n * s.dim + s.dim = suc-mul n s.dim in
    let part : suc n * s.dim - s.dim ≡ n * s.dim = omega arith in
    rw
      (
        find_row-at s.dim start place s.global_ids s.vectors v.distinct here,
        rest,
        suc-mul place s.dim,
        drop-add (place * s.dim) s.dim s.vectors,
        ← part,
      )
      (ap ok (take-add s.dim (suc n * s.dim) (drop (place * s.dim) s.vectors) (omega arith)))

-- What is copied in one piece is what the rows give.
contiguous_range_lem :
    (s : ResidentSubsetPointStore) (start count : ℕ) (rows : List ℕ)
    → IsStore s
    → 0 < count
    → start + count ≤ 2 ^ 32
    → length s.global_ids < 2 ^ 64 - 1
    → contiguous_range s start count ≡ some rows
    → rows_of s (range_ids start count) ≡ ok rows
unfolding contiguous_range
contiguous_range_lem s start count rows v pos small len e = elim (Bool-cases s.sorted_unique_ids) [
  | inr unsorted ↦ absurd (ground arith)
  | inl sorted ↦ elim (Option-cases (binary_search s.global_ids start)) [
    | inl gone ↦ absurd (ground arith)
    | inr (place, found) ↦
        let local_end = min (place + count) (2 ^ 64 - 1) in
        let test =
          leb local_end (length s.global_ids)
          && (get_or s.global_ids (local_end - 1) 0
              == min (start + (count - 1) % 2 ^ 32) (2 ^ 32 - 1)) in
        elim (Bool-cases test) [
          | inr split ↦ absurd (ground arith)
          | inl whole ↦
              let at = binary_search-found s.global_ids start found in
              let below = lt_of_get_elem? s.global_ids place at in
              let inside : local_end ≤ length s.global_ids = ground arith in
              let ends : local_end ≡ place + count = omega arith in
              let last : get_or s.global_ids (local_end - 1) 0
                  ≡ min (start + (count - 1) % 2 ^ 32) (2 ^ 32 - 1) =
                ground arith in
              let spot : local_end - 1 ≡ place + (count - 1) = omega arith in
              let value : min (start + (count - 1) % 2 ^ 32) (2 ^ 32 - 1) ≡ start + (count - 1) =
                omega arith in
              let top : get_elem? s.global_ids (place + (count - 1)) ≡ some (start + (count - 1)) =
                subst (λ k. get_elem? s.global_ids k ≡ some (start + (count - 1))) spot
                  (get_elem?-get_or s.global_ids (local_end - 1) (omega arith)
                    ∙ ap some (last ∙ value)) in
              let cut : rows ≡ take (count * s.dim) (drop (place * s.dim) s.vectors) =
                ground arith in
              stretch_lem s place start count v (λ j k.
                let m : count - 1 ≡ j + (count - 1 - j) = omega arith in
                no_gaps s.global_ids place j (count - 1 - j) start (sym v.flag ∙ sorted) at
                  (subst (λ t. get_elem? s.global_ids (place + t) ≡ some (start + t)) m top))
              ∙ ap ok (sym cut)
        ]
  ]
]

-- A read of a range gives the rows of its ids in order, or `missing` if the store lacks one of them, whether the
-- rows are copied in one piece or one by one: for a range of 32-bit ids, a buffer of the range's size
-- that a usize can state, and fewer points than a usize can count.
pub read_range_into-rows_of :
    (s : ResidentSubsetPointStore) (start count : ℕ) (out : List ℕ)
    → IsStore s
    → start + count ≤ 2 ^ 32
    → length s.global_ids < 2 ^ 64 - 1
    → length out ≡ count * s.dim
    → length out < 2 ^ 64
    → read_range_into s start count out ≡ rows_of s (range_ids start count)
unfolding read_range_into check_matrix_buffer rows_of range_ids
read_range_into-rows_of s start count out v small len n b =
    let fine : not (length out == saturating_mul count s.dim) ≡ false = ground arith in
    elim (Bool-cases (count == 0)) [
      | inl nothing ↦ rw nothing (empty count out (ground arith) n)
      | inr something ↦
          let pos : 0 < count = ground arith in
          elim (Option-cases (contiguous_range s start count)) [
            | inl scattered ↦
                let z : start + 0 ≡ start = omega arith in
                let rows = read_range_rows_lem s start 0 count out v (omega arith) n in
                rw (something, fine, scattered)
                  (subst (λ k. read_range_rows s start 0 count out ≡ rows_of s (range_ids k count))
                    z rows)
            | inr (rows, e) ↦
                rw (something, fine, e)
                  (sym (contiguous_range_lem s start count rows v pos small len e))
          ]
    ]
  where
    empty :
        (k : ℕ) (ys : List ℕ)
        → k ≡ 0
        → length ys ≡ k * s.dim
        → ok ys ≡ rows_of s (range_ids start k)
    empty zero [] h q = refl
    empty zero (y ∷ ys) h q = absurd (omega arith)
    empty (suc k) ys h q = absurd (omega arith)
