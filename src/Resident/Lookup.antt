-- ===== src/Resident/Lookup.antt =====
-- The row that belongs to an id: the reference, and the two ways in which the store finds it.
use native.Mathlib.Nat.{suc-mul}
use forge_ann.Prelude.{
  ℕ, zero, suc, ◌*◌, ◌≡◌, ◌≢◌, refl, ap, sym, subst, ◌∙◌, true, false, ◌⊎◌, ◌==◌, if◌then◌else◌,
  Bool-cases, Option-cases, inl, inr, Option, none, some, List, [], ◌∷◌, take, drop, drop-add,
  get_elem?, position, contains, AreDistinct, All, arith,
}
use forge_ann.Prelude.Results.{ok, err}
use forge_ann.Prelude.Sorting.{sort_by, All-sort_by}
use forge_ann.Prelude.Entries.{
  enumerate_from, Names, enumerate_from-Names, All-dedup_by_id, has_key, has_key_unique,
}
use forge_ann.Resident.{
  ResidentSubsetPointStore, missing, by_id, id_table, row_of_key, binary_search,
  local_row_for_global_id,
}

-- The row of an id in a matrix whose rows belong to `ids`.
unfoldable pub find_row : ℕ → ℕ → List ℕ → List ℕ → Option (List ℕ)
find_row dim pid [] matrix = none
find_row dim pid (id ∷ ids) matrix =
    if id == pid then some (take dim matrix) else find_row dim pid ids (drop dim matrix)

pub find_row-absent :
    (dim pid : ℕ) (ids matrix : List ℕ)
    → contains pid ids ≡ false
    → find_row dim pid ids matrix ≡ none
unfolding find_row
find_row-absent dim pid [] matrix h = refl
find_row-absent dim pid (id ∷ ids) matrix h =
    let other : (id == pid) ≡ false = ground arith in
    let more : contains pid ids ≡ false = ground arith in
    rw other (find_row-absent dim pid ids (drop dim matrix) more)

absent_elem :
    (ids : List ℕ) (i pid x : ℕ) → All (λ y. y ≢ x) ids → get_elem? ids i ≡ some pid → pid ≢ x
absent_elem [] i pid x a e = cc
absent_elem (id ∷ ids) zero pid x (p, a) e = ground arith
absent_elem (id ∷ ids) (suc i) pid x (p, a) e = absent_elem ids i pid x a e

pub find_row-at :
    (dim pid i : ℕ) (ids matrix : List ℕ)
    → AreDistinct ids
    → get_elem? ids i ≡ some pid
    → find_row dim pid ids matrix ≡ some (take dim (drop (i * dim) matrix))
unfolding find_row
find_row-at dim pid i [] matrix d e = cc
find_row-at dim pid zero (id ∷ ids) matrix d e =
    let same : (id == pid) ≡ true = ground arith in
    let z : 0 * dim ≡ 0 = omega arith in rw (same, z) refl
find_row-at dim pid (suc i) (id ∷ ids) matrix (n, d) e =
    let ne = absent_elem ids i pid id n e in
    let other : (id == pid) ≡ false = ground arith in
    rw (other, suc-mul i dim)
      (find_row-at dim pid i ids (drop dim matrix) d e
        ∙ ap (λ m. some (take dim m))
            (sym (drop-add dim (i * dim) matrix) ∙ ap (λ k. drop k matrix) (omega arith)))

row_of_key-Names :
    (P : ℕ × ℕ → Type 0) (pid : ℕ) (entries : List (ℕ × ℕ)) {row : ℕ}
    → All P entries
    → row_of_key pid entries ≡ some row
    → P (pid, row)
unfolding row_of_key
row_of_key-Names P pid [] a h = cc
row_of_key-Names P pid ((id, r) ∷ entries) {row} (p, a) h = elim (Bool-cases (id == pid)) [
  | inl same ↦
      let q : id ≡ pid = ground arith in
      let s : r ≡ row = ground arith in subst (λ k. P (k, row)) q (subst (λ k. P (id, k)) s p)
  | inr other ↦
      let rest : row_of_key pid entries ≡ some row = ground arith in
      row_of_key-Names P pid entries a rest
]

row_of_key-none :
    (pid : ℕ) (entries : List (ℕ × ℕ)) → row_of_key pid entries ≡ none → has_key pid entries ≡ false
unfolding row_of_key has_key
row_of_key-none pid [] h = refl
row_of_key-none pid (e ∷ entries) h = elim (Bool-cases (e.0 == pid)) [
  | inl same ↦ absurd (ground arith)
  | inr other ↦
      let rest : row_of_key pid entries ≡ none = ground arith in
      rw other (row_of_key-none pid entries rest)
]

id_table-Names : (ids : List ℕ) → All (Names ids) (id_table ids)
unfolding id_table
id_table-Names ids =
    All-dedup_by_id (Names ids) (sort_by by_id (enumerate_from 0 ids))
      (All-sort_by by_id (Names ids) (enumerate_from 0 ids) (enumerate_from-Names ids))

has_key-id_table : (pid : ℕ) (ids : List ℕ) → has_key pid (id_table ids) ≡ contains pid ids
unfolding id_table
has_key-id_table pid ids = has_key_unique by_id pid ids

pub binary_search-found :
    (ids : List ℕ) (pid : ℕ) {row : ℕ}
    → binary_search ids pid ≡ some row
    → get_elem? ids row ≡ some pid
unfolding binary_search
binary_search-found [] pid h = cc
binary_search-found (id ∷ ids) pid {row} h = elim (Bool-cases (id == pid)) [
  | inl same ↦ let q : row ≡ 0 = ground arith in rw q (ground arith)
  | inr other ↦ elim (Option-cases (position (λ x. x == pid) ids)) [
    | inl gone ↦ absurd (ground arith)
    | inr (i, e) ↦ let q : row ≡ suc i = ground arith in rw q (binary_search-found ids pid e)
  ]
]

binary_search-none :
    (ids : List ℕ) (pid : ℕ) → binary_search ids pid ≡ none → contains pid ids ≡ false
unfolding binary_search
binary_search-none [] pid h = refl
binary_search-none (id ∷ ids) pid h = elim (Option-cases (position (λ x. x == pid) ids)) [
  | inl gone ↦ ground (arith, binary_search-none ids pid gone)
  | inr (i, e) ↦ absurd (ground arith)
]

-- The lookup of the store finds a row of the id, or there is none.
pub local_row_lem :
    (s : ResidentSubsetPointStore) (pid : ℕ)
    → s.id_to_row ≡ (if s.sorted_unique_ids then [] else id_table s.global_ids)
    → ((row : ℕ) × (local_row_for_global_id s pid ≡ ok row)
        × (get_elem? s.global_ids row ≡ some pid))
      ⊎ ((local_row_for_global_id s pid ≡ err missing) × (contains pid s.global_ids ≡ false))
unfolding local_row_for_global_id
local_row_lem s pid table = elim (Bool-cases s.sorted_unique_ids) [
  | inl sorted ↦ elim (Option-cases (binary_search s.global_ids pid)) [
    | inl gone ↦ inr (rw (sorted, gone) refl, binary_search-none s.global_ids pid gone)
    | inr (row, e) ↦ inl (row, rw (sorted, e) refl, binary_search-found s.global_ids pid e)
  ]
  | inr unsorted ↦
      let t : s.id_to_row ≡ id_table s.global_ids = table ∙ rw unsorted refl in
      elim (Option-cases (row_of_key pid s.id_to_row)) [
        | inl gone ↦
            let k =
              row_of_key-none pid (id_table s.global_ids)
                (subst (λ l. row_of_key pid l ≡ none) t gone) in
            inr (rw (unsorted, gone) refl, sym (has_key-id_table pid s.global_ids) ∙ k)
        | inr (row, e) ↦ inl (
          row,
          rw (unsorted, e) refl,
          row_of_key-Names (Names s.global_ids) pid (id_table s.global_ids)
              (id_table-Names s.global_ids) (subst (λ l. row_of_key pid l ≡ some row) t e),
        )
      ]
]
