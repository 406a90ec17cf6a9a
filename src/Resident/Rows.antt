-- ===== src/Resident/Rows.antt =====
-- The reference of a read, and the reads by lookup.
use native.Mathlib.Nat.{suc-mul, mul-le-mul_right}
use forge_ann.Prelude.{
  ℕ, suc, ◌+◌, ◌*◌, ◌≤◌, ◌<◌, ◌≡◌, refl, false, ltb, if◌then◌else◌, inl, inr, List, [], ◌∷◌, ◌++◌,
  length, take, drop, lt_of_get_elem?, AreDistinct, arith,
}
use forge_ann.Prelude.Results.{Result, ok, ok_or, ◌>>=◌}
use forge_ann.Resident.{
  ResidentSubsetPointStore, StoreError, missing, is_strictly_increasing, id_table, copy_row,
  read_each,
}
use forge_ann.Resident.Lookup.{find_row, find_row-absent, find_row-at, local_row_lem}

-- A store as `new` makes it, of ids without repetition.
pub record IsStore (s : ResidentSubsetPointStore) : Type 0 where
  pub fits : length s.vectors ≡ length s.global_ids * s.dim
  pub table : s.id_to_row ≡ (if s.sorted_unique_ids then [] else id_table s.global_ids)
  pub flag : s.sorted_unique_ids ≡ is_strictly_increasing s.global_ids
  pub distinct : AreDistinct s.global_ids

-- The rows of the ids one after the other, or `missing` at the first id without one.
unfoldable pub rows_of : ResidentSubsetPointStore → List ℕ → Result StoreError (List ℕ)
unfolding find_row
rows_of s [] = ok []
rows_of s (pid ∷ ids) = ok_or (find_row s.dim pid s.global_ids s.vectors) missing >>= λ row.
    rows_of s ids >>= λ rows. ok (row ++ rows)

pub copy_row_lem :
    (s : ResidentSubsetPointStore) (row : ℕ)
    → IsStore s
    → row < length s.global_ids
    → copy_row s row ≡ ok (take s.dim (drop (row * s.dim) s.vectors))
unfolding copy_row
copy_row_lem s row v h =
    let most : suc row * s.dim ≤ length s.global_ids * s.dim = mul-le-mul_right s.dim h in
    let step = suc-mul row s.dim in
    let whole = v.fits in
    let inside : ltb (length s.vectors) (row * s.dim + s.dim) ≡ false = ground arith in
    rw inside refl

pub read_each_lem :
    (s : ResidentSubsetPointStore) (ids : List ℕ) → IsStore s → read_each s ids ≡ rows_of s ids
unfolding read_each rows_of
read_each_lem s [] v = refl
read_each_lem s (pid ∷ ids) v = elim (local_row_lem s pid v.table) [
  | inl (row, e, at) ↦
      rw
        (
          e,
          copy_row_lem s row v (lt_of_get_elem? s.global_ids row at),
          find_row-at s.dim pid row s.global_ids s.vectors v.distinct at,
          read_each_lem s ids v,
        )
        refl
  | inr (e, absent) ↦ rw (e, find_row-absent s.dim pid s.global_ids s.vectors absent) refl
]
