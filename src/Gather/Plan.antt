-- ===== src/Gather/Plan.antt =====
-- Sorting and grouping of the requested rows.
use native.Mathlib.Nat.{le_refl}
use forge_ann.Prelude.{
  ℕ, zero, suc, ◌+◌, ◌-◌, ◌≤◌, ◌<◌, ◌≡◌, refl, ap, Bool-cases, inl, inr, true, ◌||◌, ltb, leb, some,
  List, [], ◌∷◌, ◌++◌, length, get_elem?, All, All-imp, contains, contains_weaken, ◌∙◌, arith,
}
use forge_ann.Gather.{
  GatherRow, number_rows, WindowedGatherOptions, ordered_rows, insert_row, sort_rows, extend_window,
  last_id,
}

-- The row ids do not fall, and none is below `lo`.
abbrev pub Ascending : ℕ → List GatherRow → Type 0
Ascending lo [] = Unit
Ascending lo (r ∷ rows) = (lo ≤ r.row_id) × Ascending r.row_id rows

-- The row is a request: its place in `ids` holds its id.
abbrev pub IsRequest : List ℕ → GatherRow → Type 0
IsRequest ids r = get_elem? ids r.original_pos ≡ some r.row_id

abbrev pub positions : List GatherRow → List ℕ
positions [] = []
positions (r ∷ rows) = r.original_pos ∷ positions rows

insert_row-Ascending :
    (lo : ℕ) (r : GatherRow) (rows : List GatherRow)
    → lo ≤ r.row_id
    → Ascending lo rows
    → Ascending lo (insert_row r rows)
unfolding insert_row
insert_row-Ascending lo r [] h a = (h, tt)
insert_row-Ascending lo r (s ∷ rows) h (k, a) = elim (Bool-cases (leb r.row_id s.row_id)) [
  | inl first ↦ rw first (h, (ground arith, a))
  | inr later ↦ rw later (k, insert_row-Ascending s.row_id r rows (ground arith) a)
]

pub sort_rows-Ascending : (rows : List GatherRow) → Ascending 0 (sort_rows rows)
unfolding sort_rows
sort_rows-Ascending [] = tt
sort_rows-Ascending (r ∷ rows) =
    insert_row-Ascending 0 r (sort_rows rows) (omega arith) (sort_rows-Ascending rows)

module _ (P : GatherRow → Type 0) where
  All-insert_row :
      (r : GatherRow) (rows : List GatherRow) → P r → All P rows → All P (insert_row r rows)
  unfolding insert_row
  All-insert_row r [] p h = (p, tt)
  All-insert_row r (s ∷ rows) p (q, h) = elim (Bool-cases (leb r.row_id s.row_id)) [
    | inl first ↦ rw first (p, (q, h))
    | inr later ↦ rw later (q, All-insert_row r rows p h)
  ]

  pub All-sort_rows : (rows : List GatherRow) → All P rows → All P (sort_rows rows)
  unfolding sort_rows
  All-sort_rows [] h = tt
  All-sort_rows (r ∷ rows) (p, h) = All-insert_row r (sort_rows rows) p (All-sort_rows rows h)

insert_row_kept :
    (r : GatherRow) (rows : List GatherRow)
    → (length (insert_row r rows) ≡ suc (length rows))
      × ((i : ℕ) → contains i (positions (insert_row r rows)) ≡ contains i (positions (r ∷ rows)))
unfolding insert_row
insert_row_kept r [] = (refl, λ i. refl)
insert_row_kept r (s ∷ rows) = elim (Bool-cases (leb r.row_id s.row_id)) [
  | inl first ↦ rw first (refl, λ i. refl)
  | inr later ↦
      let (n, c) = insert_row_kept r rows in rw later (ap suc n, λ i. let e = c i in ground arith)
]

-- Sorting keeps the number of rows and their places.
pub sort_rows_kept :
    (rows : List GatherRow)
    → (length (sort_rows rows) ≡ length rows)
      × ((i : ℕ) → contains i (positions (sort_rows rows)) ≡ contains i (positions rows))
unfolding sort_rows
sort_rows_kept [] = (refl, λ i. refl)
sort_rows_kept (r ∷ rows) =
    let (n, c) = sort_rows_kept rows in
    let (m, d) = insert_row_kept r (sort_rows rows) in
    (omega arith, λ i. let e = c i in let f = d i in ground arith)

-- A window and the rows behind it are all the rows.
pub extend_window_lem :
    (max_gap max_rows first prev : ℕ) (rows : List GatherRow)
    → let (joined, behind) = extend_window max_gap max_rows first prev rows in
      joined ++ behind ≡ rows
unfolding extend_window
extend_window_lem max_gap max_rows first prev [] = refl
extend_window_lem max_gap max_rows first prev (r ∷ rows) =
    elim (Bool-cases (ltb max_gap (r.row_id - prev - 1) || ltb max_rows (r.row_id - first + 1))) [
      | inl stop ↦ rw stop refl
      | inr join ↦
          rw join (ap (λ l. r ∷ l) (extend_window_lem max_gap max_rows first r.row_id rows))
    ]

-- The rows of a window lie between its first and its last id; the rows behind do not fall.
pub last_id_lem :
    (lo : ℕ) (joined behind : List GatherRow)
    → Ascending lo (joined ++ behind)
    → (lo ≤ last_id lo joined)
      × All (λ r. (lo ≤ r.row_id) × (r.row_id ≤ last_id lo joined)) joined
      × Ascending (last_id lo joined) behind
unfolding last_id
last_id_lem lo [] behind a = (le_refl lo, tt, a)
last_id_lem lo (r ∷ joined) behind (h, a) =
    let (k, m, b) = last_id_lem r.row_id joined behind a in
    (omega arith, ((h, k), All-imp (λ s q. (omega arith, omega arith)) joined m), b)

pub positions-append :
    (i : ℕ) (xs ys : List GatherRow)
    → contains i (positions (xs ++ ys)) ≡ (contains i (positions xs) || contains i (positions ys))
positions-append i [] ys = refl
positions-append i (r ∷ xs) ys = let e = positions-append i xs ys in ground arith

number_rows_lem :
    (ids : List ℕ) (pos : ℕ) (rest : List ℕ)
    → ((i id : ℕ) → get_elem? rest i ≡ some id → get_elem? ids (pos + i) ≡ some id)
    → All (IsRequest ids) (number_rows pos rest)
unfolding number_rows
number_rows_lem ids pos [] h = tt
number_rows_lem ids pos (id ∷ rest) h = (
  ap (get_elem? ids) (omega arith) ∙ h 0 id refl,
  number_rows_lem ids (suc pos) rest (λ i j e. ap (get_elem? ids) (omega arith) ∙ h (suc i) j e),
)

-- Every requested place is numbered.
number_rows_full :
    (pos : ℕ) (rest : List ℕ) (i : ℕ)
    → i < length rest
    → contains (pos + i) (positions (number_rows pos rest)) ≡ true
unfolding number_rows
number_rows_full pos [] i h = absurd (omega arith)
number_rows_full pos (id ∷ rest) zero h = ground arith
number_rows_full pos (id ∷ rest) (suc i) h =
    let e = number_rows_full (suc pos) rest i (omega arith) in
    let q : pos + suc i ≡ suc pos + i = omega arith in
    ap (λ j. contains j (positions (number_rows pos (id ∷ rest)))) q
    ∙ contains_weaken (suc pos + i) pos (positions (number_rows (suc pos) rest)) e

All-row_ids :
    (n pos : ℕ) (rest : List ℕ)
    → All (λ id. id < n) rest
    → All (λ r. r.row_id < n) (number_rows pos rest)
unfolding number_rows
All-row_ids n pos [] h = tt
All-row_ids n pos (id ∷ rest) (p, h) = (p, All-row_ids n (suc pos) rest h)

length-number_rows : (pos : ℕ) (rest : List ℕ) → length (number_rows pos rest) ≡ length rest
unfolding number_rows
length-number_rows pos [] = refl
length-number_rows pos (id ∷ rest) = ap suc (length-number_rows (suc pos) rest)

-- What the rows of a request are once they are sorted.
pub sorted_requests_lem :
    (n : ℕ) (ids : List ℕ) (options : WindowedGatherOptions)
    → options.sort_ids ≡ true
    → All (λ id. id < n) ids
    → let rows = ordered_rows options (number_rows 0 ids) in
      Ascending 0 rows
      × (length rows ≡ length ids)
      × All (IsRequest ids) rows
      × All (λ r. r.row_id < n) rows
      × ((i : ℕ) → i < length ids → contains i (positions rows) ≡ true)
sorted_requests_lem n ids options sorted h =
    let rows = number_rows 0 ids in
    let (l, c) = sort_rows_kept rows in
    rw sorted (
      sort_rows-Ascending rows,
      l ∙ length-number_rows 0 ids,
      All-sort_rows (IsRequest ids) rows
          (number_rows_lem ids 0 ids (λ i id e. ap (get_elem? ids) (omega arith) ∙ e)),
      All-sort_rows (λ r. r.row_id < n) rows (All-row_ids n 0 ids h),
      λ i k. c i ∙ ap (λ j. contains j (positions rows)) (omega arith) ∙ number_rows_full 0 ids i k,
    )
