-- ===== src/Gather/Store/Placed.antt =====
-- The copy of one row, and of the rows of one window, into the output.
use native.Mathlib.Nat.{mul-le-mul_right, add-mul}
use forge_ann.Prelude.{
  ℕ, ◌+◌, ◌-◌, ◌*◌, ◌^◌, ◌≤◌, ◌<◌, ◌≡◌, ◌⊎◌, refl, ap, ◌∙◌, subst, Bool-cases, inl, inr, true, leb,
  ◌==◌, some, List, [], ◌∷◌, map, length, take, drop, get_elem?, get_or, lt_of_get_elem?, All,
  contains, arith, length-take, length-drop, ◌&&◌,
}
use forge_ann.Prelude.Results.{ok}
use forge_ann.Disk.{overwrite}
use forge_ann.Disk.Overwrite.{get_or-overwrite_outside}
use forge_ann.Disk.Padded.{get_or-drop, get_or-take, length-overwrite, get_or-overwrite_inside}
use forge_ann.Gather.{GatherRow, scatter_op, sub_u32}
use forge_ann.Gather.Store.{copy_row, scatter_window_rows}
use forge_ann.Gather.Plan.{IsRequest, positions}

-- A row ends where the next one starts at the earliest.
pub row_end : (w a b : ℕ) → a < b → a * w + w ≤ b * w
row_end w a b h = omega (arith, mul-le-mul_right w h)

split_row : (w start id k : ℕ) → start ≤ id → start * w + ((id - start) * w + k) ≡ id * w + k
split_row w start id k h =
    let whole : start + (id - start) ≡ id = omega arith in
    let e : (start + (id - start)) * w ≡ id * w = ap (λ n. n * w) whole in
    omega (arith, add-mul start (id - start) w)

module _ (ids values : List ℕ) (w : ℕ) where
  -- Row `i` of the output is the row of `values` that `ids` asks for.
  abbrev pub Holds : List ℕ → ℕ → Type 0
  Holds out i =
      (id k : ℕ)
      → get_elem? ids i ≡ some id
      → k < w
      → get_or out (i * w + k) 0 ≡ get_or values (id * w + k) 0

  -- The window's slice of the values.
  abbrev pub window_slice : ℕ → ℕ → List ℕ
  window_slice start count = take (count * w) (drop (start * w) values)

  window_row_lem :
      (start count id k : ℕ)
      → start ≤ id
      → id < start + count
      → k < w
      → get_or (take w (drop ((id - start) * w) (window_slice start count))) k 0
        ≡ get_or values (id * w + k) 0
  window_row_lem start count id k h j b =
      let inside : (id - start) * w + w ≤ count * w = row_end w (id - start) count (omega arith) in
      let place : start * w + ((id - start) * w + k) ≡ id * w + k = split_row w start id k h in
      get_or-take w _ k b
      ∙ get_or-drop ((id - start) * w) (window_slice start count) k
      ∙ get_or-take (count * w) (drop (start * w) values) ((id - start) * w + k) (omega arith)
      ∙ get_or-drop (start * w) values ((id - start) * w + k)
      ∙ ap (λ i. get_or values i 0) place

  -- A written row, and the rows beside it.
  Holds-overwrite :
      (out block : List ℕ) (pos id : ℕ)
      → length block ≡ w
      → get_elem? ids pos ≡ some id
      → ((k : ℕ) → k < w → get_or block k 0 ≡ get_or values (id * w + k) 0)
      → Holds (overwrite out (pos * w) block) pos
        × ((i : ℕ) → Holds out i → Holds (overwrite out (pos * w) block) i)
  Holds-overwrite out block pos id l e right = (here, beside)
    where
      here : Holds (overwrite out (pos * w) block) pos
      here id' k e' h =
          let same : id ≡ id' = cc in
          get_or-overwrite_inside out (pos * w) block k (omega arith)
          ∙ right k h
          ∙ ap (λ j. get_or values (j * w + k) 0) same

      beside : (i : ℕ) → Holds out i → Holds (overwrite out (pos * w) block) i
      beside i held id' k e' h = elim (Bool-cases (i == pos)) [
        | inl same ↦
            let q : pos ≡ i = ground arith in
            subst (λ j. Holds (overwrite out (pos * w) block) j) q here id' k e' h
        | inr other ↦
            let apart : (i < pos) ⊎ (pos < i) = ground arith in
            let away : (i * w + k < pos * w) ⊎ (pos * w + length block ≤ i * w + k) = elim apart [
              | inl before ↦ inl (omega (arith, row_end w i pos before))
              | inr after ↦ inr (omega (arith, row_end w pos i after))
            ] in
            get_or-overwrite_outside out (pos * w) block (i * w + k) away ∙ held id' k e' h
      ]

  -- The request lies in the window.
  abbrev pub IsInside : ℕ → ℕ → GatherRow → Type 0
  IsInside start count r = (start ≤ r.row_id) × (r.row_id < start + count)

  copy_row_lem :
      (start count : ℕ) (r : GatherRow) (out : List ℕ)
      → (start + count) * w ≤ length values
      → start + count ≤ 2 ^ 32
      → length out ≡ length ids * w
      → IsRequest ids r
      → IsInside start count r
      → (out' : List ℕ) × (copy_row w (window_slice start count) (scatter_op start r) out ≡ ok out')
        × (length out' ≡ length out)
        × Holds out' r.original_pos
        × ((i : ℕ) → Holds out i → Holds out' i)
  unfolding copy_row scatter_op
  copy_row_lem start count r out room small l req (lo, hi) =
      let pos = r.original_pos in
      let o = r.row_id - start in
      let slice = window_slice start count in
      let offset : sub_u32 r.row_id start ≡ o = omega arith in
      let whole : length slice ≡ count * w = omega (
        arith,
        length-take (count * w) (drop (start * w) values),
        length-drop (start * w) values,
        add-mul start count w,
      ) in
      let src : o * w + w ≤ length slice = let e = row_end w o count (omega arith) in omega arith in
      let dst : pos * w + w ≤ length out =
        let e = row_end w pos (length ids) (lt_of_get_elem? ids pos req) in omega arith in
      let block = take w (drop (o * w) slice) in
      let size : length block ≡ w =
        omega (arith, length-take w (drop (o * w) slice), length-drop (o * w) slice) in
      let fits : (leb (o * w + w) (length slice) && leb (pos * w + w) (length out)) ≡ true =
        ground arith in
      let (here, beside) =
        Holds-overwrite out block pos r.row_id size req
          (λ k h. window_row_lem start count r.row_id k lo hi h) in
      (
        overwrite out (pos * w) block,
        rw (offset, fits) refl,
        length-overwrite out (pos * w) block (omega arith),
        here,
        beside,
      )

  -- A window's rows are all placed.
  pub scatter_lem :
      (start count : ℕ) (rows : List GatherRow) (out : List ℕ)
      → (start + count) * w ≤ length values
      → start + count ≤ 2 ^ 32
      → length out ≡ length ids * w
      → All (IsRequest ids) rows
      → All (IsInside start count) rows
      → (out' : List ℕ) × (scatter_window_rows w
            (window_slice start count)
            (map (scatter_op start) rows)
            out
          ≡ ok out')
        × (length out' ≡ length out)
        × ((i : ℕ) → (contains i (positions rows) ≡ true) ⊎ Holds out i → Holds out' i)
  unfolding scatter_window_rows
  scatter_lem start count [] out room small l qs is =
      (out, refl, refl, λ i c. elim c [ inl no_row ↦ absurd (ground arith) | inr held ↦ held ])
  scatter_lem start count (r ∷ rows) out room small l (q, qs) (s, is) =
      let (mid, e, m, here, beside) = copy_row_lem start count r out room small l q s in
      let (out', f, n, all) = scatter_lem start count rows mid room small (m ∙ l) qs is in
      (
        out',
        rw e f,
        n ∙ m,
        λ i c. elim c [
          | inl row ↦ elim (Bool-cases (r.original_pos == i)) [
            | inl same ↦
                let p : r.original_pos ≡ i = ground arith in all i (inr (subst (Holds mid) p here))
            | inr other ↦ all i (inl (ground arith))
          ]
          | inr held ↦ all i (inr (beside i held))
        ],
      )
