-- ===== src/Gather/Store/Read.antt =====
-- The windowed read of the mapped store against a read of each row by itself.
use native.Mathlib.Nat.{mul-le-mul_right}
use forge_ann.Prelude.{
  ℕ, zero, suc, ◌+◌, ◌*◌, ◌%◌, ◌^◌, ◌≤◌, ◌<◌, ◌≡◌, ◌⊎◌, refl, ap, ◌∙◌, sym, subst, Bool-cases, inl,
  inr, true, false, ltb, ◌==◌, not, some, List, [], ◌∷◌, ◌++◌, length, length-append, get_elem?,
  get_or, lt_of_get_elem?, All, All-imp, All-of_append, contains, arith,
}
use forge_ann.Prelude.Results.{ok}
use forge_ann.Gather.{
  WindowedGatherOptions, WindowedGatherStats, GatherRow, number_rows, ordered_rows, extend_window,
  last_id, count_window, count_distinct, count_request, max_window_rows, plan_windows,
  build_gather_plan, sub_u32,
}
use forge_ann.Gather.Plan.{
  Ascending, IsRequest, positions, extend_window_lem, last_id_lem, positions-append,
  sorted_requests_lem,
}
use forge_ann.Gather.Store.{
  MmapPointStore, mapped_rows, read_windows, read_points_windowed_into_stats,
}
use forge_ann.Gather.Store.Placed.{Holds, window_slice, scatter_lem}

-- The file holds its rows, and row ids are `u32`.
pub record IsStore (store : MmapPointStore) : Type 0 where
  pub filled : length store.values ≡ store.num_points * store.dim
  pub small : store.num_points < 2 ^ 32

module _ (store : MmapPointStore) (valid : IsStore store) (ids : List ℕ)
    (options : WindowedGatherOptions) (row_bytes max_rows : ℕ) where
  abbrev IsKnown : GatherRow → Type 0
  IsKnown r = r.row_id < store.num_points

  last_known :
      (lo : ℕ) (rows : List GatherRow)
      → lo < store.num_points
      → All IsKnown rows
      → last_id lo rows < store.num_points
  unfolding last_id
  last_known lo [] h k = h
  last_known lo (r ∷ rows) h (k, ks) = last_known r.row_id rows k ks

  mapped_lem :
      (start count : ℕ)
      → start + count ≤ store.num_points
      → mapped_rows store (record { start_row = start; row_count = count })
        ≡ ok (window_slice ids store.values store.dim start count)
  unfolding mapped_rows
  mapped_lem start count h =
      let fits : ltb store.num_points (start + count) ≡ false = ground arith in rw fits refl

  -- What a window has placed, and what is left to the windows behind it.
  next_lem :
      (i : ℕ) (r : GatherRow) (joined behind rows : List GatherRow) (out mid : List ℕ)
      → joined ++ behind ≡ rows
      → ((i : ℕ)
          → (contains i (positions (r ∷ joined)) ≡ true) ⊎ Holds ids store.values store.dim out i
          → Holds ids store.values store.dim mid i)
      → (contains i (positions (r ∷ rows)) ≡ true) ⊎ Holds ids store.values store.dim out i
      → (contains i (positions behind) ≡ true) ⊎ Holds ids store.values store.dim mid i
  next_lem i r joined behind rows out mid parts c (inr held) = inr (c i (inr held))
  next_lem i r joined behind rows out mid parts c (inl row) =
      let whole = ap (λ l. contains i (positions l)) parts in
      let both = positions-append i joined behind in
      elim (Bool-cases (contains i (positions behind))) [
        | inl later ↦ inl later
        | inr gone ↦ inr (c i (inl (ground arith)))
      ]

  -- All windows of a plan, one after the other.
  windows_lem :
      (fuel lo : ℕ) (rows : List GatherRow) (stats : WindowedGatherStats) (out : List ℕ)
      → length rows ≤ fuel
      → Ascending lo rows
      → All (IsRequest ids) rows
      → All IsKnown rows
      → length out ≡ length ids * store.dim
      → let plan = (plan_windows options row_bytes max_rows fuel rows stats).0 in
        (out' : List ℕ) × (read_windows store plan.windows plan.scatter_by_window out ≡ ok out')
        × (length out' ≡ length out)
        × ((i : ℕ)
            → (contains i (positions rows) ≡ true) ⊎ Holds ids store.values store.dim out i
            → Holds ids store.values store.dim out' i)
  unfolding plan_windows read_windows
  windows_lem zero lo [] stats out h a q k l =
      (out, refl, refl, λ i c. elim c [ inl no_row ↦ absurd (ground arith) | inr held ↦ held ])
  windows_lem zero lo (r ∷ rows) stats out h a q k l = absurd (omega arith)
  windows_lem (suc fuel) lo [] stats out h a q k l =
      (out, refl, refl, λ i c. elim c [ inl no_row ↦ absurd (ground arith) | inr held ↦ held ])
  windows_lem (suc fuel) lo (r ∷ rows) stats out h (g, a) (q, qs) (k, ks) l =
      let (joined, behind) = extend_window options.max_gap_rows max_rows r.row_id r.row_id rows in
      let parts : joined ++ behind ≡ rows =
        extend_window_lem options.max_gap_rows max_rows r.row_id r.row_id rows in
      let (qj, qb) =
        All-of_append (IsRequest ids) joined behind (subst (All (IsRequest ids)) (sym parts) qs) in
      let (kj, kb) = All-of_append IsKnown joined behind (subst (All IsKnown) (sym parts) ks) in
      let (up, within, ab) =
        last_id_lem r.row_id joined behind (subst (Ascending r.row_id) (sym parts) a) in
      let last = last_id r.row_id joined in
      let known : last < store.num_points = last_known r.row_id joined k kj in
      let small = valid.small in
      let count = (sub_u32 last r.row_id + 1) % 2 ^ 32 in
      let reach : r.row_id + count ≡ suc last = omega arith in
      let mapped = mapped_lem r.row_id count (omega arith) in
      let room : (r.row_id + count) * store.dim ≤ length store.values =
        let e : (r.row_id + count) * store.dim ≤ store.num_points * store.dim =
          mul-le-mul_right store.dim (omega arith) in
        let f = valid.filled in omega arith in
      let (mid, e, m, c) =
        scatter_lem ids store.values store.dim r.row_id count (r ∷ joined) out room (omega arith) l
          (q, qj) ((omega arith, omega arith), All-imp (λ s b. (b.0, omega arith)) joined within) in
      let counted =
        count_window options row_bytes count (suc (length joined))
          (suc (count_distinct r.row_id joined)) stats in
      let (out', f, n, d) =
        windows_lem fuel last behind counted mid
          (let t = length-append joined behind in let u = ap length parts in omega arith) ab qb kb
          (m ∙ l) in
      (
        out',
        rw (mapped, e) f,
        n ∙ m,
        λ i t. d i (next_lem i r joined behind rows out mid parts c t),
      )

-- The windowed read of a store succeeds, whatever gaps and window sizes are allowed, and gives
-- exactly the rows that a read of each requested row by itself would give, in the order of the
-- request, if the ids are sorted for the plan, every id is a row of the store, and the output has
-- room for one row for each id.
pub read_points_windowed_lem :
    (store : MmapPointStore) (ids out : List ℕ) (options : WindowedGatherOptions)
    (stats : WindowedGatherStats)
    → IsStore store
    → options.sort_ids ≡ true
    → All (λ id. id < store.num_points) ids
    → length out ≡ length ids * store.dim
    → (out' : List ℕ) × (stats' : WindowedGatherStats) × (read_points_windowed_into_stats store ids
          out options stats
        ≡ ok (out', stats'))
      × (length out' ≡ length out)
      × ((i id k : ℕ)
          → get_elem? ids i ≡ some id
          → k < store.dim
          → get_or out' (i * store.dim + k) 0 ≡ get_or store.values (id * store.dim + k) 0)
unfolding read_points_windowed_into_stats build_gather_plan
read_points_windowed_lem store ids out options stats valid sorted known l =
    let row_bytes = store.dim * 4 in
    let counted = count_request ids row_bytes stats in
    let max_rows = max_window_rows ids row_bytes options in
    let ordered = ordered_rows options (number_rows 0 ids) in
    let (up, size, requests, rows_known, full) =
      sorted_requests_lem store.num_points ids options sorted known in
    let (out', e, n, held) =
      windows_lem store valid ids options row_bytes max_rows (length ids) 0 ordered counted out
        (omega arith) up requests rows_known l in
    elim (Bool-cases (length ids == 0)) [
      | inl empty ↦ (
        out,
        stats,
        rw empty refl,
        refl,
        λ i id k f h. let short = lt_of_get_elem? ids i f in absurd (ground arith),
      )
      | inr more ↦
          let fits : not (length out == length ids * store.dim) ≡ false = ground arith in
          (
            out',
            (plan_windows options row_bytes max_rows (length ids) ordered counted).1,
            rw (more, fits, e) refl,
            n,
            λ i id k f h. held i (inl (full i (lt_of_get_elem? ids i f))) id k f h,
          )
    ]
