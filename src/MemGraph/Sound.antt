-- ===== src/MemGraph/Sound.antt =====
-- The files that `load_mem_graph` accepts.
use mathlib.Core.List.{append_assoc}
use forge_ann.Prelude.{
  ℕ, zero, suc, ◌+◌, ◌-◌, ◌*◌, ◌≤◌, ◌≡◌, refl, ap, ◌∙◌, subst, List, [], ◌∷◌, ◌++◌, length, All,
  arith, ltb, some, Option-cases, Bool-cases, inl, inr,
}
use forge_ann.Prelude.Results.{ok, Result-cases}
use forge_ann.Bytes.{IsByte, to_le_bytes, read_le, to_le_bytes-read_le}
use forge_ann.MemGraph.{
  LoadedMemGraph, header, encode_ids, read_ids, load_row, load_rows, load_mem_graph,
}
use forge_ann.MemGraph.Encode.{encode_rows, size_rows, encode_ids-read_ids}

load_row_sound :
    (total done : ℕ) (bytes : List ℕ) {row rest : List ℕ} {done' : ℕ}
    → All IsByte bytes
    → load_row total done bytes ≡ ok (row, done', rest)
    → (bytes ≡ to_le_bytes 4 (length row) ++ (encode_ids row ++ rest))
      × (done' ≡ done + 4 + length row * 4)
      × (done' ≤ total)
      × All IsByte rest
unfolding load_row
load_row_sound total done bytes {row} {rest} {done'} a e = elim (Option-cases (read_le 4 bytes)) [
  | inl gone ↦ absurd (ground arith)
  | inr ((degree, r), f) ↦ elim (Option-cases (read_ids degree r)) [
    | inl gone ↦ absurd (ground arith)
    | inr ((ids, r'), g) ↦
        let (p, _, a') = to_le_bytes-read_le 4 bytes a f in
        let (q, l, a'') = encode_ids-read_ids degree r a' g in
        let whole : ids ≡ row = ground arith in
        let same : r' ≡ rest = ground arith in
        let degrees : length row ≡ degree = rw (← whole) l in
        (
          rw (degrees, ← whole, ← same) (p ∙ ap (λ (t : List ℕ). to_le_bytes 4 degree ++ t) q),
          ground arith,
          ground arith,
          subst (All IsByte) same a'',
        )
  ]
]

load_rows_sound :
    (n total done : ℕ) (bytes : List ℕ) {rows : List (List ℕ)}
    → All IsByte bytes
    → done ≤ total
    → load_rows n total done bytes ≡ ok rows
    → (rest : List ℕ) × (bytes ≡ encode_rows rows ++ rest) × (done + size_rows rows ≡ total)
unfolding load_rows encode_rows
load_rows_sound zero total done bytes {rows} a h e =
    let empty : rows ≡ [] = ground arith in (bytes, rw empty refl, rw empty (ground arith))
load_rows_sound (suc n) total done bytes {rows} a h e = elim (Bool-cases (ltb done total)) [
  | inr finished ↦
      let empty : rows ≡ [] = ground arith in (bytes, rw empty refl, rw empty (ground arith))
  | inl more ↦ elim (Result-cases (load_row total done bytes)) [
    | inr (x, f) ↦ absurd (ground arith)
    | inl ((row, done', r), f) ↦ elim (Result-cases (load_rows n total done' r)) [
      | inr (x, g) ↦ absurd (ground arith)
      | inl (rows', g) ↦
          let (p, d, b, a') = load_row_sound total done bytes a f in
          let (rest, q, t) = load_rows_sound n total done' r a' b g in
          let whole : rows ≡ row ∷ rows' = ground arith in
          (
            rest,
            rw whole (
                simp append_assoc
                  (p ∙ ap (λ (l : List ℕ). to_le_bytes 4 (length row) ++ (encode_ids row ++ l)) q)),
            rw whole (omega arith),
          )
    ]
  ]
]

loaded_fields :
    (file : List ℕ) (n : ℕ) {g : LoadedMemGraph} {i m s fr : ℕ} {r1 r2 r3 r4 : List ℕ}
    {rows : List (List ℕ)}
    → load_mem_graph file n ≡ ok g
    → read_le 8 file ≡ some (i, r1)
    → read_le 4 r1 ≡ some (m, r2)
    → read_le 4 r2 ≡ some (s, r3)
    → read_le 8 r3 ≡ some (fr, r4)
    → load_rows n (i - 24) 0 r4 ≡ ok rows
    → (g ≡ record {
      index_size = i;
      max_degree = m;
      start = s;
      num_frozen_pts = fr;
      neighbors = rows;
    })
      × (24 ≤ i)
      × (length rows ≡ n)
unfolding load_mem_graph
loaded_fields file n e f1 f2 f3 f4 f5 = ground arith

header_bytes :
    (i m s fr : ℕ) (body : List ℕ) {file r1 r2 r3 r4 : List ℕ}
    → file ≡ to_le_bytes 8 i ++ r1
    → r1 ≡ to_le_bytes 4 m ++ r2
    → r2 ≡ to_le_bytes 4 s ++ r3
    → r3 ≡ to_le_bytes 8 fr ++ r4
    → r4 ≡ body
    → file ≡ header i m s fr ++ body
unfolding header
header_bytes i m s fr body p1 p2 p3 p4 q = rw (p1, p2, p3, p4, q) (simp append_assoc)

-- A file of bytes that is loaded as `n` nodes begins with the header and the rows of the result as
-- the writer lays them out, holds `n` rows, and its size field is the size of header and rows.
pub load_mem_graph_sound :
    (file : List ℕ) (n : ℕ) {g : LoadedMemGraph}
    → All IsByte file
    → load_mem_graph file n ≡ ok g
    → (rest : List ℕ) × (file
        ≡ header g.index_size g.max_degree g.start g.num_frozen_pts
          ++ (encode_rows g.neighbors ++ rest))
      × (g.index_size ≡ 24 + size_rows g.neighbors)
      × (length g.neighbors ≡ n)
unfolding load_mem_graph
load_mem_graph_sound file n {g} a e = elim (Option-cases (read_le 8 file)) [
  | inl gone ↦ absurd (ground arith)
  | inr ((i, r1), f1) ↦ elim (Option-cases (read_le 4 r1)) [
    | inl gone ↦ absurd (ground arith)
    | inr ((m, r2), f2) ↦ elim (Option-cases (read_le 4 r2)) [
      | inl gone ↦ absurd (ground arith)
      | inr ((s, r3), f3) ↦ elim (Option-cases (read_le 8 r3)) [
        | inl gone ↦ absurd (ground arith)
        | inr ((fr, r4), f4) ↦ elim (Result-cases (load_rows n (i - 24) 0 r4)) [
          | inr (x, f5) ↦ absurd (ground arith)
          | inl (rows, f5) ↦
              let (p1, _, a1) = to_le_bytes-read_le 8 file a f1 in
              let (p2, _, a2) = to_le_bytes-read_le 4 r1 a1 f2 in
              let (p3, _, a3) = to_le_bytes-read_le 4 r2 a2 f3 in
              let (p4, _, a4) = to_le_bytes-read_le 8 r3 a3 f4 in
              let (rest, q, t) = load_rows_sound n (i - 24) 0 r4 a4 (omega arith) f5 in
              let (whole, big, count) = loaded_fields file n e f1 f2 f3 f4 f5 in
              (
                rest,
                rw whole (header_bytes i m s fr (encode_rows rows ++ rest) p1 p2 p3 p4 q),
                rw whole (omega arith),
                rw whole count,
              )
        ]
      ]
    ]
  ]
]
