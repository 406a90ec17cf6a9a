-- ===== src/MemGraph/Encode.antt =====
-- The bytes of rows and of the header, and what the reading helpers make of them.
use forge_ann.Prelude.{
  ℕ, zero, suc, ◌+◌, ◌*◌, ◌^◌, ◌<◌, ◌≡◌, refl, ap, ◌∙◌, subst, Option-cases, inl, inr, some, List,
  [], ◌∷◌, ◌++◌, length, length-append, All, arith,
}
use mathlib.Core.List.{append_assoc}
use forge_ann.Bytes.{
  to_le_bytes, read_le, IsByte, length-to_le_bytes, read_le-to_le_bytes, to_le_bytes-read_le,
}
use forge_ann.MemGraph.{header, encode_ids, read_ids}

abbrev pub IsId : ℕ → Type 0
IsId id = id < 2 ^ 32

-- A row whose degree and ids fit in a u32.
abbrev pub IsRow : List ℕ → Type 0
IsRow row = (length row < 2 ^ 32) × All IsId row

unfoldable pub encode_rows : List (List ℕ) → List ℕ
encode_rows [] = []
encode_rows (row ∷ rows) = to_le_bytes 4 (length row) ++ (encode_ids row ++ encode_rows rows)

-- The bytes that the rows take.
abbrev pub size_rows : List (List ℕ) → ℕ
size_rows [] = 0
size_rows (row ∷ rows) = (length row + 1) * 4 + size_rows rows

pub length-header : (i m s f : ℕ) → length (header i m s f) ≡ 24
unfolding header
length-header i m s f = omega (
  arith,
  length-append {0} (to_le_bytes 8 i) (to_le_bytes 4 m ++ (to_le_bytes 4 s ++ to_le_bytes 8 f)),
  length-append {0} (to_le_bytes 4 m) (to_le_bytes 4 s ++ to_le_bytes 8 f),
  length-append {0} (to_le_bytes 4 s) (to_le_bytes 8 f),
  length-to_le_bytes 8 i,
  length-to_le_bytes 4 m,
  length-to_le_bytes 4 s,
  length-to_le_bytes 8 f,
)

pub length-encode_ids : (ids : List ℕ) → length (encode_ids ids) ≡ length ids * 4
unfolding encode_ids
length-encode_ids [] = refl
length-encode_ids (id ∷ ids) = omega (
  arith,
  length-append {0} (to_le_bytes 4 id) (encode_ids ids),
  length-to_le_bytes 4 id,
  length-encode_ids ids,
)

pub read_ids-encode_ids :
    (ids rest : List ℕ)
    → All IsId ids
    → read_ids (length ids) (encode_ids ids ++ rest) ≡ some (ids, rest)
unfolding encode_ids read_ids
read_ids-encode_ids [] rest a = refl
read_ids-encode_ids (id ∷ ids) rest (b, a) = rw append_assoc (
    ground
      (arith, read_le-to_le_bytes 4 id (encode_ids ids ++ rest) b, read_ids-encode_ids ids rest a))

pub encode_ids-read_ids :
    (n : ℕ) (bytes : List ℕ) {ids rest : List ℕ}
    → All IsByte bytes
    → read_ids n bytes ≡ some (ids, rest)
    → (bytes ≡ encode_ids ids ++ rest) × (length ids ≡ n) × All IsByte rest
unfolding encode_ids read_ids
encode_ids-read_ids zero bytes {ids} {rest} a e =
    let none_read : ids ≡ [] = ground arith in
    let same : bytes ≡ rest = ground arith in
    (rw none_read same, rw none_read, subst (All IsByte) same a)
encode_ids-read_ids (suc n) bytes {ids} {rest} a e = elim (Option-cases (read_le 4 bytes)) [
  | inl gone ↦ absurd (ground arith)
  | inr ((id, r), f) ↦ elim (Option-cases (read_ids n r)) [
    | inl gone ↦ absurd (ground arith)
    | inr ((ids', r'), g) ↦
        let (p, _, a') = to_le_bytes-read_le 4 bytes a f in
        let (q, l, a'') = encode_ids-read_ids n r a' g in
        let whole : ids ≡ id ∷ ids' = ground arith in
        let same : r' ≡ rest = ground arith in
        (
          rw (whole, ← same, append_assoc) (p ∙ ap (λ (t : List ℕ). to_le_bytes 4 id ++ t) q),
          rw (whole, l),
          subst (All IsByte) same a'',
        )
  ]
]
