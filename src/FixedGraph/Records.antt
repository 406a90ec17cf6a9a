-- ===== src/FixedGraph/Records.antt =====
-- The bytes of one record, and of a file of records.
use native.Mathlib.Nat.{pow-suc}
use forge_ann.Prelude.{
  ℕ, zero, suc, ◌+◌, ◌-◌, ◌*◌, ◌/◌, ◌%◌, ◌^◌, ◌≤◌, ◌<◌, ◌≡◌, refl, ap, ap₂, ◌∙◌, min, false, ltb,
  List, [], ◌∷◌, ◌++◌, length, length-append, length-take, length-replicate, take, drop, replicate,
  All, arith,
}
use forge_ann.Prelude.Results.{ok}
use forge_ann.Bytes.{to_le_bytes, from_le_bytes, length-to_le_bytes}
use forge_ann.Disk.{overwrite}
use forge_ann.Disk.Overwrite.{overwrite-append, overwrite_prefix}
use forge_ann.MemGraph.{encode_ids}
use forge_ann.MemGraph.Encode.{IsId, length-encode_ids, read_ids-encode_ids}
use forge_ann.FixedGraph.{node_record, load_record, load_records}

abbrev pub zeros : ℕ → List ℕ
zeros n = replicate n 0

-- The record of a row that fits, in a graph of degree `d`.
abbrev pub fixed_record : ℕ → List ℕ → List ℕ
fixed_record d row = to_le_bytes 4 (length row) ++ (encode_ids row ++ zeros ((d - length row) * 4))

abbrev pub fixed_records : ℕ → List (List ℕ) → List ℕ
fixed_records d [] = []
fixed_records d (row ∷ rows) = fixed_record d row ++ fixed_records d rows

-- A row that a record can hold.
abbrev pub Fits : ℕ → List ℕ → Type 0
Fits d row = (length row ≤ d) × All IsId row

take-prefix : (n : ℕ) (xs ys : List ℕ) → length xs ≡ n → take n (xs ++ ys) ≡ xs
take-prefix zero [] ys e = refl
take-prefix zero (x ∷ xs) ys e = absurd (omega arith)
take-prefix (suc n) [] ys e = absurd (omega arith)
take-prefix (suc n) (x ∷ xs) ys e = ap (λ l. x ∷ l) (take-prefix n xs ys (omega arith))

drop-prefix : (n : ℕ) (xs ys : List ℕ) → length xs ≡ n → drop n (xs ++ ys) ≡ ys
drop-prefix zero [] ys e = refl
drop-prefix zero (x ∷ xs) ys e = absurd (omega arith)
drop-prefix (suc n) [] ys e = absurd (omega arith)
drop-prefix (suc n) (x ∷ xs) ys e = drop-prefix n xs ys (omega arith)

pub zeros-add : (m n : ℕ) → zeros (m + n) ≡ zeros m ++ zeros n
zeros-add zero n = ap zeros (omega arith)
zeros-add (suc m) n =
    let q : suc m + n ≡ suc (m + n) = omega arith in ap zeros q ∙ ap (λ l. 0 ∷ l) (zeros-add m n)

from_le_bytes-to_le_bytes : (k v : ℕ) → v < 256 ^ k → from_le_bytes (to_le_bytes k v) ≡ v
unfolding from_le_bytes to_le_bytes
from_le_bytes-to_le_bytes zero v h = omega arith
from_le_bytes-to_le_bytes (suc k) v h =
    omega (arith, from_le_bytes-to_le_bytes k (v / 256) (omega (arith, pow-suc 256 k)))

pub length-fixed_record :
    (d : ℕ) (row : List ℕ) → length row ≤ d → length (fixed_record d row) ≡ (d + 1) * 4
length-fixed_record d row h = omega (
  arith,
  length-append {0} (to_le_bytes 4 (length row)) (encode_ids row ++ zeros ((d - length row) * 4)),
  length-append {0} (encode_ids row) (zeros ((d - length row) * 4)),
  length-to_le_bytes 4 (length row),
  length-encode_ids row,
  length-replicate {0} {A = ℕ} ((d - length row) * 4) 0,
)

-- Laying bytes over the front of as many zeros and more.
overwrite_front :
    (n : ℕ) (bytes : List ℕ)
    → length bytes ≤ n
    → overwrite (zeros n) 0 bytes ≡ bytes ++ zeros (n - length bytes)
overwrite_front n bytes h =
    ap (λ m. overwrite (zeros m) 0 bytes) (omega arith)
    ∙ ap (λ l. overwrite l 0 bytes) (zeros-add (length bytes) (n - length bytes))
    ∙ overwrite_prefix (zeros (length bytes)) (zeros (n - length bytes)) bytes
        (length-replicate {0} {A = ℕ} (length bytes) 0)

-- The writer's record is that of the kept neighbours.
pub node_record_lem :
    (d : ℕ) (row : List ℕ)
    → d < 2 ^ 32
    → node_record ((d + 1) * 4) d row ≡ fixed_record d (take d row)
unfolding node_record
node_record_lem d row h =
    let kept : take (min (length row) d) row ≡ take d row = take-min d row in
    let size : min (length row) d ≡ length (take d row) = omega (arith, length-take d row) in
    let word : length (take d row) % 2 ^ 32 ≡ length (take d row) = omega arith in
    let head = to_le_bytes 4 (length (take d row)) in
    let ids = encode_ids (take d row) in
    let four : length head ≡ 4 = length-to_le_bytes 4 (length (take d row)) in
    let room : length ids ≤ d * 4 =
      omega (arith, length-encode_ids (take d row), length-take d row) in
    let after : (d + 1) * 4 - length head ≡ d * 4 = omega arith in
    let place : 4 ≡ length head + 0 = omega arith in
    let behind : d * 4 - length ids ≡ (d - length (take d row)) * 4 =
      omega (arith, length-encode_ids (take d row)) in
    rw (kept, size, word)
      (ap (λ l. overwrite l 4 ids) (overwrite_front ((d + 1) * 4) head (omega arith))
        ∙ ap₂ (λ m n. overwrite (head ++ zeros m) n ids) after place
        ∙ overwrite-append head (zeros (d * 4)) 0 ids
        ∙ ap (λ l. head ++ l) (overwrite_front (d * 4) ids room)
        ∙ ap (λ n. head ++ (ids ++ zeros n)) behind)
  where
    take-min : (d : ℕ) (row : List ℕ) → take (min (length row) d) row ≡ take d row
    take-min zero row = let q : min (length row) 0 ≡ 0 = omega arith in ap (λ k. take k row) q
    take-min (suc d) [] = let q : min 0 (suc d) ≡ 0 = omega arith in ap (λ k. take {A = ℕ} k []) q
    take-min (suc d) (x ∷ row) =
        let q : min (suc (length row)) (suc d) ≡ suc (min (length row) d) = omega arith in
        ap (λ k. take k (x ∷ row)) q ∙ ap (λ l. x ∷ l) (take-min d row)

-- A record is loaded as its row.
pub load_record_lem :
    (d : ℕ) (row rest : List ℕ)
    → d < 2 ^ 32
    → Fits d row
    → load_record ((d + 1) * 4) d (fixed_record d row ++ rest) ≡ ok (row, rest)
unfolding load_record
load_record_lem d row rest h (l, a) =
    let rec = fixed_record d row in
    let tail = encode_ids row ++ zeros ((d - length row) * 4) in
    let size = length-fixed_record d row l in
    let four = length-to_le_bytes 4 (length row) in
    let degree : from_le_bytes (to_le_bytes 4 (length row)) ≡ length row =
      from_le_bytes-to_le_bytes 4 (length row) (omega arith) in
    let long : ltb (length (rec ++ rest)) ((d + 1) * 4) ≡ false =
      let t = length-append {0} rec rest in ground arith in
    let low : ltb d (length row) ≡ false = ground arith in
    rw
      (
        take-prefix ((d + 1) * 4) rec rest size,
        drop-prefix ((d + 1) * 4) rec rest size,
        take-prefix 4 (to_le_bytes 4 (length row)) tail four,
        drop-prefix 4 (to_le_bytes 4 (length row)) tail four,
        degree,
        long,
        low,
        read_ids-encode_ids row (zeros ((d - length row) * 4)) a,
      )
      refl

pub load_records_lem :
    (d : ℕ) (rows : List (List ℕ))
    → d < 2 ^ 32
    → All (Fits d) rows
    → load_records ((d + 1) * 4) d (length rows) (fixed_records d rows) ≡ ok rows
unfolding load_records
load_records_lem d [] h a = refl
load_records_lem d (row ∷ rows) h (f, a) =
    rw (load_record_lem d row (fixed_records d rows) h f, load_records_lem d rows h a) refl
