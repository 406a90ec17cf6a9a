-- ===== src/MemGraph/RoundTrip.antt =====
-- The file of the finished `DirectMemGraphWriter` under `load_mem_graph`.
use mathlib.Core.List.{append_assoc, append-nil}
use native.Mathlib.Nat.{mod-eq_of_lt}
use forge_ann.Prelude.{
  ℕ, ◌+◌, ◌-◌, ◌*◌, ◌%◌, ◌^◌, ◌≤◌, ◌<◌, ◌≡◌, refl, ap, ◌∙◌, sym, max, List, [], ◌∷◌, ◌++◌, length,
  All, arith, drop,
}
use forge_ann.Prelude.Results.{ok}
use forge_ann.Bytes.{to_le_bytes, read_le-to_le_bytes}
use forge_ann.MemGraph.{
  Writer, header, create, encode_ids, write_node, write_nodes, finish, load_row, load_rows,
  load_mem_graph,
}
use forge_ann.MemGraph.Encode.{IsRow, encode_rows, size_rows, length-header, read_ids-encode_ids}

-- The greatest degree of the rows, from `m` on.
abbrev pub max_length : ℕ → List (List ℕ) → ℕ
max_length m [] = m
max_length m (row ∷ rows) = max_length (max m (length row)) rows

drop-append : (xs ys : List ℕ) → drop (length xs) (xs ++ ys) ≡ ys
drop-append [] ys = refl
drop-append (x ∷ xs) ys = drop-append xs ys

abbrev written : Writer → List (List ℕ) → Writer
written w rows = record w {
  file = w.file ++ encode_rows rows;
  index_size = w.index_size + size_rows rows;
  max_degree = max_length w.max_degree rows;
}

write_node-written :
    (row : List ℕ) (w : Writer)
    → IsRow row
    → w.index_size + (length row + 1) * 4 < 2 ^ 64
    → write_node w row ≡ record w {
      file = w.file ++ (to_le_bytes 4 (length row) ++ encode_ids row);
      index_size = w.index_size + (length row + 1) * 4;
      max_degree = max w.max_degree (length row);
    }
unfolding write_node
write_node-written row w r b =
    rw (mod-eq_of_lt {n = length row} {m = 2 ^ 32} r.0, mod-eq_of_lt {m = 2 ^ 64} b) refl

write_nodes-written :
    (rows : List (List ℕ)) (w : Writer)
    → All IsRow rows
    → w.index_size + size_rows rows < 2 ^ 64
    → write_nodes w rows ≡ written w rows
unfolding write_nodes encode_rows
write_nodes-written [] w a b =
    λ i. record w { file = sym (append-nil w.file) i; index_size = add-zero' i }
  where
    add-zero' : w.index_size ≡ w.index_size + 0
    add-zero' = omega arith
write_nodes-written (row ∷ rows) w (r, a) b = rw (write_node-written row w r (omega arith)) (
    write_nodes-written rows _ a (omega arith) ∙ (λ i. record w {
      file = files i;
      index_size = sizes i;
      max_degree = max_length w.max_degree (row ∷ rows);
    }))
  where
    files :
        (w.file ++ (to_le_bytes 4 (length row) ++ encode_ids row)) ++ encode_rows rows
        ≡ w.file ++ (to_le_bytes 4 (length row) ++ (encode_ids row ++ encode_rows rows))
    files = simp append_assoc

    sizes :
        w.index_size + (length row + 1) * 4 + size_rows rows ≡ w.index_size + size_rows (row ∷ rows)
    sizes = omega arith

load_row-encode_row :
    (row : List ℕ) (done total : ℕ) (rest : List ℕ)
    → IsRow row
    → done + 4 + length row * 4 ≤ total
    → load_row total done (to_le_bytes 4 (length row) ++ (encode_ids row ++ rest))
      ≡ ok (row, done + 4 + length row * 4, rest)
unfolding load_row
load_row-encode_row row done total rest r h = ground (
  arith,
  read_le-to_le_bytes 4 (length row) (encode_ids row ++ rest) r.0,
  read_ids-encode_ids row rest r.1,
)

load_rows-encode_rows :
    (rows : List (List ℕ)) (done total : ℕ) (rest : List ℕ)
    → All IsRow rows
    → done + size_rows rows ≡ total
    → load_rows (length rows) total done (encode_rows rows ++ rest) ≡ ok rows
unfolding load_rows encode_rows
load_rows-encode_rows [] done total rest a e = ground arith
load_rows-encode_rows (row ∷ rows) done total rest (r, a) e = simp append_assoc (
    ground (
      arith,
      load_row-encode_row row done total (encode_rows rows ++ rest) r,
      load_rows-encode_rows rows (done + 4 + length row * 4) total rest a,
    ))

max_length-lt :
    (rows : List (List ℕ)) (m : ℕ) → m < 2 ^ 32 → All IsRow rows → max_length m rows < 2 ^ 32
max_length-lt [] m h a = h
max_length-lt (row ∷ rows) m h (r, a) =
    max_length-lt rows (max m (length row)) (omega (arith, r.0)) a

size_rows-mod : (rows : List (List ℕ)) → size_rows rows % 4 ≡ 0
size_rows-mod [] = refl
size_rows-mod (row ∷ rows) = omega (arith, size_rows-mod rows)

finish-written :
    (rows : List (List ℕ)) (start frozen : ℕ)
    → All IsRow rows
    → 24 + size_rows rows < 2 ^ 64
    → finish (write_nodes (create start frozen) rows)
      ≡ header (24 + size_rows rows) (max_length 0 rows) start frozen ++ encode_rows rows
unfolding finish create
finish-written rows start frozen a b =
    rw (write_nodes-written rows (create start frozen) a b)
      (ap (λ (t : List ℕ). header (24 + size_rows rows) (max_length 0 rows) start frozen ++ t) body)
  where
    body :
        drop
          (length (header (24 + size_rows rows) (max_length 0 rows) start frozen))
          (header 24 0 start frozen ++ encode_rows rows)
        ≡ encode_rows rows
    body =
        rw
          (length-header (24 + size_rows rows) (max_length 0 rows) start frozen
            ∙ sym (length-header 24 0 start frozen))
          (drop-append (header 24 0 start frozen) (encode_rows rows))

load_header :
    (i m s f n : ℕ) (body : List ℕ) (rows : List (List ℕ))
    → i < 2 ^ 64
    → m < 2 ^ 32
    → s < 2 ^ 32
    → f < 2 ^ 64
    → 24 ≤ i
    → (i - 24) % 4 ≡ 0
    → load_rows n (i - 24) 0 body ≡ ok rows
    → length rows ≡ n
    → load_mem_graph (header i m s f ++ body) n
      ≡ ok (record {
        index_size = i;
        max_degree = m;
        start = s;
        num_frozen_pts = f;
        neighbors = rows;
      })
unfolding load_mem_graph header
load_header i m s f n body rows hi hm hs hf h24 h4 hr hl = simp append_assoc (
    ground (
      arith,
      read_le-to_le_bytes 8 i (to_le_bytes 4 m ++ (to_le_bytes 4 s ++ (to_le_bytes 8 f ++ body)))
          hi,
      read_le-to_le_bytes 4 m (to_le_bytes 4 s ++ (to_le_bytes 8 f ++ body)) hm,
      read_le-to_le_bytes 4 s (to_le_bytes 8 f ++ body) hs,
      read_le-to_le_bytes 8 f body hf,
    ))

-- Loading the file of a finished writer, with as many nodes as rows were written, gives back the
-- rows, the start, the frozen count, the total size and the greatest degree, if every degree and
-- id fits in a u32, the frozen count in a u64, and the file's size in a u64.
pub load_mem_graph-finish :
    (rows : List (List ℕ)) (start frozen : ℕ)
    → All IsRow rows
    → start < 2 ^ 32
    → frozen < 2 ^ 64
    → 24 + size_rows rows < 2 ^ 64
    → load_mem_graph (finish (write_nodes (create start frozen) rows)) (length rows)
      ≡ ok (record {
        index_size = 24 + size_rows rows;
        max_degree = max_length 0 rows;
        start = start;
        num_frozen_pts = frozen;
        neighbors = rows;
      })
load_mem_graph-finish rows start frozen a hs hf hb = rw (finish-written rows start frozen a hb) (
    load_header (24 + size_rows rows) (max_length 0 rows) start frozen (length rows)
      (encode_rows rows) rows hb (max_length-lt rows 0 (omega arith) a) hs hf (omega arith)
      (omega (arith, size_rows-mod rows)) rows_loaded refl)
  where
    rows_loaded : load_rows (length rows) (24 + size_rows rows - 24) 0 (encode_rows rows) ≡ ok rows
    rows_loaded =
        rw (← append-nil (encode_rows rows))
          (load_rows-encode_rows rows 0 (24 + size_rows rows - 24) [] a (omega arith))
