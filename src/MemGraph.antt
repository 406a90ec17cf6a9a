-- ===== src/MemGraph.antt =====
-- `DirectMemGraphWriter` and `load_mem_graph` of
-- ForgeANN/src/index/inmem_index/forgeann_oom_writer.rs: the `_mem.index` file, a header of 24 bytes
-- and for each node its degree and its neighbours, all little endian. A file is its bytes; writes
-- to it do not fail here (a full disk is not modelled), and reads fail at its end.
pub mod Encode
pub mod RoundTrip
pub mod Sound
mod Tests
use forge_ann.Prelude.{
  ℕ, zero, suc, ◌+◌, ◌-◌, ◌*◌, ◌%◌, ◌^◌, max, Bool, not, ltb, leb, ◌==◌, if◌then◌else◌, Option,
  none, some, List, [], ◌∷◌, ◌++◌, length, drop,
}
use forge_ann.Prelude.Results.{Result, ok, err, ◌>>=◌, ◌>>◌, reject_if, ok_or}
use forge_ann.Bytes.{to_le_bytes, read_le}

pub record LoadedMemGraph : Type 0 where
  pub index_size : ℕ
  pub max_degree : ℕ
  pub start : ℕ
  pub num_frozen_pts : ℕ
  pub neighbors : List (List ℕ)

-- `file` holds what was written; the position of the writer is its end until `finish`.
pub record Writer : Type 0 where
  pub file : List ℕ
  pub index_size : ℕ
  pub max_degree : ℕ
  pub start : ℕ
  pub num_frozen_pts : ℕ

-- The errors of the loader, in the order of its checks.
pub data LoadError : Type 0 where
  unexpected_eof invalid_header unaligned_payload too_many_nodes record_exceeds wrong_count :
      LoadError

unfoldable pub header : ℕ → ℕ → ℕ → ℕ → List ℕ
header index_size max_degree start frozen =
    to_le_bytes 8 index_size
    ++ (to_le_bytes 4 max_degree ++ (to_le_bytes 4 start ++ to_le_bytes 8 frozen))

-- `DirectMemGraphWriter::create` writes a provisional header.
pub create : ℕ → ℕ → Writer
unfolding header
create start num_frozen_pts = record {
  file = header 24 0 start num_frozen_pts;
  index_size = 24;
  max_degree = 0;
  start = start;
  num_frozen_pts = num_frozen_pts;
}

unfoldable pub encode_ids : List ℕ → List ℕ
encode_ids [] = []
encode_ids (id ∷ ids) = to_le_bytes 4 id ++ encode_ids ids

-- `DirectMemGraphWriter::write_node`; `len() as u32` and the sums of `u64` wrap.
pub write_node : Writer → List ℕ → Writer
unfolding encode_ids
write_node w neighbors =
    let degree = length neighbors % 2 ^ 32 in
    record w {
      file = w.file ++ (to_le_bytes 4 degree ++ encode_ids neighbors);
      index_size = (w.index_size + (length neighbors + 1) * 4) % 2 ^ 64;
      max_degree = max w.max_degree degree;
    }

-- The loop of the builder over its rows.
pub write_nodes : Writer → List (List ℕ) → Writer
unfolding write_node
write_nodes w [] = w
write_nodes w (row ∷ rows) = write_nodes (write_node w row) rows

-- `DirectMemGraphWriter::finish` seeks to the start and writes the final header over the old one.
pub finish : Writer → List ℕ
unfolding header
finish w =
    let head = header w.index_size w.max_degree w.start w.num_frozen_pts in
    head ++ drop (length head) w.file

pub read_ids : ℕ → List ℕ → Option (List ℕ × List ℕ)
read_ids zero bytes = some ([], bytes)
read_ids (suc n) bytes = elim (read_le 4 bytes) [
  | none ↦ none
  | some (id, rest) ↦ elim (read_ids n rest) [
    | none ↦ none
    | some (ids, rest') ↦ some (id ∷ ids, rest')
  ]
]

-- One node of the loop of `load_mem_graph`: its row, the bytes read so far, the rest of the file.
pub load_row : ℕ → ℕ → List ℕ → Result LoadError (List ℕ × ℕ × List ℕ)
unfolding read_ids
load_row payload_bytes bytes_read bytes = do
  (degree, rest) ← ok_or (read_le 4 bytes) unexpected_eof
  reject_if (ltb payload_bytes (bytes_read + 4 + degree * 4)) record_exceeds
  (row, rest') ← ok_or (read_ids degree rest) unexpected_eof
  ok (row, bytes_read + 4 + degree * 4, rest')

-- The loop: it ends where the payload is read, and fails beyond `room` more nodes, so `room + 1`
-- rounds are enough.
pub load_rows : ℕ → ℕ → ℕ → List ℕ → Result LoadError (List (List ℕ))
load_rows zero payload_bytes bytes_read bytes =
    if ltb bytes_read payload_bytes then err too_many_nodes else ok []
load_rows (suc room) payload_bytes bytes_read bytes =
    let node = λ (n : List ℕ × ℕ × List ℕ).
      load_rows room payload_bytes n.1 n.2 >>= λ (rows : List (List ℕ)). ok (n.0 ∷ rows) in
    if ltb bytes_read payload_bytes
    then (load_row payload_bytes bytes_read bytes >>= node)
    else ok []

pub load_mem_graph : List ℕ → ℕ → Result LoadError LoadedMemGraph
unfolding load_rows
load_mem_graph file expected_num_points = do
  (index_size, r1) ← ok_or (read_le 8 file) unexpected_eof
  (max_degree, r2) ← ok_or (read_le 4 r1) unexpected_eof
  (start, r3) ← ok_or (read_le 4 r2) unexpected_eof
  (frozen, r4) ← ok_or (read_le 8 r3) unexpected_eof
  reject_if (ltb index_size 24) invalid_header
  reject_if (not ((index_size - 24) % 4 == 0)) unaligned_payload
  neighbors ← load_rows expected_num_points (index_size - 24) 0 r4
  reject_if (not (length neighbors == expected_num_points)) wrong_count
  ok (record {
    index_size = index_size;
    max_degree = max_degree;
    start = start;
    num_frozen_pts = frozen;
    neighbors = neighbors;
  })
