-- ===== src/FixedGraph.antt =====
-- `FixedDegreeMemGraphWriter` and `load_fixed_degree_mem_graph` of
-- ForgeANN/src/index/inmem_index/forgeann_oom_writer.rs: every node has a record of the same size at a
-- place that its id gives, so that nodes are written in any order.
pub mod Records
pub mod Writes
mod Tests
use forge_ann.Prelude.{
  ℕ, zero, suc, ◌+◌, ◌-◌, ◌*◌, ◌%◌, ◌^◌, min, Bool, true, ltb, leb, ◌==◌, if◌then◌else◌, Option,
  none, some, List, [], ◌∷◌, ◌++◌, length, take, drop, replicate,
}
use forge_ann.Prelude.Results.{Result, ok, err, ◌>>=◌, ◌>>◌, reject_if, ok_or}
use forge_ann.Bytes.{to_le_bytes, from_le_bytes}
use forge_ann.Disk.{Os, overwrite, write_all_at_buffered}
use forge_ann.MemGraph.{encode_ids, read_ids}

pub data FixedError : Type 0 where
  overflow out_of_range write_failed unexpected_eof degree_exceeds : FixedError

pub record FixedWriter : Type 0 where
  pub file : List ℕ
  pub num_points : ℕ
  pub max_degree : ℕ
  pub record_bytes : ℕ

-- `(max_degree + 1) * 4`, with the checks for overflow.
pub checked_record_bytes : ℕ → Result FixedError ℕ
checked_record_bytes max_degree =
    if leb (2 ^ 64) (max_degree + 1)
    then err overflow
    else if leb (2 ^ 64) ((max_degree + 1) * 4)
    then err overflow
    else ok ((max_degree + 1) * 4)

-- `set_len` fills the file with zeros.
pub create : ℕ → ℕ → Result FixedError FixedWriter
unfolding checked_record_bytes
create num_points max_degree = checked_record_bytes max_degree >>= λ record_bytes.
    if leb (2 ^ 64) (num_points * record_bytes)
    then err overflow
    else ok (record {
      file = replicate (num_points * record_bytes) 0;
      num_points = num_points;
      max_degree = max_degree;
      record_bytes = record_bytes;
    })

-- A record of zeros with the degree and the kept neighbours copied into it.
pub node_record : ℕ → ℕ → List ℕ → List ℕ
node_record record_bytes max_degree neighbors =
    let degree = min (length neighbors) max_degree in
    overwrite (overwrite (replicate record_bytes 0) 0 (to_le_bytes 4 (degree % 2 ^ 32))) 4
      (encode_ids (take degree neighbors))

pub write_node : Os → FixedWriter → ℕ → List ℕ → Result FixedError FixedWriter
unfolding node_record
write_node os w uid neighbors =
    let place = min (uid * w.record_bytes) (2 ^ 64 - 1) in
    let (file, done) =
      write_all_at_buffered os w.file place (node_record w.record_bytes w.max_degree neighbors) in
    if leb w.num_points uid
    then err out_of_range
    else if done
    then ok (record w { file = file })
    else err write_failed

-- One record of the file.
pub load_record : ℕ → ℕ → List ℕ → Result FixedError (List ℕ × List ℕ)
load_record record_bytes max_degree bytes =
    let node = take record_bytes bytes in
    let degree = from_le_bytes (take 4 node) in
    if ltb (length bytes) record_bytes
    then err unexpected_eof
    else if ltb max_degree degree
    then err degree_exceeds
    else (ok_or (read_ids degree (drop 4 node)) unexpected_eof >>= λ row.
        ok (row.0, drop record_bytes bytes))

pub load_records : ℕ → ℕ → ℕ → List ℕ → Result FixedError (List (List ℕ))
unfolding load_record
load_records record_bytes max_degree zero bytes = ok []
load_records record_bytes max_degree (suc n) bytes =
    load_record record_bytes max_degree bytes >>= λ node.
    load_records record_bytes max_degree n node.1 >>= λ rows. ok (node.0 ∷ rows)

pub load_fixed_degree_mem_graph : List ℕ → ℕ → ℕ → Result FixedError (List (List ℕ))
unfolding load_records checked_record_bytes
load_fixed_degree_mem_graph file expected_num_points max_degree =
    checked_record_bytes max_degree >>= λ record_bytes.
    load_records record_bytes max_degree expected_num_points file
