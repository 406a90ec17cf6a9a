-- ===== src/Spill/Runs.antt =====
-- Runs of candidate edges on disk, buffered: `CandidateRunWriter` and `SegmentReader`. A file is its bytes; a
-- write does not fail, and a read past the end ends the loop of the reader.
pub mod RoundTrip
use forge_ann.Prelude.{
  ℕ, zero, suc, ◌+◌, ◌-◌, ◌≡◌, Bool, true, false, ltb, ◌==◌, if◌then◌else◌, Option, none, some,
  ◌>>=◌, List, [], ◌∷◌, ◌++◌, drop,
}
use forge_ann.Prelude.Results
use forge_ann.Prelude.Results.{Result, ok, err}
use forge_ann.Bytes.{to_le_bytes, read_le}
use forge_ann.Spill.{
  PendingEdge, SpillRecord, from_pending_edge, to_pending_edge, SpillError, partial_record,
  unfinished,
}

pub record CandidateRunWriter : Type 0 where
  pub file : List ℕ
  pub records : ℕ

pub create : CandidateRunWriter
create = record { file = []; records = 0 }

pub record_bytes : SpillRecord → List ℕ
record_bytes r =
    to_le_bytes 4 r.src
    ++ (to_le_bytes 4 r.dst
        ++ (to_le_bytes 2 r.hash ++ (to_le_bytes 2 r.flags ++ to_le_bytes 4 r.dist)))

pub push : CandidateRunWriter → PendingEdge → Result SpillError CandidateRunWriter
unfolding record_bytes
push w edge =
    Results.◌>>=◌ (from_pending_edge edge)
      (λ r. ok (record w { file = w.file ++ record_bytes r; records = w.records + 1 }))

-- The loop over the staged edges.
pub push_all : CandidateRunWriter → List PendingEdge → Result SpillError CandidateRunWriter
unfolding push
push_all w [] = ok w
push_all w (edge ∷ edges) = Results.◌>>=◌ (push w edge) (λ w'. push_all w' edges)

pub record SpillSegmentDesc : Type 0 where
  pub shard_id : ℕ
  pub file_id : ℕ
  pub byte_offset : ℕ
  pub byte_len : ℕ
  pub record_count : ℕ
  pub src_min : ℕ
  pub src_max : ℕ
  pub sorted_by_src : Bool

-- `bytes` is what lies behind the reader's position.
pub record SegmentReader : Type 0 where
  pub bytes : List ℕ
  pub remaining : ℕ

pub open_segment : List ℕ → SpillSegmentDesc → SegmentReader
open_segment file segment = record {
  bytes = drop segment.byte_offset file;
  remaining = segment.byte_len;
}

-- `read_exact` of the bytes of a record, and its fields.
pub read_record : List ℕ → Option (SpillRecord × List ℕ)
read_record bytes = read_le 4 bytes >>= λ src. read_le 4 src.1 >>= λ dst.
    read_le 2 dst.1 >>= λ hash. read_le 2 hash.1 >>= λ flags. read_le 4 flags.1 >>= λ dist.
    some
      (record { src = src.0; dst = dst.0; hash = hash.0; flags = flags.0; dist = dist.0 }, dist.1)

pub read_edge : SegmentReader → Result SpillError (Option (PendingEdge × SegmentReader))
unfolding read_record to_pending_edge
read_edge reader =
    if reader.remaining == 0
    then ok none
    else if ltb reader.remaining 16
    then err partial_record
    else elim (read_record reader.bytes) [
      | none ↦ ok none
      | some (r, rest) ↦
          ok (some (to_pending_edge r, record { bytes = rest; remaining = reader.remaining - 16 }))
    ]

-- `while let Some(edge) = reader.read_edge()?`
pub read_edges : ℕ → SegmentReader → Result SpillError (List PendingEdge)
unfolding read_edge
read_edges zero reader = err unfinished
read_edges (suc fuel) reader = Results.◌>>=◌ (read_edge reader) (λ next. elim next [
  | none ↦ ok []
  | some (edge, reader') ↦ Results.◌>>=◌ (read_edges fuel reader') (λ edges. ok (edge ∷ edges))
])

pub segment_edges : List ℕ → SpillSegmentDesc → Result SpillError (List PendingEdge)
unfolding open_segment read_edges
segment_edges file segment = read_edges (suc segment.byte_len) (open_segment file segment)
