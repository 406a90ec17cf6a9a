-- ===== src/Spill/Runs/RoundTrip.antt =====
-- What is pushed is read from the segment, whatever is written behind it.
use mathlib.Core.List.{append_assoc, append-nil}
use forge_ann.Prelude.{
  ℕ, zero, suc, ◌+◌, ◌-◌, ◌*◌, ◌^◌, ◌<◌, ◌≡◌, refl, ap₂, ◌∙◌, true, false, ltb, leb, ◌==◌,
  if◌then◌else◌, Bool, some, List, [], ◌∷◌, ◌++◌, map, length, drop, All, arith,
}
use forge_ann.Prelude.Results.{ok}
use forge_ann.Bytes.{to_le_bytes, read_le-to_le_bytes}
use forge_ann.Spill.{
  PendingEdge, SpillRecord, from_pending_edge, to_pending_edge, spill_flag_mandatory,
}
use forge_ann.Spill.Memory.Contents.{record_of}
use forge_ann.Spill.Runs.{
  CandidateRunWriter, record_bytes, push, push_all, SpillSegmentDesc, SegmentReader, open_segment,
  read_record, read_edge, read_edges, segment_edges,
}

-- The fields of an edge are as wide as those of the record.
abbrev pub IsNarrow : PendingEdge → Type 0
IsNarrow e = (e.p < 2 ^ 32) × (e.c < 2 ^ 32) × (e.hash < 2 ^ 16) × (e.dist < 2 ^ 32)

abbrev pub run_bytes : List PendingEdge → List ℕ
run_bytes [] = []
run_bytes (e ∷ edges) = record_bytes (record_of e) ++ run_bytes edges

pub push_all_lem :
    (w : CandidateRunWriter) (edges : List PendingEdge)
    → All IsNarrow edges
    → push_all w edges
      ≡ ok (record w { file = w.file ++ run_bytes edges; records = w.records + length edges })
unfolding push_all push from_pending_edge
push_all_lem w [] a =
    let n : w.records + 0 ≡ w.records = omega arith in rw (append-nil w.file, n) refl
push_all_lem w (e ∷ edges) ((p, c, h, d), a) =
    let fits : leb (2 ^ 32) e.p ≡ false = ground arith in
    let n : w.records + 1 + length edges ≡ w.records + suc (length edges) = omega arith in
    let next : CandidateRunWriter = record {
      file = w.file ++ record_bytes (record_of e);
      records = w.records + 1;
    } in
    rw
      (
        fits,
        push_all_lem next edges a,
        append_assoc w.file (record_bytes (record_of e)) (run_bytes edges),
        n,
      )
      refl

read_record-record_bytes :
    (r : SpillRecord) (rest : List ℕ)
    → r.src < 2 ^ 32
    → r.dst < 2 ^ 32
    → r.hash < 2 ^ 16
    → r.flags < 2 ^ 16
    → r.dist < 2 ^ 32
    → read_record (record_bytes r ++ rest) ≡ some (r, rest)
unfolding read_record record_bytes
read_record-record_bytes r rest a b c d e =
    let b4 = to_le_bytes 4 r.dist in
    let b3 = to_le_bytes 2 r.flags ++ b4 in
    let b2 = to_le_bytes 2 r.hash ++ b3 in
    let b1 = to_le_bytes 4 r.dst ++ b2 in
    rw
      (
        append_assoc (to_le_bytes 4 r.src) b1 rest,
        read_le-to_le_bytes 4 r.src (b1 ++ rest) a,
        append_assoc (to_le_bytes 4 r.dst) b2 rest,
        read_le-to_le_bytes 4 r.dst (b2 ++ rest) b,
        append_assoc (to_le_bytes 2 r.hash) b3 rest,
        read_le-to_le_bytes 2 r.hash (b3 ++ rest) c,
        append_assoc (to_le_bytes 2 r.flags) b4 rest,
        read_le-to_le_bytes 2 r.flags (b4 ++ rest) d,
        read_le-to_le_bytes 4 r.dist rest e,
      )
      refl

flags_lem : (b : Bool) → (if b then spill_flag_mandatory else 0) < 2 ^ 16
flags_lem true = omega arith
flags_lem false = omega arith

read_edges-run_bytes :
    (edges : List PendingEdge) (fuel : ℕ) (rest : List ℕ)
    → All IsNarrow edges
    → 16 * length edges < fuel
    → read_edges fuel (record { bytes = run_bytes edges ++ rest; remaining = 16 * length edges })
      ≡ ok (map (λ e. to_pending_edge (record_of e)) edges)
unfolding read_edges read_edge to_pending_edge
read_edges-run_bytes edges zero rest a h = absurd (omega arith)
read_edges-run_bytes [] (suc fuel) rest a h = refl
read_edges-run_bytes (e ∷ edges) (suc fuel) rest ((p, c, k, d), a) h =
    let some_left : (16 * suc (length edges) == 0) ≡ false = ground arith in
    let enough : ltb (16 * suc (length edges)) 16 ≡ false = ground arith in
    let less : 16 * suc (length edges) - 16 ≡ 16 * length edges = omega arith in
    rw
      (
        some_left,
        enough,
        append_assoc (record_bytes (record_of e)) (run_bytes edges) rest,
        read_record-record_bytes (record_of e) (run_bytes edges ++ rest) p c k
            (flags_lem e.mandatory) d,
        less,
        read_edges-run_bytes edges fuel rest a (omega arith),
      )
      refl

drop_prefix : (xs ys : List ℕ) → drop (length xs) (xs ++ ys) ≡ ys
drop_prefix [] ys = refl
drop_prefix (x ∷ xs) ys = drop_prefix xs ys

-- Edges whose fields are as wide as those of a record are pushed behind whatever the file holds, 16 bytes each;
-- a segment of these bytes is read, from the file and whatever is written behind it later, as the
-- same edges in their order, with the rank and the flag that the source gives to a spilled edge.
pub segment_edges-push_all :
    (w : CandidateRunWriter) (edges : List PendingEdge) (later : List ℕ)
    (segment : SpillSegmentDesc)
    → All IsNarrow edges
    → segment.byte_offset ≡ length w.file
    → segment.byte_len ≡ 16 * length edges
    → (w' : CandidateRunWriter) × (push_all w edges ≡ ok w')
      × (w'.records ≡ w.records + length edges)
      × (segment_edges (w'.file ++ later) segment
          ≡ ok (map (λ e. to_pending_edge (record_of e)) edges))
unfolding segment_edges open_segment
segment_edges-push_all w edges later segment a at len =
    let reader : SegmentReader = record {
      bytes = run_bytes edges ++ later;
      remaining = 16 * length edges;
    } in
    let opened : open_segment ((w.file ++ run_bytes edges) ++ later) segment ≡ reader =
      rw
        (
          at,
          len,
          append_assoc w.file (run_bytes edges) later,
          drop_prefix w.file (run_bytes edges ++ later),
        )
        refl in
    (
      record w { file = w.file ++ run_bytes edges; records = w.records + length edges },
      push_all_lem w edges a,
      refl,
      ap₂ (λ n r. read_edges (suc n) r) len opened
          ∙ read_edges-run_bytes edges (suc (16 * length edges)) later a (omega arith),
    )

-- A record has 16 bytes.
pub length-run_bytes : (edges : List PendingEdge) → length (run_bytes edges) ≡ 16 * length edges
unfolding record_bytes to_le_bytes
length-run_bytes [] = omega arith
length-run_bytes (e ∷ edges) = omega (arith, length-run_bytes edges)
