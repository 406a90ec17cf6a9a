-- ===== src/Spill/Disk/Stored.antt =====
-- What a flush stores: a segment that its part file gives back.
use forge_ann.Prelude.{
  ℕ, ◌+◌, ◌*◌, ◌≡◌, ◌≢◌, refl, sym, ap, ◌∙◌, true, false, ltb, ◌==◌, Bool-cases, Option-cases, inl,
  inr, some, List, [], ◌∷◌, ◌++◌, map, length, length-append, All, arith,
}
use forge_ann.Prelude.Results.{Result, ok, err}
use forge_ann.Prelude.Sorting.{sort_by, All-sort_by}
use forge_ann.Prelude.Usize.{saturating_add}
use forge_ann.Spill.{PendingEdge, SpillError, to_pending_edge}
use forge_ann.Spill.Memory.{by_source}
use forge_ann.Spill.Memory.Contents.{record_of}
use forge_ann.Spill.Runs.{CandidateRunWriter, SpillSegmentDesc, segment_edges}
use forge_ann.Spill.Runs.RoundTrip.{
  IsNarrow, run_bytes, push_all_lem, segment_edges-push_all, length-run_bytes,
}
use forge_ann.Spill.Disk.{
  ByShard, entry_of, with_entry, without_entry, SpillPartWriter, SpillState, open_part,
  finalize_part_writer, ensure_part_writer, segment_of, write_segment, flush_buffer,
}

module _ {A : Type 0} where
  entry_of-with_entry :
      (shard : ℕ) (a : A) (m : ByShard A) → entry_of shard (with_entry shard a m) ≡ some a
  unfolding entry_of with_entry
  entry_of-with_entry shard a [] = let same : (shard == shard) ≡ true = ground arith in rw same refl
  entry_of-with_entry shard a ((t, b) ∷ m) =
      let same : (shard == shard) ≡ true = ground arith in
      elim (Bool-cases (t == shard)) [
        | inl here ↦ rw (here, same) refl
        | inr there ↦ rw (there, there) (entry_of-with_entry shard a m)
      ]

  entry_of-with_entry_other :
      (t shard : ℕ) (a : A) (m : ByShard A)
      → t ≢ shard
      → entry_of t (with_entry shard a m) ≡ entry_of t m
  unfolding entry_of with_entry
  entry_of-with_entry_other t shard a [] n =
      let other : (shard == t) ≡ false = ground arith in rw other refl
  entry_of-with_entry_other t shard a ((u, b) ∷ m) n =
      let other : (shard == t) ≡ false = ground arith in
      elim (Bool-cases (u == shard)) [
        | inl here ↦ let apart : (u == t) ≡ false = ground arith in rw (here, other, apart) refl
        | inr there ↦ elim (Bool-cases (u == t)) [
          | inl found ↦ rw (there, found) refl
          | inr absent ↦ rw (there, absent) (entry_of-with_entry_other t shard a m n)
        ]
      ]

  entry_of-without_entry_other :
      (t shard : ℕ) (m : ByShard A) → t ≢ shard → entry_of t (without_entry shard m) ≡ entry_of t m
  unfolding entry_of without_entry
  entry_of-without_entry_other t shard [] n = refl
  entry_of-without_entry_other t shard ((u, b) ∷ m) n = elim (Bool-cases (u == shard)) [
    | inl here ↦ let apart : (u == t) ≡ false = ground arith in rw (here, apart) refl
    | inr there ↦ elim (Bool-cases (u == t)) [
      | inl found ↦ rw (there, found) refl
      | inr absent ↦ rw (there, absent) (entry_of-without_entry_other t shard m n)
    ]
  ]

-- The description of a part states its shard and the length of its file.
pub record IsPart (shard : ℕ) (part : SpillPartWriter) : Type 0 where
  pub of_shard : part.desc.shard_id ≡ shard
  pub tracked : part.desc.byte_len ≡ length part.writer.file

-- What a part gives back of a segment, whatever is written behind it later.
abbrev pub GivesBack : SpillPartWriter → SpillSegmentDesc → List PendingEdge → Type 0
GivesBack part segment edges =
    (later : List ℕ)
    → segment_edges (part.writer.file ++ later) segment
      ≡ ok (map (λ e. to_pending_edge (record_of e)) edges)

-- The writers of the other shards stay.
abbrev pub OthersStay : ℕ → SpillState → SpillState → Type 0
OthersStay shard s s' =
    (t : ℕ) → t ≢ shard → entry_of t s'.part_writers_by_shard ≡ entry_of t s.part_writers_by_shard

-- The shard has an open part after `s`.
pub record IsReady (shard : ℕ) (s s' : SpillState) : Type 0 where
  pub part : SpillPartWriter
  pub present : entry_of shard s'.part_writers_by_shard ≡ some part
  pub good : IsPart shard part
  pub others : OthersStay shard s s'
  pub manifest : s'.segment_manifest ≡ s.segment_manifest

open_part-IsReady : (s : SpillState) (shard : ℕ) → IsReady shard s (open_part s shard)
unfolding open_part
open_part-IsReady s shard = record {
  part = _;
  present = entry_of-with_entry shard _ s.part_writers_by_shard;
  good = record { of_shard = refl; tracked = refl };
  others = λ t n. entry_of-with_entry_other t shard _ s.part_writers_by_shard n;
  manifest = refl;
}

ensure_part_writer-IsReady :
    (s : SpillState) (shard pending_bytes : ℕ)
    → ((part : SpillPartWriter)
        → entry_of shard s.part_writers_by_shard ≡ some part
        → IsPart shard part)
    → IsReady shard s (ensure_part_writer s shard pending_bytes)
unfolding ensure_part_writer finalize_part_writer
ensure_part_writer-IsReady s shard pending_bytes good =
    elim (Option-cases (entry_of shard s.part_writers_by_shard)) [
      | inl none_open ↦ rw (none_open, ensure_part_writer) (open_part-IsReady s shard)
      | inr (part, e) ↦
          elim (Bool-cases
            (ltb s.part_max_bytes (saturating_add part.desc.byte_len pending_bytes))) [
              | inl over ↦
                  let fresh =
                    open_part-IsReady
                      (finalize_part_writer
                        (record s {
                          part_writers_by_shard = without_entry shard s.part_writers_by_shard;
                        })
                        part)
                      shard in
                  rw (e, ensure_part_writer, over)
                    (record {
                      part = fresh.part;
                      present = fresh.present;
                      good = fresh.good;
                      others = λ t n.
                          fresh.others t n
                          ∙ entry_of-without_entry_other t shard s.part_writers_by_shard n;
                      manifest = fresh.manifest;
                    })
              | inr within ↦
                  rw (e, ensure_part_writer, within)
                    (record {
                      part = part;
                      present = e;
                      good = good part e;
                      others = λ t n. refl;
                      manifest = refl;
                    })
            ]
    ]

-- A flush that has stored the edges of a shard's buffer.
pub record IsStored (s : SpillState) (shard : ℕ) (edges : List PendingEdge)
    (r : Result SpillError SpillState) : Type 0 where
  pub end : SpillState
  pub returns : r ≡ ok end
  pub segment : SpillSegmentDesc
  pub manifest : end.segment_manifest ≡ s.segment_manifest ++ (segment ∷ [])
  pub part : SpillPartWriter
  pub present : entry_of shard end.part_writers_by_shard ≡ some part
  pub good : IsPart shard part
  pub named : segment.file_id ≡ part.desc.file_id
  pub gives_back : GivesBack part segment edges
  pub others : OthersStay shard s end

-- The edges of a segment of the file that a writer has written.
read_back :
    SpillSegmentDesc
    → List ℕ
    → Result SpillError CandidateRunWriter
    → Result SpillError (List PendingEdge)
read_back segment later (ok w) = segment_edges (w.file ++ later) segment
read_back segment later (err e) = err e

write_segment-IsStored :
    (s : SpillState) (shard : ℕ) (part : SpillPartWriter) (staged : List PendingEdge)
    → All IsNarrow staged
    → IsPart shard part
    → IsStored s shard staged (write_segment s shard part staged)
unfolding write_segment segment_of read_back
write_segment-IsStored s shard part staged narrow good =
    let pushed = push_all_lem part.writer staged narrow in
    let written : CandidateRunWriter = record {
      file = part.writer.file ++ run_bytes staged;
      records = part.writer.records + length staged;
    } in
    let after : SpillPartWriter = record {
      desc = record part.desc { byte_len = part.desc.byte_len + 16 * length staged };
      writer = written;
    } in
    let lengths = length-append part.writer.file (run_bytes staged) in
    let run_length = length-run_bytes staged in
    let was = good.tracked in
    record {
      end = record s {
        part_writers_by_shard = with_entry shard after s.part_writers_by_shard;
        segment_manifest = s.segment_manifest ++ (segment_of shard part staged ∷ []);
      };
      returns = rw (pushed, write_segment) refl;
      segment = segment_of shard part staged;
      manifest = refl;
      part = after;
      present = entry_of-with_entry shard _ s.part_writers_by_shard;
      good = record { of_shard = good.of_shard; tracked = omega arith };
      named = refl;
      gives_back = λ later.
          let (w', same, count, back) =
            segment_edges-push_all part.writer staged later (segment_of shard part staged) narrow
              good.tracked refl in
          sym (ap (read_back (segment_of shard part staged) later) (sym same ∙ pushed)) ∙ back;
      others = λ t n. entry_of-with_entry_other t shard _ s.part_writers_by_shard n;
    }

-- For a buffer of edges whose fields are as wide as those of a record, and if the shard's open
-- part, where there is one, states its shard and the length of its file: the flush succeeds, with a
-- new part or the open one, and adds one segment to the manifest; that part's file, whatever is
-- written behind it later, gives back the edges of the buffer in order of their source, with the
-- rank and the flag of a spilled edge; the part keeps stating its shard and length, and the open
-- parts of other shards stay.
pub flush_buffer-IsStored :
    (s : SpillState) (shard : ℕ) (buffer : List PendingEdge)
    → All IsNarrow buffer
    → ((part : SpillPartWriter)
        → entry_of shard s.part_writers_by_shard ≡ some part
        → IsPart shard part)
    → IsStored s shard (sort_by by_source buffer) (flush_buffer s shard buffer)
unfolding flush_buffer
flush_buffer-IsStored s shard buffer narrow good =
    let staged = sort_by by_source buffer in
    let emptied = record s { buffers_by_shard = with_entry shard [] s.buffers_by_shard } in
    let ready = ensure_part_writer-IsReady emptied shard (16 * length staged) good in
    let now = ensure_part_writer emptied shard (16 * length staged) in
    let stored =
      write_segment-IsStored now shard ready.part staged
        (All-sort_by by_source IsNarrow buffer narrow) ready.good in
    rw (ready.present, flush_buffer)
      (record {
        end = stored.end;
        returns = stored.returns;
        segment = stored.segment;
        manifest = stored.manifest ∙ ap (λ m. m ++ (stored.segment ∷ [])) ready.manifest;
        part = stored.part;
        present = stored.present;
        good = stored.good;
        named = stored.named;
        gives_back = stored.gives_back;
        others = λ t n. stored.others t n ∙ ready.others t n;
      })
