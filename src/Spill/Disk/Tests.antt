-- ===== src/Spill/Disk/Tests.antt =====
-- A flush to a part file at a small input.
use forge_ann.Prelude.{ℕ, ◌≡◌, refl, false, some, List, [], ◌∷◌, arith}
use mathlib.Core.Option.{some-injective}
use forge_ann.Prelude.{subst}
use forge_ann.Prelude.Sorting.{sort_by}
use forge_ann.Spill.{PendingEdge}
use forge_ann.Spill.Memory.{by_source}
use forge_ann.Spill.Disk.{
  SpillState, SpillPartWriter, create_sharded_with_config, entry_of, flush_buffer,
}
use forge_ann.Spill.Disk.Stored.{IsPart, IsStored, flush_buffer-IsStored}

abbrev edge : ℕ → ℕ → ℕ → ℕ → PendingEdge
edge p c h d = record {
  p = p;
  c = c;
  hash = h;
  dist = d;
  mandatory = false;
  local_rank = 0;
  flags = 0;
}

abbrev two_edges : List PendingEdge
two_edges = edge 3 1 5 100 ∷ edge 2 8 6 90 ∷ []

-- A shard whose open part holds two bytes.
abbrev old_writer : SpillPartWriter
old_writer = record {
  desc = record { shard_id = 0; file_id = 4; byte_len = 2 };
  writer = record { file = 1 ∷ 2 ∷ []; records = 0 };
}

abbrev state : SpillState
state = record (create_sharded_with_config 40 64 10) {
  part_writers_by_shard = (0, old_writer) ∷ [];
  next_part_id_by_shard = (0, 5) ∷ [];
}

old_writer-IsPart :
    (p : SpillPartWriter) → entry_of 0 state.part_writers_by_shard ≡ some p → IsPart 0 p
unfolding entry_of
old_writer-IsPart p e =
    subst (IsPart 0) (some-injective old_writer p e) (record { of_shard = refl; tracked = refl })

flush_buffer-IsStored_example :
    IsStored state 0 (sort_by by_source two_edges) (flush_buffer state 0 two_edges)
flush_buffer-IsStored_example =
    flush_buffer-IsStored state 0 two_edges
      (
        (omega arith, omega arith, omega arith, omega arith),
        ((omega arith, omega arith, omega arith, omega arith), tt),
      )
      old_writer-IsPart
