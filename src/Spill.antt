-- ===== src/Spill.antt =====
-- ForgeANN/src/forgeann/spill_hashprune.rs: candidate edges that wait outside the reservoirs. Here the
-- records in which they wait; Spill.Memory has the sink that keeps them in memory, Spill.Reduce the
-- reducer that feeds them to the reservoirs, and Spill.InMemory both together.
pub mod Memory
pub mod Reduce
pub mod InMemory
pub mod Parts
pub mod Runs
pub mod Disk
pub mod Tests
use forge_ann.Prelude.{ℕ, ◌%◌, ◌^◌, Bool, not, leb, ◌==◌, if◌then◌else◌}
use forge_ann.Prelude.Results.{Result, ok, err}

pub record PendingEdge : Type 0 where
  pub p : ℕ
  pub c : ℕ
  pub hash : ℕ
  pub dist : ℕ
  pub mandatory : Bool
  pub local_rank : ℕ
  pub flags : ℕ

abbrev pub pending_edge_direct : ℕ
pending_edge_direct = 1

abbrev pub spill_flag_mandatory : ℕ
spill_flag_mandatory = 1

pub record SpillRecord : Type 0 where
  pub src : ℕ
  pub dst : ℕ
  pub hash : ℕ
  pub flags : ℕ
  pub dist : ℕ

-- `panicked` is an index out of range of the source; `unfinished` an exhausted loop of the model.
pub data SpillError : Type 0 where
  source_too_large outside_points outside_shard outside_range out_of_order : SpillError
  partial_record missing_part unexpected_eof panicked unfinished : SpillError

pub from_pending_edge : PendingEdge → Result SpillError SpillRecord
from_pending_edge edge =
    if leb (2 ^ 32) edge.p
    then err source_too_large
    else ok (record {
      src = edge.p;
      dst = edge.c;
      hash = edge.hash;
      flags = if edge.mandatory then spill_flag_mandatory else 0;
      dist = edge.dist;
    })

-- The flag is the lowest bit.
pub to_pending_edge : SpillRecord → PendingEdge
to_pending_edge r = record {
  p = r.src;
  c = r.dst;
  hash = r.hash;
  dist = r.dist;
  mandatory = not (r.flags % 2 == 0);
  local_rank = 1;
  flags = pending_edge_direct;
}
