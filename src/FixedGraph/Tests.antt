-- ===== src/FixedGraph/Tests.antt =====
-- A graph of three points and degree two, written in transfers of two bytes.
use forge_ann.Prelude.{◌≡◌, refl, [], ◌∷◌, arith}
use forge_ann.Prelude.Results.{ok, err, ◌>>=◌}
use forge_ann.Bytes.{to_le_bytes, from_le_bytes}
use forge_ann.Disk.{overwrite}
use forge_ann.Disk.Tests.{two_at_once, two_at_once-Progresses}
use forge_ann.MemGraph.{encode_ids}
use forge_ann.FixedGraph.{
  FixedWriter, checked_record_bytes, create, node_record, write_node, load_record, load_records,
  load_fixed_degree_mem_graph, out_of_range, degree_exceeds,
}
use forge_ann.FixedGraph.Writes.{write_nodes, load_fixed_degree-write_nodes}

abbrev small : FixedWriter
small = record { file = []; num_points = 3; max_degree = 2; record_bytes = 12 }

record_test :
    node_record 12 2 (7 ∷ 300 ∷ 9 ∷ []) ≡ 2 ∷ 0 ∷ 0 ∷ 0 ∷ 7 ∷ 0 ∷ 0 ∷ 0 ∷ 44 ∷ 1 ∷ 0 ∷ 0 ∷ []
unfolding node_record encode_ids to_le_bytes overwrite
record_test = refl

write_missing_test : write_node two_at_once small 3 [] ≡ err out_of_range
unfolding write_node
write_missing_test = refl

load_test :
    load_fixed_degree_mem_graph (3 ∷ 0 ∷ 0 ∷ 0 ∷ 7 ∷ 0 ∷ 0 ∷ 0 ∷ 8 ∷ 0 ∷ 0 ∷ 0 ∷ []) 1 2
    ≡ err degree_exceeds
unfolding load_fixed_degree_mem_graph checked_record_bytes load_records load_record from_le_bytes
load_test = refl

-- Node 2 is written first, with a neighbour too many, and node 0 twice.
load_fixed_degree-write_nodes_example :
    (create 3 2 >>= λ w.
    write_nodes two_at_once ((2, 0 ∷ 1 ∷ 5 ∷ []) ∷ (0, 1 ∷ []) ∷ (0, 2 ∷ []) ∷ []) w >>= λ w'.
    load_fixed_degree_mem_graph w'.file 3 2)
    ≡ ok ((2 ∷ []) ∷ [] ∷ (0 ∷ 1 ∷ []) ∷ [])
load_fixed_degree-write_nodes_example =
    load_fixed_degree-write_nodes two_at_once two_at_once-Progresses 2 (omega arith) 3
      ((2, 0 ∷ 1 ∷ 5 ∷ []) ∷ (0, 1 ∷ []) ∷ (0, 2 ∷ []) ∷ []) (omega arith)
      (
        (omega arith, (omega arith, (omega arith, (omega arith, tt)))),
        ((omega arith, (omega arith, tt)), ((omega arith, (omega arith, tt)), tt)),
      )
