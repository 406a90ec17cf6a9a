-- ===== src/MemGraph/Tests.antt =====
-- The graph of the source's round-trip test, and instances of the theorems.
use forge_ann.Prelude.{ℕ, ◌+◌, ◌≡◌, refl, List, [], ◌∷◌, ◌++◌, length, arith}
use forge_ann.Prelude.Results.{ok}
use forge_ann.Bytes.{read_le}
use forge_ann.MemGraph.{
  LoadedMemGraph, load_row, header, create, write_nodes, finish, load_mem_graph,
}
use forge_ann.MemGraph.Encode.{encode_rows, size_rows}
use forge_ann.MemGraph.RoundTrip.{load_mem_graph-finish}
use forge_ann.MemGraph.Sound.{load_mem_graph_sound}

abbrev rows : List (List ℕ)
rows = (3 ∷ 4 ∷ []) ∷ (4 ∷ []) ∷ (1 ∷ 0 ∷ 4 ∷ []) ∷ (0 ∷ []) ∷ (2 ∷ 1 ∷ []) ∷ []

abbrev loaded : LoadedMemGraph
loaded = record { index_size = 80; max_degree = 3; start = 4; num_frozen_pts = 0; neighbors = rows }

load_mem_graph-finish_example :
    load_mem_graph (finish (write_nodes (create 4 0) rows)) 5 ≡ ok loaded
load_mem_graph-finish_example =
    load_mem_graph-finish rows 4 0 (omega arith) (omega arith) (omega arith) (omega arith)

-- A graph of one node without neighbours, with a byte behind it.
abbrev small : List ℕ
small =
    28 ∷ 0 ∷ 0 ∷ 0 ∷ 0 ∷ 0 ∷ 0 ∷ 0 ∷ 0 ∷ 0 ∷ 0 ∷ 0 ∷ 0 ∷ 0 ∷ 0 ∷ 0 ∷ 0 ∷ 0 ∷ 0 ∷ 0 ∷ 0 ∷ 0 ∷ 0 ∷ 0
    ∷ 0 ∷ 0 ∷ 0 ∷ 0 ∷ 9 ∷ []

abbrev small_graph : LoadedMemGraph
small_graph = record {
  index_size = 28;
  max_degree = 0;
  start = 0;
  num_frozen_pts = 0;
  neighbors = [] ∷ [];
}

small_loads : load_mem_graph small 1 ≡ ok small_graph
unfolding load_mem_graph load_row read_le
small_loads = refl

load_mem_graph_sound_example :
    (rest : List ℕ) × (small ≡ header 28 0 0 0 ++ (encode_rows ([] ∷ []) ++ rest))
    × (28 ≡ 24 + size_rows ([] ∷ []))
    × (length {A = List ℕ} ([] ∷ []) ≡ 1)
load_mem_graph_sound_example =
    load_mem_graph_sound small 1 {g = small_graph} (omega arith) small_loads
