-- ===== src/FixedGraph/Writes.antt =====
-- The writer against a list of rows: writes in any order, and the load afterwards.
use native.Mathlib.Nat.{mul-le-mul_right}
use forge_ann.Prelude.{
  ℕ, zero, suc, ◌+◌, ◌-◌, ◌*◌, ◌^◌, ◌≤◌, ◌<◌, ◌≡◌, refl, ap, ◌∙◌, sym, subst, min, false, leb, List,
  [], ◌∷◌, ◌++◌, length, length-take, length-replicate, take, replicate, All, arith,
}
use forge_ann.Prelude.Results.{Result, ok, ◌>>=◌}
use forge_ann.Disk.{Os, overwrite}
use forge_ann.Disk.Overwrite.{overwrite-append, overwrite_prefix}
use forge_ann.Disk.Transfer.{Progresses, transfers_whole}
use forge_ann.Bytes.{to_le_bytes}
use forge_ann.MemGraph.{encode_ids}
use forge_ann.MemGraph.Encode.{IsId}
use forge_ann.FixedGraph.{
  FixedError, FixedWriter, checked_record_bytes, create, write_node, load_records,
  load_fixed_degree_mem_graph,
}
use forge_ann.FixedGraph.Records.{
  zeros, zeros-add, fixed_record, fixed_records, Fits, length-fixed_record, node_record_lem,
  load_records_lem,
}

-- Row `uid` is replaced.
abbrev pub set_row : ℕ → List ℕ → List (List ℕ) → List (List ℕ)
set_row uid row [] = []
set_row zero row (old ∷ rows) = row ∷ rows
set_row (suc uid) row (old ∷ rows) = old ∷ set_row uid row rows

-- The calls of `write_node`, one after the other, and what they do to the rows.
abbrev pub write_nodes : Os → List (ℕ × List ℕ) → FixedWriter → Result FixedError FixedWriter
write_nodes os [] w = ok w
write_nodes os (node ∷ nodes) w = write_node os w node.0 node.1 >>= write_nodes os nodes

abbrev pub set_rows : ℕ → List (ℕ × List ℕ) → List (List ℕ) → List (List ℕ)
set_rows d [] rows = rows
set_rows d (node ∷ nodes) rows = set_rows d nodes (set_row node.0 (take d node.1) rows)

abbrev pub IsNode : ℕ → ℕ × List ℕ → Type 0
IsNode n node = (node.0 < n) × All IsId node.1

length-set_row :
    (uid : ℕ) (row : List ℕ) (rows : List (List ℕ)) → length (set_row uid row rows) ≡ length rows
length-set_row uid row [] = refl
length-set_row zero row (old ∷ rows) = refl
length-set_row (suc uid) row (old ∷ rows) = ap suc (length-set_row uid row rows)

All-set_row :
    (P : List ℕ → Type 0) (uid : ℕ) (row : List ℕ) (rows : List (List ℕ))
    → P row
    → All P rows
    → All P (set_row uid row rows)
All-set_row P uid row [] p h = tt
All-set_row P zero row (old ∷ rows) p (q, h) = (p, h)
All-set_row P (suc uid) row (old ∷ rows) p (q, h) = (q, All-set_row P uid row rows p h)

All-take-ids : (d : ℕ) (row : List ℕ) → All IsId row → All IsId (take d row)
All-take-ids zero row a = tt
All-take-ids (suc d) [] a = tt
All-take-ids (suc d) (x ∷ row) (b, a) = (b, All-take-ids d row a)

-- Writing a record in its place replaces the row.
overwrite-fixed_records :
    (d uid : ℕ) (row : List ℕ) (rows : List (List ℕ))
    → uid < length rows
    → length row ≤ d
    → All (Fits d) rows
    → overwrite (fixed_records d rows) (uid * ((d + 1) * 4)) (fixed_record d row)
      ≡ fixed_records d (set_row uid row rows)
overwrite-fixed_records d uid row [] h l a = absurd (omega arith)
overwrite-fixed_records d zero row (old ∷ rows) h l ((m, _), a) =
    ap (λ k. overwrite (fixed_records d (old ∷ rows)) k (fixed_record d row)) (omega arith)
    ∙ overwrite_prefix (fixed_record d old) (fixed_records d rows) (fixed_record d row)
        (length-fixed_record d old m ∙ sym (length-fixed_record d row l))
overwrite-fixed_records d (suc uid) row (old ∷ rows) h l ((m, _), a) =
    let size = length-fixed_record d old m in
    let place : suc uid * ((d + 1) * 4) ≡ length (fixed_record d old) + uid * ((d + 1) * 4) =
      omega arith in
    ap (λ k. overwrite (fixed_records d (old ∷ rows)) k (fixed_record d row)) place
    ∙ overwrite-append (fixed_record d old) (fixed_records d rows) (uid * ((d + 1) * 4))
        (fixed_record d row)
    ∙ ap (λ l. fixed_record d old ++ l) (overwrite-fixed_records d uid row rows (omega arith) l a)

-- A writer whose file holds the rows.
abbrev pub holding : ℕ → List (List ℕ) → FixedWriter
holding d rows = record {
  file = fixed_records d rows;
  num_points = length rows;
  max_degree = d;
  record_bytes = (d + 1) * 4;
}

zero_records : (d n : ℕ) → zeros (n * ((d + 1) * 4)) ≡ fixed_records d (replicate n [])
unfolding to_le_bytes encode_ids
zero_records d zero = let q : zero * ((d + 1) * 4) ≡ 0 = omega arith in ap zeros q
zero_records d (suc n) =
    let split : suc n * ((d + 1) * 4) ≡ (4 + (d * 4)) + n * ((d + 1) * 4) = omega arith in
    let one : zeros (4 + (d * 4)) ≡ fixed_record d [] =
      zeros-add 4 (d * 4) ∙ ap (λ m. 0 ∷ 0 ∷ 0 ∷ 0 ∷ zeros m) (zero_rest d) in
    ap zeros split
    ∙ zeros-add (4 + (d * 4)) (n * ((d + 1) * 4))
    ∙ ap (λ l. l ++ zeros (n * ((d + 1) * 4))) one
    ∙ ap (λ l. fixed_record d [] ++ l) (zero_records d n)
  where
    zero_rest : (d : ℕ) → d * 4 ≡ (d - 0) * 4
    zero_rest d = omega arith

fresh-Fits : (d n : ℕ) → All (Fits d) (replicate n [])
fresh-Fits d zero = tt
fresh-Fits d (suc n) = ((omega arith, tt), fresh-Fits d n)

create_lem :
    (n d : ℕ)
    → d < 2 ^ 32
    → n * ((d + 1) * 4) < 2 ^ 64
    → create n d ≡ ok (holding d (replicate n []))
unfolding create checked_record_bytes
create_lem n d h k =
    let a : leb (2 ^ 64) (d + 1) ≡ false = ground arith in
    let b : leb (2 ^ 64) ((d + 1) * 4) ≡ false = ground arith in
    let c : leb (2 ^ 64) (n * ((d + 1) * 4)) ≡ false = ground arith in
    rw (a, b, c, zero_records d n, length-replicate {0} {A = List ℕ} n []) refl

module _ (os : Os) (p : Progresses os) (d : ℕ) (h : d < 2 ^ 32) where
  write_node_lem :
      (uid : ℕ) (row : List ℕ) (rows : List (List ℕ))
      → length rows * ((d + 1) * 4) < 2 ^ 64
      → uid < length rows
      → All (Fits d) rows
      → write_node os (holding d rows) uid row ≡ ok (holding d (set_row uid (take d row) rows))
  unfolding write_node
  write_node_lem uid row rows b k a =
      let inside : uid * ((d + 1) * 4) ≤ length rows * ((d + 1) * 4) =
        mul-le-mul_right ((d + 1) * 4) (omega arith) in
      let place : min (uid * ((d + 1) * 4)) (2 ^ 64 - 1) ≡ uid * ((d + 1) * 4) = omega arith in
      let known : leb (length rows) uid ≡ false = ground arith in
      let (_, _, whole) =
        transfers_whole os p (fixed_records d rows) (uid * ((d + 1) * 4)) 0
          (fixed_record d (take d row)) in
      rw
        (
          place,
          known,
          node_record_lem d row h,
          whole,
          overwrite-fixed_records d uid (take d row) rows k (omega (arith, length-take d row)) a,
          length-set_row uid (take d row) rows,
        )
        refl

  write_nodes_lem :
      (nodes : List (ℕ × List ℕ)) (rows : List (List ℕ))
      → length rows * ((d + 1) * 4) < 2 ^ 64
      → All (IsNode (length rows)) nodes
      → All (Fits d) rows
      → (write_nodes os nodes (holding d rows) ≡ ok (holding d (set_rows d nodes rows)))
        × All (Fits d) (set_rows d nodes rows)
        × (length (set_rows d nodes rows) ≡ length rows)
  write_nodes_lem [] rows b g a = (refl, a, refl)
  write_nodes_lem (node ∷ nodes) rows b ((k, ids), g) a =
      let after = set_row node.0 (take d node.1) rows in
      let same = length-set_row node.0 (take d node.1) rows in
      let (e, f, l) = write_nodes_lem nodes after (rw same b) (rw same g) (
        All-set_row (Fits d) node.0 (take d node.1) rows
          (omega (arith, length-take d node.1), All-take-ids d node.1 ids) a) in
      (rw (write_node_lem node.0 node.1 rows b k a) e, f, l ∙ same)

  -- However the operating system cuts the transfers: writing nodes of a graph of `n` points and
  -- degree `d` in any order and any number of times, and loading the file, gives for each point the
  -- first `d` neighbours of its last write, and no neighbours if it was not written. The ids fit in
  -- a u32, every written node is below `n`, `d` fits in a u32 and the file's size in a u64.
  pub load_fixed_degree-write_nodes :
      (n : ℕ) (nodes : List (ℕ × List ℕ))
      → n * ((d + 1) * 4) < 2 ^ 64
      → All (IsNode n) nodes
      → (create n d >>= λ w.
          write_nodes os nodes w >>= λ w'. load_fixed_degree_mem_graph w'.file n d)
        ≡ ok (set_rows d nodes (replicate n []))
  unfolding load_fixed_degree_mem_graph checked_record_bytes
  load_fixed_degree-write_nodes n nodes b g =
      let rows = replicate n [] in
      let size : length rows ≡ n = length-replicate {0} {A = List ℕ} n [] in
      let (e, f, l) = write_nodes_lem nodes rows (rw size b) (rw size g) (fresh-Fits d n) in
      let final = set_rows d nodes rows in
      let loaded : load_records ((d + 1) * 4) d n (fixed_records d final) ≡ ok final =
        subst (λ m. load_records ((d + 1) * 4) d m (fixed_records d final) ≡ ok final) (l ∙ size)
          (load_records_lem d final h f) in
      let first : leb (2 ^ 64) (d + 1) ≡ false = ground arith in
      let second : leb (2 ^ 64) ((d + 1) * 4) ≡ false = ground arith in
      rw (create_lem n d h b, e, first, second) loaded
