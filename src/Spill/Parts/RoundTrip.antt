-- ===== src/Spill/Parts/RoundTrip.antt =====
-- What is written is replayed.
use mathlib.Core.List.{append_assoc, append-nil}
use native.Mathlib.Nat.{mod-eq_of_lt}
use forge_ann.Prelude.{
  ℕ, suc, ◌-◌, ◌%◌, ◌^◌, ◌<◌, ◌≡◌, refl, sym, subst, inl, inr, List, [], ◌∷◌, ◌++◌, length, All,
  map, arith,
}
use forge_ann.Prelude.Results.{Result, ok, ◌>>=◌, Result-cases, map-map}
use forge_ann.Bytes.{to_le_bytes, read_le-to_le_bytes}
use forge_ann.Reservoir.{Reservoir, drain_neighbors}
use forge_ann.Spill.{SpillError}
use forge_ann.Spill.Reduce.{emit_points, emit_shard}
use forge_ann.Spill.Parts.{
  neighbor_bytes, row_bytes, write_points, write_neighbor_chunk, read_neighbors, replay_points,
  replay_neighbor_part,
}

-- A row of 32-bit ids, and no more of them than a u32 can count.
abbrev pub IsRow : List ℕ → Type 0
IsRow row = (length row < 2 ^ 32) × All (λ id. id < 2 ^ 32) row

abbrev file_of : List Reservoir → List ℕ
file_of [] = []
file_of (r ∷ rs) = row_bytes (drain_neighbors r).0 ++ file_of rs

read_neighbors_lem :
    (row rest : List ℕ)
    → All (λ id. id < 2 ^ 32) row
    → read_neighbors (length row) (neighbor_bytes row ++ rest) ≡ ok (row, rest)
unfolding read_neighbors neighbor_bytes
read_neighbors_lem [] rest a = refl
read_neighbors_lem (id ∷ row) rest (h, a) =
    rw
      (
        append_assoc (to_le_bytes 4 id) (neighbor_bytes row) rest,
        read_le-to_le_bytes 4 id (neighbor_bytes row ++ rest) (omega arith),
        read_neighbors_lem row rest a,
      )
      refl

write_points_lem :
    (rs : List Reservoir) (file : List ℕ)
    → write_points (length rs) rs file
      ≡ ok (map (λ r. (drain_neighbors r).1) rs, file ++ file_of rs)
unfolding write_points
write_points_lem [] file = rw (append-nil file) refl
write_points_lem (r ∷ rs) file =
    rw
      (
        write_points_lem rs (file ++ row_bytes (drain_neighbors r).0),
        append_assoc file (row_bytes (drain_neighbors r).0) (file_of rs),
      )
      refl

module _ {S : Type 0} (on_point_done : ℕ → List ℕ → S → Result SpillError S) where
  replay_points-file_of :
      (point : ℕ) (rs : List Reservoir) (s : S)
      → All (λ r. IsRow (drain_neighbors r).0) rs
      → (replay_points on_point_done point (length rs) (file_of rs) s >>= λ s'.
          ok (map (λ r. (drain_neighbors r).1) rs, s'))
        ≡ emit_points on_point_done point (length rs) rs s
  unfolding replay_points emit_points row_bytes
  replay_points-file_of point [] s a = refl
  replay_points-file_of point (r ∷ rs) s ((n, b), a) =
      let row = (drain_neighbors r).0 in
      let small : length row % 2 ^ 32 ≡ length row = mod-eq_of_lt n in
      rw
        (
          small,
          append_assoc (to_le_bytes 4 (length row)) (neighbor_bytes row) (file_of rs),
          read_le-to_le_bytes 4 (length row) (neighbor_bytes row ++ file_of rs) n,
          read_neighbors_lem row (file_of rs) b,
        )
        (elim (Result-cases (on_point_done (point % 2 ^ 32) row s)) [
          | inl (s', e) ↦
              rw (e, ← replay_points-file_of (suc point) rs s' a)
                (sym (
                  map-map {B = List Reservoir × S} {C = List Reservoir × S}
                    (λ t. (map (λ q. (drain_neighbors q).1) rs, t))
                    (λ more. ((drain_neighbors r).1 ∷ more.0, more.1))
                    (replay_points on_point_done (suc point) (length rs) (file_of rs) s')))
          | inr (x, e) ↦ rw e refl
        ])

  -- A chunk written to a part file, with as many reservoirs as points and rows of 32-bit ids that a u32 can
  -- count, and replayed from the file, calls the callback as the direct emission of the chunk does,
  -- with the same result, errors included; the write itself succeeds.
  pub replay_neighbor_part-write_neighbor_chunk :
      (start end : ℕ) (rs : List Reservoir) (s : S)
      → length rs ≡ end - start
      → All (λ r. IsRow (drain_neighbors r).0) rs
      → (file : List ℕ) × (drained : List Reservoir) × (write_neighbor_chunk start end rs []
          ≡ ok (drained, file))
        × ((replay_neighbor_part on_point_done
                (record { point_start = start; point_end = end; file = file })
                s
              >>= λ s'. ok (drained, s'))
            ≡ emit_shard on_point_done start end rs s)
  unfolding write_neighbor_chunk replay_neighbor_part emit_shard
  replay_neighbor_part-write_neighbor_chunk start end rs s n a = (
    file_of rs,
    map (λ r. (drain_neighbors r).1) rs,
    subst (λ k. write_points k rs [] ≡ ok (map (λ r. (drain_neighbors r).1) rs, file_of rs)) n
        (write_points_lem rs []),
    subst
        (λ k.
          (replay_points on_point_done start k (file_of rs) s >>= λ s'.
          ok (map (λ r. (drain_neighbors r).1) rs, s'))
          ≡ emit_points on_point_done start k rs s)
        n (replay_points-file_of start rs s a),
  )
