-- ===== src/Disk/Tests.antt =====
-- An operating system that cuts every transfer to two bytes, and files under it.
use forge_ann.Prelude.{ℕ, ◌≡◌, refl, true, none, some, List, [], ◌∷◌, drop, arith, min}
use forge_ann.Disk.{
  Os, overwrite, read_loop, partial_loop, write_loop, read_exact_at_buffered,
  read_exact_at_buffered_partial_ok, write_all_at_buffered,
}
use forge_ann.Disk.Transfer.{Progresses, padded, served, transfers_whole}

abbrev pub two_at_once : Os
two_at_once = record {
  read_len = λ offset n. min n 2;
  write_len = λ offset n. min n 2;
  read_len_le = λ offset n. omega arith;
  write_len_le = λ offset n. omega arith;
}

pub two_at_once-Progresses : Progresses two_at_once
two_at_once-Progresses = record {
  reads = λ offset n h. omega arith;
  writes = λ offset n h. omega arith;
}

abbrev pub five : List ℕ
five = (1 ∷ 2 ∷ 3 ∷ 4 ∷ 5 ∷ [])

read_inside_test : read_exact_at_buffered two_at_once five 1 3 ≡ some (2 ∷ 3 ∷ 4 ∷ [])
unfolding read_exact_at_buffered read_loop
read_inside_test = refl

read_beyond_test : read_exact_at_buffered two_at_once five 3 3 ≡ none
unfolding read_exact_at_buffered read_loop
read_beyond_test = refl

read_partial_test : read_exact_at_buffered_partial_ok two_at_once five 3 3 ≡ (4 ∷ 5 ∷ 0 ∷ [])
unfolding read_exact_at_buffered_partial_ok partial_loop
read_partial_test = refl

write_test :
    write_all_at_buffered two_at_once five 4 (7 ∷ 8 ∷ 9 ∷ [])
    ≡ ((1 ∷ 2 ∷ 3 ∷ 4 ∷ 7 ∷ 8 ∷ 9 ∷ []), true)
unfolding write_all_at_buffered write_loop overwrite
write_test = refl

transfers_whole_example :
    (read_exact_at_buffered two_at_once five 1 3 ≡ served 3 (drop 1 five))
    × (read_exact_at_buffered_partial_ok two_at_once five 1 3 ≡ padded 3 (drop 1 five))
    × (write_all_at_buffered two_at_once five 1 (7 ∷ 8 ∷ 9 ∷ [])
        ≡ (overwrite five 1 (7 ∷ 8 ∷ 9 ∷ []), true))
transfers_whole_example =
    transfers_whole two_at_once two_at_once-Progresses five 1 3 (7 ∷ 8 ∷ 9 ∷ [])
