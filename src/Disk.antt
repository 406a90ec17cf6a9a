-- ===== src/Disk.antt =====
-- Positioned reads and writes of ForgeANN/src/forgeann/direct_io.rs (`read_exact_at_buffered` and its
-- kin) and of forgeann_oom_writer.rs (`write_all_at`). A file is the list of its bytes. The operating
-- system may serve less than was asked: `Os` says how much, and a write of nothing is an error.
pub mod Overwrite
pub mod Transfer
pub mod Padded
pub mod Tests
use forge_ann.Prelude.{
  ℕ, zero, suc, ◌+◌, ◌-◌, ◌≤◌, Bool, true, false, ◌==◌, if◌then◌else◌, Option, none, some, List, [],
  ◌∷◌, ◌++◌, length, take, drop, replicate,
}

-- How many bytes a call of `read_at` or `write_at` at an offset moves, at most the bytes asked for.
pub record Os : Type 0 where
  pub read_len : ℕ → ℕ → ℕ
  pub write_len : ℕ → ℕ → ℕ
  pub read_len_le : (offset n : ℕ) → read_len offset n ≤ n
  pub write_len_le : (offset n : ℕ) → write_len offset n ≤ n

-- Bytes laid over a file at an offset; a gap behind the end is filled with zeros.
unfoldable pub overwrite : List ℕ → ℕ → List ℕ → List ℕ
overwrite file zero [] = file
overwrite [] zero (b ∷ bytes) = b ∷ overwrite [] zero bytes
overwrite (x ∷ file) zero (b ∷ bytes) = b ∷ overwrite file zero bytes
overwrite [] (suc offset) [] = []
overwrite [] (suc offset) (b ∷ bytes) = 0 ∷ overwrite [] offset (b ∷ bytes)
overwrite (x ∷ file) (suc offset) bytes = x ∷ overwrite file offset bytes

module _ (os : Os) where
  -- `File::read_at`: nothing is read at the end of the file.
  abbrev pub read_at : List ℕ → ℕ → ℕ → List ℕ
  read_at file offset n = take (os.read_len offset n) (drop offset file)

  -- `read_exact_at_buffered`; each round reads a byte or fails, so `n` rounds are enough.
  pub read_loop : ℕ → List ℕ → ℕ → ℕ → Option (List ℕ)
  read_loop zero file offset n = if n == 0 then some [] else none
  read_loop (suc fuel) file offset n =
      let got = read_at file offset n in
      let rest = read_loop fuel file (offset + length got) (n - length got) in
      if n == 0
      then some []
      else if length got == 0
      then none
      else elim rest [ none ↦ none | some bytes ↦ some (got ++ bytes) ]

  unfoldable pub read_exact_at_buffered : List ℕ → ℕ → ℕ → Option (List ℕ)
  unfolding read_loop
  read_exact_at_buffered file offset n = read_loop n file offset n

  -- `read_exact_at_buffered_partial_ok` stops at the end of the file and fills up with zeros.
  pub partial_loop : ℕ → List ℕ → ℕ → ℕ → List ℕ
  partial_loop zero file offset n = replicate n 0
  partial_loop (suc fuel) file offset n =
      let got = read_at file offset n in
      let rest = partial_loop fuel file (offset + length got) (n - length got) in
      if n == 0 then [] else if length got == 0 then replicate n 0 else got ++ rest

  unfoldable pub read_exact_at_buffered_partial_ok : List ℕ → ℕ → ℕ → List ℕ
  unfolding partial_loop
  read_exact_at_buffered_partial_ok file offset n = partial_loop n file offset n

  -- `write_all_at_buffered` and `write_all_at`: the file afterwards, and whether all was written.
  pub write_loop : ℕ → List ℕ → ℕ → List ℕ → List ℕ × Bool
  write_loop zero file offset buf = (file, length buf == 0)
  write_loop (suc fuel) file offset buf =
      let written = os.write_len offset (length buf) in
      let rest =
        write_loop fuel (overwrite file offset (take written buf)) (offset + written)
          (drop written buf) in
      if length buf == 0 then (file, true) else if written == 0 then (file, false) else rest

  unfoldable pub write_all_at_buffered : List ℕ → ℕ → List ℕ → List ℕ × Bool
  unfolding write_loop
  write_all_at_buffered file offset buf = write_loop (length buf) file offset buf
