-- ===== src/Disk/Transfer.antt =====
-- The loops of Disk under any cut of the transfers, and the hypothesis that a call moves something.
use mathlib.Core.List.{append_assoc}
use native.Mathlib.Nat.{le_refl}
use forge_ann.Prelude.{
  ℕ, zero, suc, ◌+◌, ◌-◌, ◌≤◌, ◌<◌, ◌≡◌, ap, ◌∙◌, sym, ◌==◌, true, false, Bool-cases, inl, inr,
  if◌then◌else◌, leb, Option, none, some, List, [], ◌∷◌, ◌++◌, length, take, drop, replicate, arith,
  min, drop-add, length-drop, length-take, take-append-drop, take-add, take-length-take, take-nil,
  ◌⊎◌,
}
use forge_ann.Disk.{
  Os, overwrite, read_at, read_loop, read_exact_at_buffered, partial_loop,
  read_exact_at_buffered_partial_ok, write_loop, write_all_at_buffered,
}
use forge_ann.Disk.Overwrite.{overwrite-nil, overwrite-overwrite}

-- A call that asks for bytes moves at least one, save at the end of a file.
pub record Progresses (os : Os) : Type 0 where
  pub reads : (offset n : ℕ) → 0 < n → 0 < os.read_len offset n
  pub writes : (offset n : ℕ) → 0 < n → 0 < os.write_len offset n

-- The bytes from an offset on, cut or filled with zeros to `n`.
abbrev pub padded : ℕ → List ℕ → List ℕ
padded n file = take n file ++ replicate (n - length file) 0

-- The first `n` bytes, if there are so many.
abbrev pub served : ℕ → List ℕ → Option (List ℕ)
served n file = if leb n (length file) then some (take n file) else none

zero-sub : (n : ℕ) → zero - n ≡ zero
zero-sub n = omega arith

zero-test : (n : ℕ) → (suc n == 0) ≡ false
zero-test n = ground arith

padded_end : (n : ℕ) (file : List ℕ) → length file ≡ 0 → padded n file ≡ replicate n 0
padded_end n [] h = let q : n - 0 ≡ n = omega arith in rw (take-nil {A = ℕ} n, q)
padded_end n (x ∷ file) h = absurd (omega arith)

padded-add :
    (m n : ℕ) (xs : List ℕ)
    → m ≤ n
    → m ≤ length xs
    → take m xs ++ padded (n - m) (drop m xs) ≡ padded n xs
padded-add m n xs h k =
    let q : n - m - length (drop m xs) ≡ n - length xs = omega (arith, length-drop m xs) in
    rw (q, ← append_assoc, take-add m n xs h)

overwrite_split :
    (file : List ℕ) (offset w : ℕ) (buf : List ℕ)
    → w ≤ length buf
    → overwrite (overwrite file offset (take w buf)) (offset + w) (drop w buf)
      ≡ overwrite file offset buf
overwrite_split file offset w buf h =
    let whole : length (take w buf) ≡ w = omega (arith, length-take w buf) in
    ap (λ k. overwrite (overwrite file offset (take w buf)) (offset + k) (drop w buf)) (sym whole)
    ∙ overwrite-overwrite file offset (take w buf) (drop w buf)
    ∙ ap (overwrite file offset) (take-append-drop w buf)

module _ (os : Os) (p : Progresses os) where
  write_loop_lem :
      (fuel : ℕ) (file : List ℕ) (offset : ℕ) (buf : List ℕ)
      → length buf ≤ fuel
      → write_loop os fuel file offset buf ≡ (overwrite file offset buf, true)
  unfolding write_loop
  write_loop_lem zero file offset [] h = rw (overwrite-nil file offset)
  write_loop_lem zero file offset (b ∷ buf) h = absurd (omega arith)
  write_loop_lem (suc fuel) file offset [] h = rw (overwrite-nil file offset)
  write_loop_lem (suc fuel) file offset (b ∷ buf) h =
      let w = os.write_len offset (length (b ∷ buf)) in
      let moved : 0 < w = p.writes offset (length (b ∷ buf)) (omega arith) in
      let within : w ≤ length (b ∷ buf) = os.write_len_le offset (length (b ∷ buf)) in
      let short : length (drop w (b ∷ buf)) ≤ fuel = omega (arith, length-drop w (b ∷ buf)) in
      ground (
        arith,
        write_loop_lem fuel (overwrite file offset (take w (b ∷ buf))) (offset + w)
            (drop w (b ∷ buf)) short,
        overwrite_split file offset w (b ∷ buf) within,
      )

  -- What one read finds: nothing at the end of the file, and else some leading bytes.
  read_at_lem :
      (file : List ℕ) (offset n : ℕ)
      → 0 < n
      → let got = read_at os file offset n in
        let rest = drop offset file in
        (got ≡ take (length got) rest)
        × (length got ≤ n)
        × (length got ≤ length rest)
        × ((length rest ≡ 0) ⊎ (0 < length got))
  read_at_lem file offset n h =
      let k = os.read_len offset n in
      let rest = drop offset file in
      let l : length (take k rest) ≡ min k (length rest) = length-take k rest in
      let le : k ≤ n = os.read_len_le offset n in
      let pos : 0 < k = p.reads offset n h in
      (sym (take-length-take k rest), omega arith, omega arith, omega arith)

  read_loop_lem :
      (fuel : ℕ) (file : List ℕ) (offset n : ℕ)
      → n ≤ fuel
      → read_loop os fuel file offset n ≡ served n (drop offset file)
  unfolding read_loop
  read_loop_lem zero file offset zero h = ground arith
  read_loop_lem zero file offset (suc n) h = absurd (omega arith)
  read_loop_lem (suc fuel) file offset zero h = ground arith
  read_loop_lem (suc fuel) file offset (suc n) h =
      let m = length (read_at os file offset (suc n)) in
      let rest = drop offset file in
      let (g, a, b, c) = read_at_lem file offset (suc n) (omega arith) in
      elim (Bool-cases (m == 0)) [
        | inl end ↦ rw end (ground arith)
        | inr more ↦
            let ih : read_loop os fuel file (offset + m) (suc n - m)
                ≡ served (suc n - m) (drop m rest) =
              read_loop_lem fuel file (offset + m) (suc n - m) (ground arith)
              ∙ ap (served (suc n - m)) (drop-add offset m file) in
            ground (
              arith,
              ih,
              ap (λ (l : List ℕ). l ++ take (suc n - m) (drop m rest)) g,
              take-add m (suc n) rest a,
              length-drop m rest,
            )
      ]

  partial_loop_lem :
      (fuel : ℕ) (file : List ℕ) (offset n : ℕ)
      → n ≤ fuel
      → partial_loop os fuel file offset n ≡ padded n (drop offset file)
  unfolding partial_loop
  partial_loop_lem zero file offset zero h = rw (zero-sub (length (drop offset file)))
  partial_loop_lem zero file offset (suc n) h = absurd (omega arith)
  partial_loop_lem (suc fuel) file offset zero h = rw (zero-sub (length (drop offset file)))
  partial_loop_lem (suc fuel) file offset (suc n) h =
      let m = length (read_at os file offset (suc n)) in
      let rest = drop offset file in
      let (g, a, b, c) = read_at_lem file offset (suc n) (omega arith) in
      elim (Bool-cases (m == 0)) [
        | inl end ↦ rw (zero-test n, end) (sym (padded_end (suc n) rest (ground arith)))
        | inr more ↦
            let ih : partial_loop os fuel file (offset + m) (suc n - m)
                ≡ padded (suc n - m) (drop m rest) =
              partial_loop_lem fuel file (offset + m) (suc n - m) (ground arith)
              ∙ ap (padded (suc n - m)) (drop-add offset m file) in
            rw (zero-test n, more, ih)
              (ap (λ (l : List ℕ). l ++ padded (suc n - m) (drop m rest)) g
                ∙ padded-add m (suc n) rest a b)
      ]

  -- `read_exact_at_buffered` returns exactly the bytes asked for if the file has them, and fails
  -- if it does not; `read_exact_at_buffered_partial_ok` fills up with zeros; a write of any length
  -- is carried out whole. None of this depends on how the transfers are cut.
  pub transfers_whole :
      (file : List ℕ) (offset n : ℕ) (buf : List ℕ)
      → (read_exact_at_buffered os file offset n ≡ served n (drop offset file))
        × (read_exact_at_buffered_partial_ok os file offset n ≡ padded n (drop offset file))
        × (write_all_at_buffered os file offset buf ≡ (overwrite file offset buf, true))
  unfolding read_exact_at_buffered read_exact_at_buffered_partial_ok write_all_at_buffered
  transfers_whole file offset n buf = (
    read_loop_lem n file offset n (le_refl n),
    partial_loop_lem n file offset n (le_refl n),
    write_loop_lem (length buf) file offset buf (le_refl _),
  )
