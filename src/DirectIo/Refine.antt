-- ===== src/DirectIo/Refine.antt =====
-- `read_exact_at` and `write_all_at` of `DirectIoFile` with direct I/O on, against plain bytes.
use forge_ann.Prelude.{
  ℕ, ◌+◌, ◌-◌, ◌*◌, ◌^◌, ◌≤◌, ◌<◌, ◌≡◌, refl, ap, ◌∙◌, sym, Bool-cases, ◌&&◌, ◌==◌, true, inl, inr,
  ◌⊎◌, leb, ltb, some, List, [], length, take, drop, get_or, drop-add, length-replicate, arith,
}
use forge_ann.Disk.{Os, overwrite, read_exact_at_buffered_partial_ok, write_all_at_buffered}
use forge_ann.Disk.Overwrite.{take-drop-overwrite, get_or-overwrite_outside}
use forge_ann.Disk.Transfer.{Progresses, padded, transfers_whole}
use forge_ann.Disk.Padded.{
  drop-padded, take-padded, length-padded, get_or-padded, get_or-drop, take-drop-take,
  length-overwrite, get_or-overwrite_inside,
}
use forge_ann.DirectIo.{
  DirectIoConfig, effective_alignment, window, scratch_block, read_exact_at, write_all_at,
}
use forge_ann.DirectIo.Cover.{window_covers}

module _ (os : Os) (p : Progresses os) (cfg : DirectIoConfig) where
  partial_ok_lem :
      (file : List ℕ) (offset n : ℕ)
      → read_exact_at_buffered_partial_ok os file offset n ≡ padded n (drop offset file)
  partial_ok_lem file offset n = let (_, ok, _) = transfers_whole os p file offset n [] in ok

  write_all_lem :
      (file : List ℕ) (offset : ℕ) (buf : List ℕ)
      → write_all_at_buffered os file offset buf ≡ (overwrite file offset buf, true)
  write_all_lem file offset buf = let (_, _, ok) = transfers_whole os p file offset 0 buf in ok

  -- With direct I/O on, a read whose widened length fits in a usize returns the bytes of the file
  -- from the offset on, filled up with zeros behind the end of the file.
  pub direct-read :
      (file : List ℕ) (offset n : ℕ)
      → cfg.enabled ≡ true
      → n + 2 * effective_alignment cfg ≤ 2 ^ 64
      → read_exact_at os cfg file offset n ≡ some (padded n (drop offset file))
  unfolding read_exact_at
  direct-read file offset n on b =
      let w = window cfg offset n in
      let (start, inside, _, _, _) = window_covers cfg offset n b in
      let scratch : read_exact_at_buffered_partial_ok os file w.aligned_offset w.aligned_len
          ≡ padded w.aligned_len (drop w.aligned_offset file) =
        partial_ok_lem file w.aligned_offset w.aligned_len in
      let part : take n (drop w.prefix (padded w.aligned_len (drop w.aligned_offset file)))
          ≡ padded n (drop offset file) =
        ap (take n) (drop-padded w.prefix w.aligned_len _ (omega arith))
        ∙ take-padded n (w.aligned_len - w.prefix) _ (omega arith)
        ∙ ap (padded n)
            (sym (drop-add w.aligned_offset w.prefix file) ∙ ap (λ k. drop k file) start) in
      rw on (ap some (ap (λ l. take n (drop w.prefix l)) scratch ∙ part))

  -- The scratch block is as long as the window, and agrees with the file around the request.
  scratch_block_lem :
      (file : List ℕ) (offset n : ℕ)
      → let w = window cfg offset n in
        (length (scratch_block os cfg file w n) ≡ w.aligned_len)
        × ((j : ℕ)
            → j < w.aligned_len
            → (j < w.prefix) ⊎ (w.prefix + n ≤ j)
            → get_or (scratch_block os cfg file w n) j 0 ≡ get_or file (w.aligned_offset + j) 0)
  scratch_block_lem file offset n =
      let w = window cfg offset n in
      elim (Bool-cases (w.prefix == 0 && w.aligned_len == n)) [
        | inl whole ↦ rw whole (length-replicate w.aligned_len 0, λ j h out. absurd (ground arith))
        | inr part ↦
            rw (part, partial_ok_lem file w.aligned_offset w.aligned_len)
              (
                length-padded w.aligned_len _,
                λ j h _.
                    get_or-padded w.aligned_len (drop w.aligned_offset file) j h
                    ∙ get_or-drop w.aligned_offset file j,
              )
      ]

  -- The block that a direct write puts back.
  abbrev patched : List ℕ → ℕ → List ℕ → List ℕ
  patched file offset buf =
      let w = window cfg offset (length buf) in
      overwrite (scratch_block os cfg file w (length buf)) w.prefix buf

  -- The patched block, byte by byte.
  patched_lem :
      (file : List ℕ) (offset : ℕ) (buf : List ℕ)
      → length buf + 2 * effective_alignment cfg ≤ 2 ^ 64
      → let w = window cfg offset (length buf) in
        (length (patched file offset buf) ≡ w.aligned_len)
        × ((j : ℕ)
            → j < w.aligned_len
            → (j < w.prefix) ⊎ (w.prefix + length buf ≤ j)
            → get_or (patched file offset buf) j 0 ≡ get_or file (w.aligned_offset + j) 0)
  patched_lem file offset buf b =
      let w = window cfg offset (length buf) in
      let (start, inside, _, _, _) = window_covers cfg offset (length buf) b in
      let (whole, around) = scratch_block_lem file offset (length buf) in
      (
        length-overwrite (scratch_block os cfg file w (length buf)) w.prefix buf (omega arith)
            ∙ whole,
        λ j h out.
            get_or-overwrite_outside (scratch_block os cfg file w (length buf)) w.prefix buf j out
            ∙ around j h out,
      )

  -- A byte of the file after the block is put back.
  put_back_lem :
      (file : List ℕ) (offset : ℕ) (buf : List ℕ)
      → length buf + 2 * effective_alignment cfg ≤ 2 ^ 64
      → (i : ℕ) → (i < offset) ⊎ (offset + length buf ≤ i)
      → let w = window cfg offset (length buf) in
        get_or (overwrite file w.aligned_offset (patched file offset buf)) i 0 ≡ get_or file i 0
  put_back_lem file offset buf b i out =
      let w = window cfg offset (length buf) in
      let (start, inside, _, _, _) = window_covers cfg offset (length buf) b in
      let (whole, around) = patched_lem file offset buf b in
      elim (Bool-cases (leb w.aligned_offset i && ltb i (w.aligned_offset + w.aligned_len))) [
        | inr away ↦
            let beyond : (i < w.aligned_offset) ⊎ (w.aligned_offset + w.aligned_len ≤ i) =
              ground arith in
            let reached : (i < w.aligned_offset)
                ⊎ (w.aligned_offset + length (patched file offset buf) ≤ i) =
              omega arith in
            get_or-overwrite_outside file w.aligned_offset (patched file offset buf) i reached
        | inl within ↦
            let j = i - w.aligned_offset in
            let there : w.aligned_offset + j ≡ i = ground arith in
            let short : j < w.aligned_len = ground arith in
            let free : (j < w.prefix) ⊎ (w.prefix + length buf ≤ j) = omega arith in
            ap (λ k. get_or (overwrite file w.aligned_offset (patched file offset buf)) k 0)
              (sym there)
            ∙ get_or-overwrite_inside file w.aligned_offset (patched file offset buf) j
                (omega arith)
            ∙ around j short free
            ∙ ap (λ k. get_or file k 0) there
      ]

  -- With direct I/O on, a write whose widened length fits in a usize succeeds; afterwards the
  -- request's range reads as the written bytes, and every byte outside it reads as before, where a
  -- byte behind the end of the file reads as zero.
  pub direct-write :
      (file : List ℕ) (offset : ℕ) (buf : List ℕ)
      → cfg.enabled ≡ true
      → length buf + 2 * effective_alignment cfg ≤ 2 ^ 64
      → let (after, done) = write_all_at os cfg file offset buf in
        (done ≡ true)
        × (take (length buf) (drop offset after) ≡ buf)
        × ((i : ℕ) → (i < offset) ⊎ (offset + length buf ≤ i) → get_or after i 0 ≡ get_or file i 0)
  unfolding write_all_at
  direct-write file offset buf on b =
      let w = window cfg offset (length buf) in
      let block = patched file offset buf in
      let after = overwrite file w.aligned_offset block in
      let (start, inside, _, _, _) = window_covers cfg offset (length buf) b in
      let (whole, _) = patched_lem file offset buf b in
      let fits : w.prefix + length buf ≤ length block = omega arith in
      let written : take (length buf) (drop offset after) ≡ buf =
        ap (λ k. take (length buf) (drop k after)) (sym start)
        ∙ ap (take (length buf)) (drop-add w.aligned_offset w.prefix after)
        ∙ sym
            (take-drop-take (length buf) w.prefix (length block) (drop w.aligned_offset after) fits)
        ∙ ap (λ l. take (length buf) (drop w.prefix l))
            (take-drop-overwrite file w.aligned_offset block)
        ∙ take-drop-overwrite (scratch_block os cfg file w (length buf)) w.prefix buf in
      rw (on, write_all_lem file w.aligned_offset block)
        (refl, written, put_back_lem file offset buf b)
