-- ===== src/DirectIo.antt =====
-- `DirectIoFile` of ForgeANN/src/forgeann/direct_io.rs: with O_DIRECT enabled, a request is widened to
-- whole aligned blocks, which are read, patched and written back. `usize` sums wrap or saturate as in
-- the source; the scratch block is always allocated, and `sync_all` and `set_len` are not modelled.
pub mod Cover
pub mod Refine
mod Tests
use forge_ann.Prelude.{
  ℕ, zero, suc, ◌+◌, ◌-◌, ◌*◌, ◌/◌, ◌%◌, ◌^◌, Bool, true, false, not, ◌&&◌, ◌==◌, leb,
  if◌then◌else◌, min, max, Option, none, some, List, ◌++◌, length, take, drop, replicate,
}
use forge_ann.Prelude.Usize.{saturating_add}
use forge_ann.Disk.{
  Os, overwrite, read_exact_at_buffered, read_exact_at_buffered_partial_ok, write_all_at_buffered,
}

pub record DirectIoConfig : Type 0 where
  pub enabled : Bool
  pub alignment : ℕ

abbrev pub default_direct_io_alignment : ℕ
default_direct_io_alignment = 4096

abbrev pub disabled : DirectIoConfig
disabled = record { enabled = false; alignment = default_direct_io_alignment }

-- `usize::next_power_of_two`, by doubling; 64 rounds reach every power of a usize.
unfoldable pub power_from : ℕ → ℕ → ℕ → ℕ
power_from zero p n = p
power_from (suc rounds) p n = let next = power_from rounds (2 * p) n in if leb n p then p else next

unfoldable pub next_power_of_two : ℕ → ℕ
unfolding power_from
next_power_of_two n = power_from 64 1 n

pub enabled_with_alignment : ℕ → DirectIoConfig
enabled_with_alignment alignment = record {
  enabled = true;
  alignment = next_power_of_two (max alignment default_direct_io_alignment);
}

pub effective_alignment : DirectIoConfig → ℕ
effective_alignment cfg = next_power_of_two (max cfg.alignment default_direct_io_alignment)

-- `round_up` of direct_io.rs; the sum is a usize.
pub round_up : ℕ → ℕ → ℕ
round_up value alignment =
    let rem = value % alignment in
    if value == 0 then 0 else if rem == 0 then value else (value + (alignment - rem)) % 2 ^ 64

-- The window of a request: the aligned offset, the bytes before the request, the aligned length.
pub record Window : Type 0 where
  pub aligned_offset : ℕ
  pub prefix : ℕ
  pub aligned_len : ℕ

pub window : DirectIoConfig → ℕ → ℕ → Window
unfolding effective_alignment round_up
window cfg offset n =
    let alignment = effective_alignment cfg in
    let aligned_offset = offset / alignment * alignment in
    let prefix = offset - aligned_offset in
    record {
      aligned_offset = aligned_offset;
      prefix = prefix;
      aligned_len = round_up (saturating_add prefix n) alignment;
    }

module _ (os : Os) (cfg : DirectIoConfig) where
  pub read_exact_at : List ℕ → ℕ → ℕ → Option (List ℕ)
  unfolding window
  read_exact_at file offset n =
      let w = window cfg offset n in
      let scratch = read_exact_at_buffered_partial_ok os file w.aligned_offset w.aligned_len in
      if cfg.enabled
      then some (take n (drop w.prefix scratch))
      else read_exact_at_buffered os file offset n

  -- The scratch block before the patch: zeros, or what the file holds there.
  abbrev scratch_block : List ℕ → Window → ℕ → List ℕ
  scratch_block file w n =
      if w.prefix == 0 && w.aligned_len == n
      then replicate w.aligned_len 0
      else read_exact_at_buffered_partial_ok os file w.aligned_offset w.aligned_len

  -- `copy_from_slice` into the scratch block is a write over it; `Window` shows that it fits.
  pub write_all_at : List ℕ → ℕ → List ℕ → List ℕ × Bool
  unfolding window
  write_all_at file offset buf =
      let w = window cfg offset (length buf) in
      let scratch = overwrite (scratch_block file w (length buf)) w.prefix buf in
      if cfg.enabled
      then write_all_at_buffered os file w.aligned_offset scratch
      else write_all_at_buffered os file offset buf
