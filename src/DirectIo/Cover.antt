-- ===== src/DirectIo/Cover.antt =====
-- The aligned window of a request: `round_up` and the offsets of direct_io.rs.
use native.Mathlib.Nat.{div-add-mod', mod-lt, mul-mod_left, mod-eq_of_lt, zero-mod}
use forge_ann.Prelude.{
  ℕ, zero, suc, ◌+◌, ◌-◌, ◌*◌, ◌/◌, ◌%◌, ◌^◌, ◌≤◌, ◌<◌, ◌≡◌, ◌==◌, max, arith, min, Bool-cases, inl,
  inr,
}
use forge_ann.DirectIo.{
  DirectIoConfig, default_direct_io_alignment, power_from, next_power_of_two, effective_alignment,
  round_up, window,
}

power_from_pos : (rounds p n : ℕ) → 0 < p → 0 < power_from rounds p n
unfolding power_from
power_from_pos zero p n h = h
power_from_pos (suc rounds) p n h = ground (arith, power_from_pos rounds (2 * p) n)

pub effective_alignment_pos : (cfg : DirectIoConfig) → 0 < effective_alignment cfg
unfolding effective_alignment next_power_of_two
effective_alignment_pos cfg =
    power_from_pos 64 1 (max cfg.alignment default_direct_io_alignment) (omega arith)

round_up_next :
    (value alignment : ℕ)
    → 0 < alignment
    → (value + (alignment - value % alignment)) % alignment ≡ 0
round_up_next value alignment h =
    let q = value / alignment in
    let whole : value + (alignment - value % alignment) ≡ suc q * alignment =
      omega (arith, div-add-mod' value alignment, mod-lt value h) in
    rw whole (mul-mod_left (suc q) alignment)

-- `round_up` gives the least multiple of the alignment that is not below the value, if it fits in a
-- usize.
pub round_up_least :
    (value alignment : ℕ)
    → 0 < alignment
    → value + alignment ≤ 2 ^ 64
    → (value ≤ round_up value alignment)
      × (round_up value alignment < value + alignment)
      × (round_up value alignment % alignment ≡ 0)
unfolding round_up
round_up_least value alignment h b = elim (Bool-cases (value == 0)) [
  | inl none ↦ rw none ((ground arith), (ground arith), zero-mod alignment)
  | inr some ↦ elim (Bool-cases (value % alignment == 0)) [
    | inl even ↦ rw (some, even) (omega arith, omega arith, ground arith)
    | inr odd ↦
        let fits : value + (alignment - value % alignment) < 2 ^ 64 =
          ground (arith, mod-lt value h) in
        rw (some, odd, mod-eq_of_lt fits)
          (
            omega (arith, mod-lt value h),
            ground (arith, mod-lt value h),
            round_up_next value alignment h,
          )
  ]
]

pub window_covers :
    (cfg : DirectIoConfig) (offset n : ℕ)
    → let al = effective_alignment cfg in
      let w = window cfg offset n in
      n + 2 * al ≤ 2 ^ 64
      → (w.aligned_offset + w.prefix ≡ offset)
        × (w.prefix + n ≤ w.aligned_len)
        × (w.aligned_len < n + 2 * al)
        × (w.aligned_offset % al ≡ 0)
        × (w.aligned_len % al ≡ 0)
unfolding window
window_covers cfg offset n b =
    let al = effective_alignment cfg in
    let pos : 0 < al = effective_alignment_pos cfg in
    let whole : offset / al * al + offset % al ≡ offset = div-add-mod' offset al in
    let below : offset % al < al = mod-lt offset pos in
    let inside : min (offset - offset / al * al + n) (2 ^ 64 - 1) ≡ offset - offset / al * al + n =
      omega arith in
    let (lo, hi, even) = round_up_least (offset - offset / al * al + n) al pos (omega arith) in
    (
      omega arith,
      rw inside lo,
      rw inside (omega arith),
      mul-mod_left (offset / al) al,
      rw inside even,
    )
