-- ===== src/Prelude/Usize.antt =====
-- `usize` and `u64`, both of 64 bits: sums and differences that wrap, as those of atomic counters do, and
-- the saturating ones. Two numbers are congruent when a counter cannot tell them apart.
use Prim.Native.Nat.{ℕ, ◌+◌, ◌-◌, ◌*◌, ◌%◌, ◌^◌, min}
use mathlib.Core.Path.{◌≡◌}
use native.Mathlib.Omega.{arith}

abbrev pub wrapping_add : ℕ → ℕ → ℕ
wrapping_add a b = (a + b) % 2 ^ 64

abbrev pub wrapping_sub : ℕ → ℕ → ℕ
wrapping_sub a b = (a + (2 ^ 64 - b % 2 ^ 64)) % 2 ^ 64

abbrev pub saturating_add : ℕ → ℕ → ℕ
saturating_add a b = min (a + b) (2 ^ 64 - 1)

abbrev pub saturating_mul : ℕ → ℕ → ℕ
saturating_mul a b = min (a * b) (2 ^ 64 - 1)

abbrev pub IsCongruent : ℕ → ℕ → Type 0
IsCongruent a b = a % 2 ^ 64 ≡ b % 2 ^ 64

pub IsCongruent-wrapping_add :
    (a b n : ℕ) → IsCongruent a b → IsCongruent (wrapping_add a n) (b + n)
IsCongruent-wrapping_add a b n e = omega arith

pub IsCongruent-wrapping_sub :
    (a b n : ℕ) → IsCongruent a (b + n) → IsCongruent (wrapping_sub a n) b
IsCongruent-wrapping_sub a b n e = omega arith
