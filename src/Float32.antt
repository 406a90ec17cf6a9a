-- ===== src/Float32.antt =====
-- `f32` by its bit pattern (`to_bits`), with the comparisons of IEEE 754, and the bf16 distances of
-- ForgeANN/src/forgeann/hash_prune.rs. Only comparisons and truncation are needed here; a NaN is
-- below, above and equal to nothing.
pub mod Bounds
use forge_ann.Prelude.{ℕ, ◌+◌, ◌-◌, ◌*◌, ◌/◌, ◌%◌, ◌^◌, Bool, not, ◌&&◌, ltb, leb, if◌then◌else◌}

unfoldable pub magnitude : ℕ → ℕ
magnitude x = x % 2 ^ 31

unfoldable pub is_nan : ℕ → Bool
unfolding magnitude
is_nan x = ltb 0x7f800000 (magnitude x)

-- The order of the numbers that the patterns stand for; both zeros have one key.
unfoldable pub key : ℕ → ℕ
unfolding magnitude
key x = if leb (2 ^ 31) x then 2 ^ 31 - magnitude x else 2 ^ 31 + magnitude x

-- `a < b` and `a <= b` on f32.
unfoldable pub f32_lt : ℕ → ℕ → Bool
unfolding is_nan key
f32_lt a b = not (is_nan a) && (not (is_nan b) && ltb (key a) (key b))

unfoldable pub f32_le : ℕ → ℕ → Bool
unfolding is_nan key
f32_le a b = not (is_nan a) && (not (is_nan b) && leb (key a) (key b))

-- `BFloat16::from_f32`: the upper half of the pattern.
unfoldable pub from_f32 : ℕ → ℕ
from_f32 v = v / 2 ^ 16 % 2 ^ 16

-- `BFloat16::to_f32`.
unfoldable pub to_f32 : ℕ → ℕ
to_f32 h = h * 2 ^ 16 % 2 ^ 32
