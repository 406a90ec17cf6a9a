-- ===== src/Float32/Bounds.antt =====
-- What truncation to bf16 does to the order of distances.
use forge_ann.Prelude.{ℕ, ◌*◌, ◌/◌, ◌^◌, ◌≤◌, ◌<◌, ◌≡◌, true, false, arith}
use forge_ann.Float32.{is_nan, key, f32_lt, f32_le, from_f32, to_f32}

pub from_f32-lt : (v : ℕ) → from_f32 v < 2 ^ 16
unfolding from_f32
from_f32-lt v = omega arith

-- A stored distance comes back as it is.
pub from_f32-to_f32 : (h : ℕ) → h < 2 ^ 16 → from_f32 (to_f32 h) ≡ h
unfolding from_f32 to_f32
from_f32-to_f32 h b = omega arith

pub to_f32-from_f32 : (v : ℕ) → v < 2 ^ 32 → to_f32 (from_f32 v) ≡ v / 2 ^ 16 * 2 ^ 16
unfolding from_f32 to_f32
to_f32-from_f32 v b = omega arith

-- Truncation makes no NaN.
pub truncated-no-nan :
    (v : ℕ) → v < 2 ^ 32 → is_nan v ≡ false → is_nan (to_f32 (from_f32 v)) ≡ false
unfolding is_nan
truncated-no-nan v b n = ground (arith, to_f32-from_f32 v b)

-- A distance below a stored one is not above it once it is stored too.
pub truncated-le :
    (v h : ℕ)
    → v < 2 ^ 32
    → h < 2 ^ 16
    → key v ≤ key (to_f32 h)
    → key (to_f32 (from_f32 v)) ≤ key (to_f32 h)
unfolding to_f32 from_f32 key
truncated-le v h b c n = ground arith

-- The comparisons read through the order of the keys.
pub key_of_f32_lt : (a b : ℕ) → f32_lt a b ≡ true → key a < key b
unfolding f32_lt
key_of_f32_lt a b h = ground arith

pub key_of_not_f32_lt :
    (a b : ℕ) → is_nan a ≡ false → is_nan b ≡ false → f32_lt a b ≡ false → key b ≤ key a
unfolding f32_lt
key_of_not_f32_lt a b m n h = ground arith

pub key_of_not_f32_le :
    (a b : ℕ) → is_nan a ≡ false → is_nan b ≡ false → f32_le a b ≡ false → key b < key a
unfolding f32_le
key_of_not_f32_le a b m n h = ground arith
