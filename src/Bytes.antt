-- ===== src/Bytes.antt =====
-- `to_le_bytes` and `from_le_bytes` of the unsigned integers, and `read_exact` of one from the bytes
-- of a file. Bytes are numbers below 256.
use native.Mathlib.Nat.{pow-suc}
use forge_ann.Prelude.{
  ℕ, zero, suc, ◌+◌, ◌*◌, ◌/◌, ◌%◌, ◌^◌, ◌<◌, ◌≡◌, refl, ap, subst, Option, Option-cases, inl, inr,
  none, some, List, [], ◌∷◌, ◌++◌, length, All, arith,
}

-- The `k` bytes of a number, the lowest first.
unfoldable pub to_le_bytes : ℕ → ℕ → List ℕ
to_le_bytes zero v = []
to_le_bytes (suc k) v = (v % 256) ∷ to_le_bytes k (v / 256)

unfoldable pub from_le_bytes : List ℕ → ℕ
from_le_bytes [] = 0
from_le_bytes (b ∷ bs) = b + 256 * from_le_bytes bs

-- Reads `k` bytes and the number that they stand for.
unfoldable pub read_le : ℕ → List ℕ → Option (ℕ × List ℕ)
read_le zero bytes = some (0, bytes)
read_le (suc k) [] = none
read_le (suc k) (b ∷ bytes) = elim (read_le k bytes) [
  | none ↦ none
  | some (v, rest) ↦ some (b + 256 * v, rest)
]

abbrev pub IsByte : ℕ → Type 0
IsByte b = b < 256

pub length-to_le_bytes : (k v : ℕ) → length (to_le_bytes k v) ≡ k
unfolding to_le_bytes
length-to_le_bytes zero v = refl
length-to_le_bytes (suc k) v = ap suc (length-to_le_bytes k (v / 256))

pub to_le_bytes-IsByte : (k v : ℕ) → All IsByte (to_le_bytes k v)
unfolding to_le_bytes
to_le_bytes-IsByte zero v = tt
to_le_bytes-IsByte (suc k) v = (omega arith, to_le_bytes-IsByte k (v / 256))

-- Reading takes back what was written, and leaves the rest.
pub read_le-to_le_bytes :
    (k v : ℕ) (rest : List ℕ) → v < 256 ^ k → read_le k (to_le_bytes k v ++ rest) ≡ some (v, rest)
unfolding read_le to_le_bytes
read_le-to_le_bytes zero v rest h = ground arith
read_le-to_le_bytes (suc k) v rest h =
    ground (arith, read_le-to_le_bytes k (v / 256) rest (omega (arith, pow-suc 256 k)))

-- Writing gives back what was read.
pub to_le_bytes-read_le :
    (k : ℕ) (bytes : List ℕ) {v : ℕ} {rest : List ℕ}
    → All IsByte bytes
    → read_le k bytes ≡ some (v, rest)
    → (bytes ≡ to_le_bytes k v ++ rest) × (v < 256 ^ k) × All IsByte rest
unfolding read_le to_le_bytes
to_le_bytes-read_le zero bytes a e = ground arith
to_le_bytes-read_le (suc k) [] a e = absurd (ground arith)
to_le_bytes-read_le (suc k) (b ∷ bytes) {v} {rest} a e = elim (Option-cases (read_le k bytes)) [
  | inl gone ↦ absurd (ground arith)
  | inr ((w, r), f) ↦
      let (ih, bound, more) = to_le_bytes-read_le k bytes a.1 f in
      let value : b + 256 * w ≡ v = ground arith in
      let same : r ≡ rest = ground arith in
      let low : v % 256 ≡ b = omega arith in
      let high : v / 256 ≡ w = omega arith in
      (
        rw (low, high, ← same) (ap (λ l. b ∷ l) ih),
        omega (arith, pow-suc 256 k),
        subst (All IsByte) same more,
      )
]
