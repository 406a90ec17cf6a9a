-- ===== src/Sampling.antt =====
-- ForgeANN/src/forgeann/sampling.rs: a sample of ids that is the same in whatever order they come.
pub mod Canonical
pub mod Sample
pub mod Taken
pub mod Bottom
mod Tests
use Prim.Native.Nat.{bit_xor}
use forge_ann.Prelude.{
  ℕ, zero, ◌+◌, ◌*◌, ◌/◌, ◌%◌, ◌^◌, Bool, ltb, leb, ◌==◌, ◌&&◌, ◌||◌, if◌then◌else◌, Option, none,
  some, ◌>>=◌, List, [], ◌∷◌, map, length, take, get_elem?,
}
use forge_ann.Prelude.Sorting.{sort_by}
use forge_ann.Prelude.Entries.{enumerate_from, dedup_by_id}

-- 64 bits wide
abbrev wrapping_mul : ℕ → ℕ → ℕ
wrapping_mul a b = (a * b) % 2 ^ 64

pub splitmix64 : ℕ → ℕ
splitmix64 value =
    let v1 = (value + 11400714819323198485) % 2 ^ 64 in
    let v2 = wrapping_mul (bit_xor v1 (v1 / 2 ^ 30)) 13787848793156543929 in
    let v3 = wrapping_mul (bit_xor v2 (v2 / 2 ^ 27)) 10723151780598845931 in
    bit_xor v3 (v3 / 2 ^ 31)

pub stable_sample_score : ℕ → ℕ → ℕ
unfolding splitmix64
stable_sample_score point_id seed =
    splitmix64 (bit_xor seed (wrapping_mul point_id 11400714819323198485))

abbrev pub by_id_then_place : ℕ × ℕ → ℕ × ℕ → Bool
by_id_then_place a b = ltb a.0 b.0 || ((a.0 == b.0) && leb a.1 b.1)

pub record Scored : Type 0 where
  pub score : ℕ
  pub id : ℕ
  pub place : ℕ

abbrev pub by_score : Scored → Scored → Bool
by_score a b = ltb a.score b.score || ((a.score == b.score) && leb a.id b.id)

pub scored : ℕ → ℕ × ℕ → Scored
unfolding stable_sample_score
scored seed e = record { score = stable_sample_score e.0 seed; id = e.0; place = e.1 }

pub unique : List ℕ → List (ℕ × ℕ)
unique ids = dedup_by_id (sort_by by_id_then_place (enumerate_from 0 ids))

-- `select_nth_unstable_by(k)`, `truncate(k)` and the sort leave the `k` least, sorted.
pub sample_positions_bottomk : List ℕ → ℕ → ℕ → List ℕ
unfolding unique scored
sample_positions_bottomk ids k seed =
    if (k == 0) || (length ids == 0)
    then []
    else if leb (length (unique ids)) k
    then map (λ e. e.1) (unique ids)
    else map (λ s. s.place) (take k (sort_by by_score (map (scored seed) (unique ids))))

-- The ids at the places; a place out of range is `none`.
pub ids_at : List ℕ → List ℕ → Option (List ℕ)
ids_at ids [] = some []
ids_at ids (place ∷ places) =
    get_elem? ids place >>= λ id. ids_at ids places >>= λ rest. some (id ∷ rest)

pub sample_set_bottomk : List ℕ → ℕ → ℕ → Option (List ℕ)
unfolding sample_positions_bottomk ids_at
sample_set_bottomk ids k seed = ids_at ids (sample_positions_bottomk ids k seed)
