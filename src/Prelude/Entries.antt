-- ===== src/Prelude/Entries.antt =====
-- Ids with their places: `enumerate`, and `dedup_by_key` of entries sorted by id.
use mathlib.Core.List.{append_assoc}
use Prim.Native.Nat.{ℕ, suc}
use mathlib.Core.Path.{◌≡◌, refl, subst, ◌∙◌}
use mathlib.Core.Logic.{inl, inr}
use mathlib.Core.Bool.{Bool, true, false, ◌||◌}
use mathlib.Core.List.{List, [], ◌∷◌, ◌++◌}
use mathlib.Core.Option.{some}
use native.Mathlib.Omega.{arith}
use forge_ann.Prelude.Tests.{or_left_comm, ◌==◌, if◌then◌else◌, Bool-cases}
use forge_ann.Prelude.Lists.{length, length-append, get_elem?, All}
use forge_ann.Prelude.Members.{contains}
use forge_ann.Prelude.Sorting.{insert_by, sort_by}

-- The ids with their rows.
unfoldable pub enumerate_from : ℕ → List ℕ → List (ℕ × ℕ)
enumerate_from row [] = []
enumerate_from row (id ∷ ids) = (id, row) ∷ enumerate_from (suc row) ids

-- `dedup_by_key` behind an entry with this key.
unfoldable pub dedup_after : ℕ → List (ℕ × ℕ) → List (ℕ × ℕ)
dedup_after key [] = []
dedup_after key (e ∷ entries) =
    if e.0 == key then dedup_after key entries else e ∷ dedup_after e.0 entries

unfoldable pub dedup_by_id : List (ℕ × ℕ) → List (ℕ × ℕ)
unfolding dedup_after
dedup_by_id [] = []
dedup_by_id (e ∷ entries) = e ∷ dedup_after e.0 entries

-- Entries of the table name rows of their ids.
abbrev pub Names : List ℕ → ℕ × ℕ → Type 0
Names ids e = get_elem? ids e.1 ≡ some e.0

pub get_elem?-middle :
    (before : List ℕ) (id : ℕ) (ids : List ℕ)
    → get_elem? (before ++ (id ∷ ids)) (length before) ≡ some id
get_elem?-middle [] id ids = refl
get_elem?-middle (b ∷ before) id ids = get_elem?-middle before id ids

enumerate-Names :
    (before ids : List ℕ) → All (Names (before ++ ids)) (enumerate_from (length before) ids)
unfolding enumerate_from
enumerate-Names before [] = tt
enumerate-Names before (id ∷ ids) =
    let more = enumerate-Names (before ++ (id ∷ [])) ids in
    let n : length (before ++ (id ∷ [])) ≡ suc (length before) =
      omega (arith, length-append before (id ∷ [])) in
    (
      get_elem?-middle before id ids,
      subst (λ k. All (Names (before ++ (id ∷ ids))) (enumerate_from k ids)) n
          (subst (λ l. All (Names l) (enumerate_from (length (before ++ (id ∷ []))) ids))
            (append_assoc before (id ∷ []) ids) more),
    )

All-dedup_after :
    (P : ℕ × ℕ → Type 0) (key : ℕ) (entries : List (ℕ × ℕ))
    → All P entries
    → All P (dedup_after key entries)
unfolding dedup_after
All-dedup_after P key [] a = tt
All-dedup_after P key (e ∷ entries) (p, a) = elim (Bool-cases (e.0 == key)) [
  | inl same ↦ rw same (All-dedup_after P key entries a)
  | inr other ↦ rw other (p, All-dedup_after P e.0 entries a)
]

pub enumerate_from-Names : (ids : List ℕ) → All (Names ids) (enumerate_from 0 ids)
enumerate_from-Names ids = enumerate-Names [] ids

pub All-dedup_by_id :
    (P : ℕ × ℕ → Type 0) (entries : List (ℕ × ℕ)) → All P entries → All P (dedup_by_id entries)
unfolding dedup_by_id
All-dedup_by_id P [] a = tt
All-dedup_by_id P (e ∷ entries) (p, a) = (p, All-dedup_after P e.0 entries a)

-- No key is lost.
unfoldable pub has_key : ℕ → List (ℕ × ℕ) → Bool
has_key pid [] = false
has_key pid (e ∷ entries) = (e.0 == pid) || has_key pid entries

has_key-insert_by :
    (le : ℕ × ℕ → ℕ × ℕ → Bool) (pid : ℕ) (e : ℕ × ℕ) (entries : List (ℕ × ℕ))
    → has_key pid (insert_by le e entries) ≡ ((e.0 == pid) || has_key pid entries)
unfolding has_key insert_by
has_key-insert_by le pid e [] = refl
has_key-insert_by le pid e (f ∷ entries) = elim (Bool-cases (le e f)) [
  | inl first ↦ rw first refl
  | inr later ↦
      rw (later, has_key-insert_by le pid e entries)
        (or_left_comm (f.0 == pid) (e.0 == pid) (has_key pid entries))
]

has_key-sort_by :
    (le : ℕ × ℕ → ℕ × ℕ → Bool) (pid : ℕ) (entries : List (ℕ × ℕ))
    → has_key pid (sort_by le entries) ≡ has_key pid entries
unfolding has_key sort_by
has_key-sort_by le pid [] = refl
has_key-sort_by le pid (e ∷ entries) =
    has_key-insert_by le pid e (sort_by le entries) ∙ rw (has_key-sort_by le pid entries) refl

has_key-dedup_after :
    (pid key : ℕ) (entries : List (ℕ × ℕ))
    → ((key == pid) || has_key pid (dedup_after key entries))
      ≡ ((key == pid) || has_key pid entries)
unfolding has_key dedup_after
has_key-dedup_after pid key [] = refl
has_key-dedup_after pid key (e ∷ entries) = elim (Bool-cases (e.0 == key)) [
  | inl same ↦
      let q : e.0 ≡ key = ground arith in
      rw (same, has_key-dedup_after pid key entries, q) (twice (key == pid) (has_key pid entries))
  | inr other ↦ rw (other, has_key-dedup_after pid e.0 entries) refl
]
  where
    twice : (a b : Bool) → (a || b) ≡ (a || (a || b))
    twice true b = refl
    twice false b = refl

has_key-enumerate_from :
    (pid row : ℕ) (ids : List ℕ) → has_key pid (enumerate_from row ids) ≡ contains pid ids
unfolding has_key enumerate_from
has_key-enumerate_from pid row [] = refl
has_key-enumerate_from pid row (id ∷ ids) = rw (has_key-enumerate_from pid (suc row) ids) refl

-- Sorting by any test and dropping repeated ids loses no id.
pub has_key_unique :
    (le : ℕ × ℕ → ℕ × ℕ → Bool) (pid : ℕ) (ids : List ℕ)
    → has_key pid (dedup_by_id (sort_by le (enumerate_from 0 ids))) ≡ contains pid ids
unfolding dedup_by_id has_key
has_key_unique le pid ids =
    first (sort_by le (enumerate_from 0 ids))
    ∙ has_key-sort_by le pid (enumerate_from 0 ids)
    ∙ has_key-enumerate_from pid 0 ids
  where
    first : (entries : List (ℕ × ℕ)) → has_key pid (dedup_by_id entries) ≡ has_key pid entries
    first [] = refl
    first (e ∷ entries) = has_key-dedup_after pid e.0 entries
