-- ===== src/Spill/Reduce/Slab.antt =====
-- The slab of a chunk: every reservoir has been fed with the records of its point.
use forge_ann.Prelude.{
  ℕ, zero, suc, ◌+◌, ◌%◌, ◌^◌, ◌<◌, ◌≡◌, ◌≢◌, refl, ap, ◌∙◌, true, ◌==◌, inl, inr, subst, map, some,
  ◌>>=◌, Option-cases, List, [], ◌∷◌, ◌++◌, arith, length,
}
use mathlib.Core.List.{append-nil}
use forge_ann.Prelude.Results
use forge_ann.Prelude.Results.{Result, ok, err}
use forge_ann.Reservoir.{Reservoir, new, insert, drain_neighbors}
use forge_ann.Reservoir.Invariant.{IsValid, new-IsValid}
use forge_ann.Reservoir.Insert.{IsCandidate, insert-IsValid}
use forge_ann.Reservoir.Batch.{Candidate, insert_all}
use forge_ann.Spill.{SpillRecord, SpillError, to_pending_edge}
use forge_ann.Spill.Reduce.{allocate_reservoir_slab, insert_local, emit_points}
use forge_ann.Spill.Reduce.Rows.{
  candidate_of, candidates_of, candidates_of-append, candidates_of-none, reservoir_of, row_of, rows,
  emit_rows,
}

-- Reservoirs `start`, `start + 1`, ... fed with their records of the list.
abbrev pub Filled : ℕ → ℕ → List SpillRecord → List Reservoir → Type 0
Filled l start records [] = Unit
Filled l start records (r ∷ rs) =
    ((reservoir_of l (candidates_of start records) ≡ some r) × IsValid r)
    × Filled l (suc start) records rs

pub allocate_reservoir_slab_lem :
    (l start points : ℕ) {r : Reservoir}
    → new l ≡ some r
    → (slab : List Reservoir) × (allocate_reservoir_slab points l ≡ ok slab)
      × (length slab ≡ points)
      × Filled l start [] slab
unfolding allocate_reservoir_slab candidates_of reservoir_of insert_all
allocate_reservoir_slab_lem l start zero e = ([], refl, refl, tt)
allocate_reservoir_slab_lem l start (suc points) {r} e =
    let (slab, f, n, a) = allocate_reservoir_slab_lem l (suc start) points e in
    (r ∷ slab, rw (e, f) refl, ap suc n, ((rw e refl, (new-IsValid l e).0), a))

insert_all-append_one :
    (r : Reservoir) (cs : List Candidate) (c : Candidate)
    → insert_all r (cs ++ (c ∷ [])) ≡ (insert_all r cs >>= λ r'. insert r' c.target c.hash c.dist)
unfolding insert_all
insert_all-append_one r [] c = elim (Option-cases (insert r c.target c.hash c.dist)) [
  | inl e ↦ rw e refl
  | inr (r', e) ↦ rw e refl
]
insert_all-append_one r (d ∷ cs) c = elim (Option-cases (insert r d.target d.hash d.dist)) [
  | inl e ↦ rw e refl
  | inr (r', e) ↦ rw e (insert_all-append_one r' cs c)
]

reservoir_of-append_one :
    (l : ℕ) (cs : List Candidate) (c : Candidate) {r r' : Reservoir}
    → reservoir_of l cs ≡ some r
    → insert r c.target c.hash c.dist ≡ some r'
    → reservoir_of l (cs ++ (c ∷ [])) ≡ some r'
unfolding reservoir_of
reservoir_of-append_one l cs c {r} {r'} e f = elim (Option-cases (new l)) [
  | inl n ↦ absurd (ground arith)
  | inr (r0, n) ↦
      let e' : insert_all r0 cs ≡ some r = ground arith in
      rw (n, insert_all-append_one r0 cs c, e') f
]

candidates_of-same :
    (records : List SpillRecord) (record0 : SpillRecord)
    → candidates_of record0.src (records ++ (record0 ∷ []))
      ≡ candidates_of record0.src records ++ (candidate_of record0 ∷ [])
unfolding candidates_of
candidates_of-same records r =
    let same : (r.src == r.src) ≡ true = ground arith in
    candidates_of-append r.src records (r ∷ []) ∙ rw same refl

candidates_of-other :
    (p : ℕ) (records : List SpillRecord) (r : SpillRecord)
    → r.src ≢ p
    → candidates_of p (records ++ (r ∷ [])) ≡ candidates_of p records
unfolding candidates_of
candidates_of-other p records r n =
    candidates_of-append p records (r ∷ [])
    ∙ rw (candidates_of-none p (r ∷ []) (n, tt)) (append-nil (candidates_of p records))

-- A record below the slab's points changes nothing.
pub Filled-below :
    (l start : ℕ) (records : List SpillRecord) (r : SpillRecord) (slab : List Reservoir)
    → r.src < start
    → Filled l start records slab
    → Filled l start (records ++ (r ∷ [])) slab
Filled-below l start records r [] h a = tt
Filled-below l start records r (x ∷ slab) h ((e, v), a) =
    let n : r.src ≢ start = λ q. absurd (omega arith) in
    (
      (rw (candidates_of-other start records r n) e, v),
      Filled-below l (suc start) records r slab (omega arith) a,
    )

pub insert_local_lem :
    (l start i : ℕ) (records : List SpillRecord) (r : SpillRecord) (slab : List Reservoir)
    → r.src ≡ start + i
    → i < length slab
    → IsCandidate r.hash r.dist
    → Filled l start records slab
    → (slab' : List Reservoir) × (insert_local slab i (to_pending_edge r) ≡ ok slab')
      × (length slab' ≡ length slab)
      × Filled l start (records ++ (r ∷ [])) slab'
unfolding insert_local to_pending_edge
insert_local_lem l start i records r [] q h c a = absurd (omega arith)
insert_local_lem l start zero records r (x ∷ slab) q h c ((e, v), a) =
    let here : start ≡ r.src = omega arith in
    let (x', f, w, k) = insert-IsValid x r.dst r.hash r.dist v c in
    let e' : reservoir_of l (candidates_of r.src records) ≡ some x =
      subst (λ p. reservoir_of l (candidates_of p records) ≡ some x) here e in
    (
      x' ∷ slab,
      rw f refl,
      refl,
      (
        (
          rw (here, candidates_of-same records r)
              (reservoir_of-append_one l (candidates_of r.src records) (candidate_of r) e' f),
          w,
        ),
        Filled-below l (suc start) records r slab (omega arith) a,
      ),
    )
insert_local_lem l start (suc i) records r (x ∷ slab) q h c ((e, v), a) =
    let (slab', f, n, b) =
      insert_local_lem l (suc start) i records r slab (omega arith) (omega arith) c a in
    let other : r.src ≢ start = λ s. absurd (omega arith) in
    (x ∷ slab', rw f refl, ap suc n, ((rw (candidates_of-other start records r other) e, v), b))

row_of_lem :
    (l : ℕ) (cs : List Candidate) {r : Reservoir}
    → reservoir_of l cs ≡ some r
    → row_of l cs ≡ (drain_neighbors r).0
unfolding row_of
row_of_lem l cs e = rw (row_of, e) refl

-- The rows of a filled slab.
module _ {S : Type 0} (on_point_done : ℕ → List ℕ → S → Result SpillError S) where
  pub emit_points_lem :
      (l start : ℕ) (records : List SpillRecord) (slab : List Reservoir) (s : S)
      → Filled l start records slab
      → emit_points on_point_done start (length slab) slab s
        ≡ Results.◌>>=◌
            (emit_rows on_point_done (rows l records start (length slab)) s)
            (λ s'. ok (map (λ r. (drain_neighbors r).1) slab, s'))
  unfolding emit_points emit_rows rows
  emit_points_lem l start records [] s a = refl
  emit_points_lem l start records (r ∷ slab) s ((e, v), a) =
      elim (Results.Result-cases (on_point_done (start % 2 ^ 32) (drain_neighbors r).0 s)) [
        | inl (s', f) ↦
            let more = emit_points_lem l (suc start) records slab s' a in
            rw (row_of_lem l (candidates_of start records) e, f, more)
              (Results.map-map {B = List Reservoir × S} {C = List Reservoir × S}
                (λ t. (map (λ q. (drain_neighbors q).1) slab, t))
                (λ more. ((drain_neighbors r).1 ∷ more.0, more.1))
                (emit_rows on_point_done (rows l records (suc start) (length slab)) s'))
        | inr (x, f) ↦ rw (row_of_lem l (candidates_of start records) e, f) refl
      ]
