-- ===== src/FinalPrune/Sweep.antt =====
-- One sweep of `robust_prune_candidates` over the candidates, and the edges so far.
use mathlib.Core.List.{append-nil, append_assoc}
use forge_ann.Prelude.{
  ℕ, zero, suc, ◌≤◌, ◌<◌, ◌≡◌, ◌≢◌, ◌⊎◌, inl, inr, refl, ap, ◌∙◌, sym, subst, Bool-cases, true,
  false, leb, ◌==◌, if◌then◌else◌, some, List, [], ◌∷◌, ◌++◌, length, length-append, contains,
  contains_refl, AreDistinct, Within, Within-weaken, All, All-imp, All-contains, All-append,
  AreDistinct-append_one, arith,
}
use forge_ann.Prelude.Results.{ok}
use forge_ann.Float32.{f32_lt, f32_le}
use forge_ann.FinalPrune.{
  Metric, ip, l2, cosine, Neighbor, Candidate, Dataset, f32_max_value, new_factor, occlude_factor,
  occlude, sweep,
}

abbrev pub candidate_ids : List Candidate → List ℕ
candidate_ids [] = []
candidate_ids (c ∷ cs) = c.neighbor.id ∷ candidate_ids cs

-- The candidate is out of the race, or is no edge yet.
abbrev pub Settled : ℕ → List ℕ → Candidate → Type 0
Settled alpha result c = (f32_lt alpha c.factor ≡ true) ⊎ All (λ e. e ≢ c.neighbor.id) result

-- The edges of `location` so far.
pub record AreEdges (pool : List ℕ) (location max_degree : ℕ) (result : List ℕ) : Type 0 where
  pub distinct : AreDistinct result
  pub no_loop : All (λ e. e ≢ location) result
  pub bounded : length result ≤ max_degree
  pub offered : Within pool result

-- Every distance within the pool can be computed.
abbrev pub IsReadable : Dataset → Metric → List ℕ → Type 0
IsReadable data_set metric pool =
    (a b : ℕ)
    → contains a pool ≡ true
    → contains b pool ≡ true
    → (d : ℕ) × (data_set.get_distance a b metric ≡ some d)

pub AreEdges-push :
    (pool : List ℕ) (location max_degree : ℕ) (result : List ℕ) (x : ℕ)
    → AreEdges pool location max_degree result
    → All (λ e. e ≢ x) result
    → x ≢ location
    → length result < max_degree
    → contains x pool ≡ true
    → AreEdges pool location max_degree (result ++ (x ∷ []))
AreEdges-push pool location max_degree result x g fresh other room known = record {
  distinct = AreDistinct-append_one result x g.distinct fresh;
  no_loop = All-append (λ e. e ≢ location) result (x ∷ []) g.no_loop (other, tt);
  bounded = omega (arith, length-append result (x ∷ []));
  offered = All-append (λ e. contains e pool ≡ true) result (x ∷ []) g.offered (known, tt);
}

Settled-append :
    (alpha : ℕ) (result new : List ℕ) (c : Candidate)
    → Settled alpha result c
    → All (λ e. e ≢ c.neighbor.id) new
    → Settled alpha (result ++ new) c
Settled-append alpha result new c (inl out) h = inl out
Settled-append alpha result new c (inr fresh) h =
    inr (All-append (λ e. e ≢ c.neighbor.id) result new fresh h)

AllSettled-append_one :
    (alpha x : ℕ) (result : List ℕ) (cs : List Candidate)
    → All (Settled alpha result) cs
    → All (λ y. y ≢ x) (candidate_ids cs)
    → All (Settled alpha (result ++ (x ∷ []))) cs
AllSettled-append_one alpha x result [] h k = tt
AllSettled-append_one alpha x result (c ∷ cs) (s, h) (n, k) = (
  Settled-append alpha result (x ∷ []) c s ((λ q. n (sym q)), tt),
  AllSettled-append_one alpha x result cs h k,
)

below_factor :
    (cur alpha f : ℕ) → f32_le cur alpha ≡ true → f32_lt alpha f ≡ true → f32_lt cur f ≡ true
unfolding f32_le f32_lt
below_factor cur alpha f h k = ground arith

not_below :
    (cur alpha f : ℕ) → f32_le cur alpha ≡ true → f32_lt cur f ≡ false → f32_lt alpha f ≡ false
not_below cur alpha f h k = elim (Bool-cases (f32_lt alpha f)) [
  | inl above ↦ let below = below_factor cur alpha f h above in absurd (ground arith)
  | inr short ↦ short
]

-- Elements of `new` lie in `ids`, and `x` does not.
apart : (ids new : List ℕ) (x : ℕ) → Within ids new → All (λ y. y ≢ x) ids → All (λ y. y ≢ x) new
apart ids new x w k = All-imp (λ y m. All-contains (λ z. z ≢ x) ids y k m) new w

still_fresh :
    (alpha : ℕ) (result : List ℕ) (c : Candidate)
    → f32_lt alpha c.factor ≡ false
    → Settled alpha result c
    → All (λ e. e ≢ c.neighbor.id) result
still_fresh alpha result c live (inl out) = absurd (ground arith)
still_fresh alpha result c live (inr fresh) = fresh

module _ (data_set : Dataset) (location max_degree alpha : ℕ) where
  occlude_factor_ok :
      (metric : Metric) (chosen : Neighbor) (c : Candidate)
      → metric ≢ ip
      → (d : ℕ) × (data_set.get_distance c.neighbor.id chosen.id metric ≡ some d)
      → (f : ℕ) × (occlude_factor data_set metric location max_degree alpha chosen c ≡ ok f)
  unfolding occlude_factor
  occlude_factor_ok l2 chosen c s (d, e) =
      (new_factor data_set l2 location max_degree alpha c d, rw e refl)
  occlude_factor_ok cosine chosen c s (d, e) =
      (new_factor data_set cosine location max_degree alpha c d, rw e refl)
  occlude_factor_ok ip chosen c s (d, e) = absurd (s refl)

module _ (data_set : Dataset) (metric : Metric) (location max_degree alpha : ℕ) (pool : List ℕ)
    (supported : metric ≢ ip) (readable : IsReadable data_set metric pool) where
  -- The inner loop succeeds, and keeps who is settled.
  occlude_lem :
      (chosen : Neighbor) (cs : List Candidate)
      → contains chosen.id pool ≡ true
      → Within pool (candidate_ids cs)
      → (cs' : List Candidate) × (occlude data_set metric location max_degree alpha chosen cs
          ≡ ok cs')
        × (candidate_ids cs' ≡ candidate_ids cs)
        × (length cs' ≡ length cs)
        × ((result : List ℕ) → All (Settled alpha result) cs → All (Settled alpha result) cs')
  unfolding occlude
  occlude_lem chosen [] h w = ([], refl, refl, refl, λ result s. s)
  occlude_lem chosen (c ∷ cs) h (k, w) =
      let (cs', e, i, l, t) = occlude_lem chosen cs h w in
      elim (Bool-cases (f32_lt alpha c.factor)) [
        | inl out ↦ (
          c ∷ cs',
          rw (out, e) refl,
          ap (λ r. c.neighbor.id ∷ r) i,
          ap suc l,
          λ result s. (s.0, t result s.1),
        )
        | inr live ↦
            let (f, g) =
              occlude_factor_ok data_set location max_degree alpha metric chosen c supported
                (readable c.neighbor.id chosen.id k h) in
            (
              record c { factor = f } ∷ cs',
              rw (live, g, e) refl,
              ap (λ r. c.neighbor.id ∷ r) i,
              ap suc l,
              λ result s. (inr (still_fresh alpha result c live s.0), t result s.1),
            )
      ]

  -- What a sweep leaves: the same candidates, all settled, and the edges with some of them added.
  pub record Swept (cs : List Candidate) (result : List ℕ) (cs' : List Candidate) (result' : List ℕ)
      : Type 0 where
    pub same_ids : candidate_ids cs' ≡ candidate_ids cs
    pub same_length : length cs' ≡ length cs
    pub settled : All (Settled alpha result') cs'
    pub edges : AreEdges pool location max_degree result'
    pub added : List ℕ
    pub grown : result' ≡ result ++ added
    pub among : Within (candidate_ids cs) added

  Swept-refl :
      (cs : List Candidate) (result : List ℕ)
      → All (Settled alpha result) cs
      → AreEdges pool location max_degree result
      → Swept cs result cs result
  Swept-refl cs result s g = record {
    same_ids = refl;
    same_length = refl;
    settled = s;
    edges = g;
    added = [];
    grown = sym (append-nil result);
    among = tt;
  }

  Swept-kept :
      (c : Candidate) (cs cs' : List Candidate) (result result' : List ℕ)
      → Settled alpha result c
      → All (λ y. y ≢ c.neighbor.id) (candidate_ids cs)
      → Swept cs result cs' result'
      → Swept (c ∷ cs) result (c ∷ cs') result'
  Swept-kept c cs cs' result result' s far w = record {
    same_ids = ap (λ r. c.neighbor.id ∷ r) w.same_ids;
    same_length = ap suc w.same_length;
    settled = (
      subst (λ r. Settled alpha r c) (sym w.grown)
          (Settled-append alpha result w.added c s
            (apart (candidate_ids cs) w.added c.neighbor.id w.among far)),
      w.settled,
    );
    edges = w.edges;
    added = w.added;
    grown = w.grown;
    among = Within-weaken c.neighbor.id (candidate_ids cs) w.added w.among;
  }

  -- Taking a candidate whose edge, if any, is `step`.
  Swept-taken :
      (c : Candidate) (cs cs1 cs' : List Candidate) (result step result' : List ℕ)
      → f32_lt alpha f32_max_value ≡ true
      → candidate_ids cs1 ≡ candidate_ids cs
      → length cs1 ≡ length cs
      → Within (c.neighbor.id ∷ []) step
      → Swept cs1 (result ++ step) cs' result'
      → Swept (c ∷ cs) result (record c { factor = f32_max_value } ∷ cs') result'
  Swept-taken c cs cs1 cs' result step result' finite i l one w = record {
    same_ids = ap (λ r. c.neighbor.id ∷ r) (w.same_ids ∙ i);
    same_length = ap suc (w.same_length ∙ l);
    settled = (inl finite, w.settled);
    edges = w.edges;
    added = step ++ w.added;
    grown = w.grown ∙ append_assoc result step w.added;
    among =
        All-append (λ x. contains x (candidate_ids (c ∷ cs)) ≡ true) step w.added
          (All-imp (λ x m. only x m) step one)
          (Within-weaken c.neighbor.id (candidate_ids cs) w.added
            (subst (λ r. Within r w.added) i w.among));
  }
    where
      only :
          (x : ℕ)
          → contains x (c.neighbor.id ∷ []) ≡ true
          → contains x (candidate_ids (c ∷ cs)) ≡ true
      only x m = ground arith

  -- The edge that a taken candidate adds, if it is not `location`.
  push_lem :
      (c : Candidate) (cs : List Candidate) (result : List ℕ)
      → All (Settled alpha result) cs
      → All (λ y. y ≢ c.neighbor.id) (candidate_ids cs)
      → contains c.neighbor.id pool ≡ true
      → All (λ e. e ≢ c.neighbor.id) result
      → length result < max_degree
      → AreEdges pool location max_degree result
      → (step : List ℕ) × ((if c.neighbor.id == location
            then result
            else result ++ (c.neighbor.id ∷ []))
          ≡ result ++ step)
        × Within (c.neighbor.id ∷ []) step
        × All (Settled alpha (result ++ step)) cs
        × AreEdges pool location max_degree (result ++ step)
  push_lem c cs result ss far k fresh room g = elim (Bool-cases (c.neighbor.id == location)) [
    | inl self ↦
        let q : result ++ [] ≡ result = append-nil result in
        ([], rw self (sym q), tt, rw q ss, rw q g)
    | inr other ↦ (
      c.neighbor.id ∷ [],
      rw other refl,
      (contains_refl c.neighbor.id [], tt),
      AllSettled-append_one alpha c.neighbor.id result cs ss far,
      AreEdges-push pool location max_degree result c.neighbor.id g fresh
          (λ q. absurd (ground arith)) room k,
    )
  ]

  pub sweep_lem :
      (fuel cur : ℕ) (cs : List Candidate) (result : List ℕ)
      → f32_lt alpha f32_max_value ≡ true
      → f32_le cur alpha ≡ true
      → length cs ≤ fuel
      → All (Settled alpha result) cs
      → AreDistinct (candidate_ids cs)
      → Within pool (candidate_ids cs)
      → AreEdges pool location max_degree result
      → (cs' : List Candidate) × (result' : List ℕ) × (sweep data_set metric location max_degree
            alpha fuel cur cs result
          ≡ ok (cs', result'))
        × Swept cs result cs' result'
  unfolding sweep
  sweep_lem zero cur [] result finite h l s d w g = ([], result, refl, Swept-refl [] result tt g)
  sweep_lem zero cur (c ∷ cs) result finite h l s d w g = absurd (omega arith)
  sweep_lem (suc fuel) cur [] result finite h l s d w g =
      ([], result, refl, Swept-refl [] result tt g)
  sweep_lem (suc fuel) cur (c ∷ cs) result finite h l (s, ss) (far, d) (k, w) g =
      elim (Bool-cases (leb max_degree (length result))) [
        | inl full ↦ (c ∷ cs, result, rw (sweep, full) refl, Swept-refl (c ∷ cs) result (s, ss) g)
        | inr room ↦ elim (Bool-cases (f32_lt cur c.factor)) [
          | inl skip ↦
              let (cs', result', e, swept) =
                sweep_lem fuel cur cs result finite h (omega arith) ss d w g in
              (
                c ∷ cs',
                result',
                rw (sweep, room, skip, e) refl,
                Swept-kept c cs cs' result result' s far swept,
              )
          | inr take ↦
              let fresh = still_fresh alpha result c (not_below cur alpha c.factor h take) s in
              let (cs1, f, i, n, t) = occlude_lem c.neighbor cs k w in
              let (step, p, one, st, g') = push_lem c cs result ss far k fresh (ground arith) g in
              let (cs', result', e, swept) =
                sweep_lem fuel cur cs1 (result ++ step) finite h (omega arith)
                  (t (result ++ step) st) (subst AreDistinct (sym i) d)
                  (subst (Within pool) (sym i) w) g' in
              (
                record c { factor = f32_max_value } ∷ cs',
                result',
                rw (sweep, room, take, f, p, e) refl,
                Swept-taken c cs cs1 cs' result step result' finite i n one swept,
              )
        ]
      ]
