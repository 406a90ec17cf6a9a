-- ===== src/Reservoir/Batch.antt =====
-- A batch of candidates offered in turn, as the loops of the reducers do, from `new` to
-- `drain_neighbors`.
use forge_ann.Prelude.{
  ℕ, suc, ◌≤◌, ◌≡◌, refl, ◌≢◌, some, Option, ◌>>=◌, List, [], ◌∷◌, map, length, All, All-imp, ◌⊎◌,
  inl, inr, arith, ap, ◌∙◌,
}
use forge_ann.Reservoir.{Slot, Reservoir, new, insert, drain_neighbors}
use forge_ann.Reservoir.Ordered.{IsDistinct, delete_at, All-ordered_insert, All-delete_at}
use forge_ann.Reservoir.Invariant.{IsValid, new-IsValid, new-empty}
use forge_ann.Reservoir.Adding.{slots-appended}
use forge_ann.Reservoir.Rules.{Change, added, refused, replaced, insert-Follows}
use forge_ann.Reservoir.Insert.{IsCandidate, Change-IsValid}

pub record Candidate : Type 0 where
  pub target : ℕ
  pub hash : ℕ
  pub dist : ℕ

unfoldable pub insert_all : Reservoir → List Candidate → Option Reservoir
insert_all r [] = some r
insert_all r (c ∷ cs) = insert r c.target c.hash c.dist >>= λ r'. insert_all r' cs

-- Slots come from the candidates.
abbrev pub Offered : List Candidate → ℕ → Type 0
Offered [] t = ⊥
Offered (c ∷ cs) t = (c.target ≡ t) ⊎ Offered cs t

abbrev Within : (ℕ → Type 0) → Reservoir → Type 0
Within P r = All (λ (s : Slot). P s.target) r.slots

Change-Within :
    (P : ℕ → Type 0) {r : Reservoir} {target hash dist : ℕ} {r' : Reservoir}
    → P target
    → Within P r
    → Change r target hash dist r'
    → Within P r'
Change-Within P {r} {target = t} {hash = h} {dist = d} p w (added l room) =
    rw (slots-appended r _).0 (All-ordered_insert (λ (s : Slot). P s.target) _ r.slots p w)
Change-Within P p w (refused pos s e rival far) = w
Change-Within P {r} p w (replaced pos s e rival near) =
    All-ordered_insert (λ (s : Slot). P s.target) _ (delete_at pos r.slots) p
      (All-delete_at (λ (s : Slot). P s.target) pos r.slots w)

insert_all-Within :
    (P : ℕ → Type 0) (cs : List Candidate) (r : Reservoir)
    → IsValid r
    → Within P r
    → All (λ (c : Candidate). IsCandidate c.hash c.dist × P c.target) cs
    → (r' : Reservoir) × (insert_all r cs ≡ some r')
      × IsValid r'
      × (r'.l_max ≡ r.l_max)
      × Within P r'
unfolding insert_all
insert_all-Within P [] r v w a = (r, refl, v, refl, w)
insert_all-Within P (c ∷ cs) r v w ((ok, p), a) =
    let (q, e, ch) = insert-Follows r c.target c.hash c.dist v in
    let (v', l) = Change-IsValid v ok ch in
    let (r', f, v'', l', w') = insert_all-Within P cs q v' (Change-Within P p w ch) a in
    (r', rw e f, v'', l' ∙ l, w')

-- No id occurs twice.
abbrev pub AreDistinct : List ℕ → Type 0
AreDistinct [] = Unit
AreDistinct (x ∷ xs) = All (λ y. y ≢ x) xs × AreDistinct xs

abbrev pub targets : List Slot → List ℕ
targets = map (λ s. s.target)

All-targets : (P : ℕ → Type 0) (xs : List Slot) → All (λ s. P s.target) xs → All P (targets xs)
All-targets P [] h = tt
All-targets P (x ∷ xs) (p, h) = (p, All-targets P xs h)

length-targets : (xs : List Slot) → length (targets xs) ≡ length xs
length-targets [] = refl
length-targets (x ∷ xs) = ap suc (length-targets xs)

targets-AreDistinct : (xs : List Slot) → IsDistinct xs → AreDistinct (targets xs)
targets-AreDistinct [] h = tt
targets-AreDistinct (x ∷ xs) (l, h) =
    (All-targets (λ t. t ≢ x.target) xs l, targets-AreDistinct xs h)

Offered-self :
    (cs : List Candidate)
    → All (λ (c : Candidate). IsCandidate c.hash c.dist) cs
    → All (λ (c : Candidate). IsCandidate c.hash c.dist × Offered cs c.target) cs
Offered-self [] a = tt
Offered-self (c ∷ cs) (ok, a) =
    ((ok, inl refl), All-imp (λ d (o, p). (o, inr p)) cs (Offered-self cs a))

-- A batch of any length, offered to a new reservoir of positive capacity, never panics, and what is
-- drained is at most `l_max` distinct targets, each of a candidate that was offered.
pub drain_neighbors-insert_all :
    (l : ℕ) (cs : List Candidate) {r : Reservoir}
    → new l ≡ some r
    → All (λ (c : Candidate). IsCandidate c.hash c.dist) cs
    → (r' : Reservoir) × (insert_all r cs ≡ some r')
      × (length (drain_neighbors r').0 ≤ l)
      × AreDistinct (drain_neighbors r').0
      × All (Offered cs) (drain_neighbors r').0
unfolding drain_neighbors
drain_neighbors-insert_all l cs {r} e a =
    let (k, slots) = new-empty l e in
    let (r', f, v, m, w) =
      insert_all-Within (Offered cs) cs r (new-IsValid l e).0 (rw slots tt) (Offered-self cs a) in
    (
      r',
      f,
      omega (arith, v.bounded, length-targets r'.slots),
      targets-AreDistinct r'.slots v.distinct,
      All-targets (Offered cs) r'.slots w,
    )
