-- ===== src/Spill/Memory/Flush.antt =====
-- The buffers and segments of the sink under its helpers.
use mathlib.Core.List.{Perm, append_assoc, perm_append_comm}
use mathlib.Core.List.Perm
use forge_ann.Prelude.{
  ℕ, ◌/◌, ◌≤◌, ◌<◌, ◌≡◌, ◌≢◌, refl, ap, ◌∙◌, subst, ◌==◌, Bool-cases, inl, inr, some, List, [], ◌∷◌,
  ◌++◌, length, All, All-imp, All-append, AreDistinct, arith,
}
use native.Mathlib.Nat.{le_refl, le_trans}
use forge_ann.Prelude.Sorting.{sort_by, All-sort_by, Ascends, sort_by-Ascends}
use forge_ann.Spill.{SpillRecord}
use forge_ann.Spill.Memory.{
  Buffers, by_src, buffer_of, extend_buffer, take_buffer, first_src, last_src, make_segment,
  shard_ids,
}
use forge_ann.Spill.Memory.Contents.{buffered, IsOfShard, IsBuffer, IsSegment}

-- Moving a block to the front.
pub perm_front {ℓ} : {A : Type ℓ} (xs ys zs : List A) → Perm (xs ++ (ys ++ zs)) (ys ++ (xs ++ zs))
perm_front xs ys zs =
    rw (← append_assoc xs ys zs, ← append_assoc ys xs zs)
      (Perm.append_right zs (perm_append_comm xs ys))

-- Buffers.
pub extend_buffer_lem :
    (sp shard : ℕ) (new : List SpillRecord) (buffers : Buffers)
    → All (IsOfShard sp shard) new
    → All (IsBuffer sp) buffers
    → All (IsBuffer sp) (extend_buffer shard new buffers)
      × Perm (buffered (extend_buffer shard new buffers)) (new ++ buffered buffers)
unfolding extend_buffer
extend_buffer_lem sp shard new [] n a = ((n, tt), Perm.refl (new ++ []))
extend_buffer_lem sp shard new ((t, rs) ∷ buffers) n (p, a) = elim (Bool-cases (t == shard)) [
  | inl same ↦
      let e : shard ≡ t = ground arith in
      let n' : All (IsOfShard sp t) new = All-imp (λ r q. q ∙ e) new n in
      rw same (
        (All-append (IsOfShard sp t) rs new p n', a),
        rw (append_assoc rs new (buffered buffers)) (perm_front rs new (buffered buffers)),
      )
  | inr other ↦
      let (b, q) = extend_buffer_lem sp shard new buffers n a in
      rw other ((p, b), Perm.trans (Perm.append_left rs q) (perm_front rs new (buffered buffers)))
]

extend_buffer-absent :
    (s shard : ℕ) (new : List SpillRecord) (buffers : Buffers)
    → shard ≢ s
    → All (λ t. t ≢ s) (shard_ids buffers)
    → All (λ t. t ≢ s) (shard_ids (extend_buffer shard new buffers))
unfolding extend_buffer
extend_buffer-absent s shard new [] d a = (d, tt)
extend_buffer-absent s shard new ((t, rs) ∷ buffers) d (p, a) = elim (Bool-cases (t == shard)) [
  | inl same ↦ rw same (p, a)
  | inr other ↦ rw other (p, extend_buffer-absent s shard new buffers d a)
]

pub extend_buffer-AreDistinct :
    (shard : ℕ) (new : List SpillRecord) (buffers : Buffers)
    → AreDistinct (shard_ids buffers)
    → AreDistinct (shard_ids (extend_buffer shard new buffers))
unfolding extend_buffer
extend_buffer-AreDistinct shard new [] d = (tt, tt)
extend_buffer-AreDistinct shard new ((t, rs) ∷ buffers) (l, d) = elim (Bool-cases (t == shard)) [
  | inl same ↦ rw same (l, d)
  | inr other ↦
      let ne : shard ≢ t = λ q. absurd (ground arith) in
      rw other (
        extend_buffer-absent t shard new buffers ne l,
        extend_buffer-AreDistinct shard new buffers d,
      )
]

pub shard_ids-take_buffer :
    (shard : ℕ) (buffers : Buffers) → shard_ids (take_buffer shard buffers) ≡ shard_ids buffers
unfolding take_buffer
shard_ids-take_buffer shard [] = refl
shard_ids-take_buffer shard ((t, rs) ∷ buffers) = elim (Bool-cases (t == shard)) [
  | inl same ↦ rw same refl
  | inr other ↦ rw other (ap (λ l. t ∷ l) (shard_ids-take_buffer shard buffers))
]

pub take_buffer_lem :
    (sp shard : ℕ) (buffers : Buffers) {rs : List SpillRecord}
    → buffer_of shard buffers ≡ some rs
    → All (IsBuffer sp) buffers
    → All (IsOfShard sp shard) rs
      × All (IsBuffer sp) (take_buffer shard buffers)
      × Perm (buffered buffers) (rs ++ buffered (take_buffer shard buffers))
unfolding buffer_of take_buffer
take_buffer_lem sp shard [] e a = cc
take_buffer_lem sp shard ((t, b) ∷ buffers) {rs} e (p, a) = elim (Bool-cases (t == shard)) [
  | inl same ↦
      let q : t ≡ shard = ground arith in
      let r : b ≡ rs = ground arith in
      rw same (
        subst (All (IsOfShard sp shard)) r (subst (λ s. All (IsOfShard sp s) b) q p),
        (tt, a),
        subst (λ l. Perm (b ++ buffered buffers) (l ++ buffered buffers)) r
            (Perm.refl (b ++ buffered buffers)),
      )
  | inr other ↦
      let e' : buffer_of shard buffers ≡ some rs = ground arith in
      let (m, c, q) = take_buffer_lem sp shard buffers e' a in
      rw other (
        m,
        (p, c),
        Perm.trans (Perm.append_left b q) (perm_front b rs (buffered (take_buffer shard buffers))),
      )
]

-- Segments.
bounds_lem :
    (lo : ℕ) (records : List SpillRecord)
    → Ascends (λ r. r.src) lo records
    → All (λ r. (first_src records ≤ r.src) × (r.src ≤ last_src records)) records
unfolding first_src last_src
bounds_lem lo [] a = tt
bounds_lem lo (r ∷ []) a = ((le_refl r.src, le_refl r.src), tt)
bounds_lem lo (r ∷ s ∷ rs) (h, (k, a)) =
    let ((m, n), more) = bounds_lem r.src (s ∷ rs) (k, a) in
    ((le_refl r.src, le_trans k n), ((k, n), All-imp (λ t (b, c). (le_trans k b, c)) rs more))

pub ends_lem :
    (P : ℕ → Type 0) (records : List SpillRecord)
    → 0 < length records
    → All (λ r. P r.src) records
    → P (first_src records) × P (last_src records)
unfolding first_src last_src
ends_lem P [] h a = absurd (omega arith)
ends_lem P (r ∷ []) h (p, a) = (p, p)
ends_lem P (r ∷ s ∷ rs) h (p, a) = (p, (ends_lem P (s ∷ rs) (omega arith) a).1)

pub make_segment-IsSegment :
    (sp shard : ℕ) (buffer : List SpillRecord)
    → 0 < length (sort_by by_src buffer)
    → All (IsOfShard sp shard) buffer
    → IsSegment sp (make_segment shard buffer)
unfolding make_segment
make_segment-IsSegment sp shard buffer h a =
    let records = sort_by by_src buffer in
    let same = All-sort_by by_src (IsOfShard sp shard) buffer a in
    let (f, l) = ends_lem (λ s. s / sp ≡ shard) records h same in
    let up =
      sort_by-Ascends by_src (λ r. r.src) (λ x y e. ground arith) (λ x y e. ground arith) buffer in
    record {
      filled = h;
      first = refl;
      last = refl;
      apart = same;
      least = bounds_lem 0 records up;
      min_in = f;
      max_in = l;
    }
