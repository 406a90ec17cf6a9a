-- ===== src/Scheduler/Queue/Alone.antt =====
-- `wait_until_idle` and `discard_queued_leaf_backlog` of a thread that is alone with the queue.
use mathlib.Core.List.{append_assoc, append-nil}
use forge_ann.Prelude.{
  ◌⊎◌, ℕ, zero, suc, ◌+◌, ◌^◌, ◌<◌, ◌==◌, ◌≡◌, refl, sym, ap, ◌∙◌, true, false, Option, none, some,
  inl, inr, List, [], ◌∷◌, ◌++◌, length, length-append, arith,
}
use forge_ann.Prelude.Results.{Result, ok, err, Result-cases, ◌>>=◌}
use forge_ann.Prelude.Usize.{IsCongruent}
use forge_ann.Scheduler.{QueuedLeaf, ForgeannScheduler, remove_task, remove_inflight}
use forge_ann.Scheduler.Queue.{
  finish_leaf_execution, finish_leaf_executions, check_for_error, process_taken_leaf_batch,
  try_help_from_backlog, wait_until_idle,
}
use forge_ann.Scheduler.Queue.Take.{IsTaken}
use forge_ann.Scheduler.Queue.Batch.{try_take_queued_leaf_batch-BatchOf}

-- No other thread has a leaf, and no error has been recorded.
pub record IsAlone (s : ForgeannScheduler) : Type 0 where
  pub tasks : IsCongruent s.outstanding_leaf_tasks (length s.leaf_backlog)
  pub fits : s.outstanding_leaf_tasks < 2 ^ 64
  pub few : length s.leaf_backlog < 2 ^ 64
  pub no_error : s.first_error ≡ none

pub check-ok : (s : ForgeannScheduler) → s.first_error ≡ none → check_for_error s ≡ ok tt
unfolding check_for_error
check-ok s e = rw e refl

pub backlog-cases :
    (xs : List QueuedLeaf)
    → (xs ≡ []) ⊎ ((q : QueuedLeaf) × (rest : List QueuedLeaf) × (xs ≡ q ∷ rest))
backlog-cases [] = inl refl
backlog-cases (q ∷ rest) = inr (q, rest, refl)

-- What finishing `n` leaves leaves.
pub record Finished (n : ℕ) (s s' : ForgeannScheduler) : Type 0 where
  tasks : IsCongruent s.outstanding_leaf_tasks (s'.outstanding_leaf_tasks + n)
  fits : s.outstanding_leaf_tasks < 2 ^ 64 → s'.outstanding_leaf_tasks < 2 ^ 64
  pub backlog : s'.leaf_backlog ≡ s.leaf_backlog
  pub capacity : s'.backlog_capacity ≡ s.backlog_capacity
  pub errors : s'.first_error ≡ s.first_error

pub finish_leaf_executions-Finished :
    (n : ℕ) (s : ForgeannScheduler) → Finished n s (finish_leaf_executions n s)
unfolding finish_leaf_executions finish_leaf_execution remove_task remove_inflight
finish_leaf_executions-Finished zero s = record {
  tasks = omega arith;
  fits = λ h. h;
  backlog = refl;
  capacity = refl;
  errors = refl;
}
finish_leaf_executions-Finished (suc n) s =
    let rest = finish_leaf_executions-Finished n (finish_leaf_execution s) in
    let tasks = rest.tasks in
    record {
      tasks = omega arith;
      fits = λ h. rest.fits (omega arith);
      backlog = rest.backlog;
      capacity = rest.capacity;
      errors = rest.errors;
    }

module _ {W : Type 0} (process : List QueuedLeaf → W → Result ℕ W) where
  -- The batches in turn, up to the first error.
  unfoldable pub run_batches : List (List QueuedLeaf) → W → Result ℕ W
  run_batches [] w = ok w
  run_batches (b ∷ bs) w = process b w >>= run_batches bs

unfoldable pub concat : List (List QueuedLeaf) → List QueuedLeaf
concat [] = []
concat (b ∷ bs) = b ++ concat bs

module _ {W : Type 0} (process : List QueuedLeaf → W → Result ℕ W) where
  -- The thread has returned; without an error every leaf of the queue has been processed in order.
  pub record IsDone (s : ForgeannScheduler) (w : W) (o : Option (ForgeannScheduler × Result ℕ W))
      : Type 0 where
    pub end : ForgeannScheduler
    pub batches : List (List QueuedLeaf)
    pub returns : o ≡ some (end, run_batches process batches w)
    pub left : List QueuedLeaf
    -- the batches are the oldest leaves in order
    pub in_order : s.leaf_backlog ≡ concat batches ++ left
    pub all_if_ok : (w' : W) → run_batches process batches w ≡ ok w' → left ≡ []

  -- After a batch of the oldest leaves comes what the rest of the run does.
  IsDone-after :
      (s s' s2 : ForgeannScheduler) (leaves : List QueuedLeaf) (w w' : W)
      (o : Option (ForgeannScheduler × Result ℕ W))
      → IsTaken s leaves s'
      → Finished (length leaves) s' s2
      → process leaves w ≡ ok w'
      → IsDone s2 w' o
      → IsDone s w o
  unfolding run_batches concat
  IsDone-after s s' s2 leaves w w' o t f e d =
      let now = t.oldest ∙ ap (λ xs. leaves ++ xs) (sym f.backlog ∙ d.in_order) in
      record {
        end = d.end;
        batches = leaves ∷ d.batches;
        returns = rw e d.returns;
        left = d.left;
        in_order = now ∙ sym (append_assoc leaves (concat d.batches) d.left);
        all_if_ok =
            λ w2 r. d.all_if_ok w2 (sym (ap (λ m. m >>= run_batches process d.batches) e) ∙ r);
      }

  -- A batch that fails is the last.
  IsDone-failed :
      (s s' s2 : ForgeannScheduler) (leaves : List QueuedLeaf) (w : W) (e : ℕ)
      (o : Option (ForgeannScheduler × Result ℕ W))
      → IsTaken s leaves s'
      → process leaves w ≡ err e
      → o ≡ some (s2, err e)
      → IsDone s w o
  unfolding run_batches concat
  IsDone-failed s s' s2 leaves w e o t f r = record {
    end = s2;
    batches = leaves ∷ [];
    returns = rw f r;
    left = s'.leaf_backlog;
    in_order = t.oldest ∙ ap (λ xs. xs ++ s'.leaf_backlog) (sym (append-nil leaves));
    all_if_ok =
        λ w2 r. let bad : err e ≡ ok w2 = sym (ap (λ m. m >>= run_batches process []) f) ∙ r in cc;
  }

  IsAlone-after :
      (s s' s2 : ForgeannScheduler) (leaves : List QueuedLeaf)
      → IsAlone s
      → IsTaken s leaves s'
      → Finished (length leaves) s' s2
      → IsAlone s2 × (length s.leaf_backlog ≡ length leaves + length s2.leaf_backlog)
  IsAlone-after s s' s2 leaves a t f =
      let lengths =
        ap length (t.oldest ∙ ap (λ xs. leaves ++ xs) (sym f.backlog))
        ∙ length-append leaves s2.leaf_backlog in
      let at = a.tasks in
      let af = a.few in
      let tt_ = t.tasks in
      let ft = f.tasks in
      (
        record {
          tasks = omega arith;
          fits = f.fits (rw t.tasks a.fits);
          few = omega arith;
          no_error = f.errors ∙ t.errors ∙ a.no_error;
        },
        lengths,
      )

  -- Alone, with more fuel than leaves in the queue and no error recorded, `wait_until_idle`
  -- returns: it processes batches of the oldest leaves in order, up to the first error, and without
  -- an error all leaves of the queue.
  pub wait_until_idle-IsDone :
      (fuel : ℕ) (s : ForgeannScheduler) (w : W)
      → length s.leaf_backlog < fuel
      → IsAlone s
      → IsDone s w (wait_until_idle process fuel s w)
  unfolding wait_until_idle try_help_from_backlog process_taken_leaf_batch run_batches concat
  wait_until_idle-IsDone zero s w h a = absurd (omega arith)
  wait_until_idle-IsDone (suc fuel) s w h a =
      let at = a.tasks in
      let af = a.fits in
      let aw = a.few in
      let checked : check_for_error s ≡ ok tt = check-ok s a.no_error in
      elim (backlog-cases s.leaf_backlog) [
        | inl empty ↦
            let lengths = ap length empty in
            let idle : (s.outstanding_leaf_tasks == 0) ≡ true = ground arith in
            record {
              end = s;
              batches = [];
              returns = rw (idle, checked) refl;
              left = [];
              in_order = empty;
              all_if_ok = λ w' r. refl;
            }
        | inr (q, rest, e) ↦
            let lengths = ap length e in
            let busy : (s.outstanding_leaf_tasks == 0) ≡ false = ground arith in
            let (leaves, s', taken, t, some_leaf, within) =
              try_take_queued_leaf_batch-BatchOf s q rest e in
            let f = finish_leaf_executions-Finished (length leaves) s' in
            let (a2, left) = IsAlone-after s s' _ leaves a t f in
            let helped : try_help_from_backlog process s w ≡ (
              finish_leaf_executions (length leaves) s',
              process leaves w >>= λ v. ok (some v),
            ) =
              rw (taken, try_help_from_backlog) refl in
            elim (Result-cases (process leaves w)) [
              | inl (w', good) ↦
                  let done =
                    wait_until_idle-IsDone fuel (finish_leaf_executions (length leaves) s') w'
                      (omega arith) a2 in
                  IsDone-after s s' _ leaves w w' _ t f good
                    (rw (busy, checked, helped, good, helped) done)
              | inr (e', bad) ↦
                  IsDone-failed s s' (finish_leaf_executions (length leaves) s') leaves w e' _ t bad
                    (rw (busy, checked, helped, bad, helped) refl)
            ]
      ]
