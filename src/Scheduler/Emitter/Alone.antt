-- ===== src/Scheduler/Emitter/Alone.antt =====
-- The emission of a leaf that does not wait for the backlog, of a thread that is alone with the queue.
use mathlib.Core.List.{append-nil}
use forge_ann.Prelude.{
  ◌⊎◌, ℕ, suc, ◌≤◌, ◌<◌, ◌≡◌, refl, sym, ap, ◌∙◌, false, ltb, Option, none, some, inl, inr,
  Bool-cases, List, [], ◌∷◌, ◌++◌, length, length-append, arith,
}
use forge_ann.Prelude.Results.{Result, ok, err, Result-cases, ◌>>=◌}
use forge_ann.Scheduler.{QueuedLeaf, ForgeannScheduler, make_queued_leaf, add_task, remove_task}
use forge_ann.Scheduler.Queue.{
  try_enqueue_queued_leaf, finish_leaf_executions, try_help_from_backlog,
}
use forge_ann.Scheduler.Queue.Batch.{try_take_queued_leaf_batch-BatchOf}
use forge_ann.Scheduler.Queue.Alone.{
  run_batches, concat, finish_leaf_executions-Finished, check-ok, backlog-cases,
}
use forge_ann.Scheduler.Emitter.Rounds.{
  SameQueue, maybe_spawn-SameQueue, maybe_spawn-same, help-of, enqueue_room, enqueue_full,
}
use forge_ann.Scheduler.Emitter.{
  maybe_spawn_leaf_drainer, after_enqueue, enqueue_or_help, emit_leaf_with_optional_dataset_wait,
}

module _ {W : Type 0} (process : List QueuedLeaf → W → Result ℕ W) where
  enqueue_or_help-room :
      (fuel : ℕ) (s : ForgeannScheduler) (q : QueuedLeaf) (w : W)
      → length s.leaf_backlog < s.backlog_capacity
      → (s' : ForgeannScheduler) × (enqueue_or_help process (suc fuel) false s q w
          ≡ some (s', ok w))
        × (s'.leaf_backlog ≡ s.leaf_backlog ++ (q ∷ []))
  unfolding enqueue_or_help after_enqueue
  enqueue_or_help-room fuel s q w h =
      let (s', tried, behind) = enqueue_room s q h in
      (
        maybe_spawn_leaf_drainer s',
        rw (tried, enqueue_or_help, tried) refl,
        (maybe_spawn-SameQueue s').0 ∙ behind,
      )

  module _ (fuel : ℕ) (s s1 fin : ForgeannScheduler) (q : QueuedLeaf) (w : W)
      (tried : try_enqueue_queued_leaf s q ≡ (s1, err q)) where
    -- A round in which a batch is processed in place of the leaf.
    round_good :
        (w' : W)
        → try_help_from_backlog process (maybe_spawn_leaf_drainer s1) w ≡ (fin, ok (some w'))
        → enqueue_or_help process (suc fuel) false s q w
          ≡ enqueue_or_help process fuel false fin q w'
    unfolding enqueue_or_help
    round_good w' helped = rw (tried, enqueue_or_help, tried, helped, tried, helped) refl

    -- A round in which that fails.
    round_bad :
        (e : ℕ)
        → try_help_from_backlog process (maybe_spawn_leaf_drainer s1) w ≡ (fin, err e)
        → enqueue_or_help process (suc fuel) false s q w ≡ some (fin, err e)
    unfolding enqueue_or_help
    round_bad e helped = rw (tried, enqueue_or_help, tried, helped, tried, helped) refl

  -- The emission has returned, after a batch if the queue was full and only then.
  pub record IsEmitted (s : ForgeannScheduler) (q : QueuedLeaf) (w : W)
      (o : Option (ForgeannScheduler × Result ℕ W)) : Type 0 where
    pub end : ForgeannScheduler
    pub batches : List (List QueuedLeaf)
    pub returns : o ≡ some (end, run_batches process batches w)
    pub left : List QueuedLeaf
    -- the batch is the oldest leaves in order
    pub in_order : s.leaf_backlog ≡ concat batches ++ left
    pub rounds :
        ((length s.leaf_backlog < s.backlog_capacity) × (batches ≡ []))
        ⊎ ((s.backlog_capacity ≤ length s.leaf_backlog)
            × ((leaves : List QueuedLeaf) × (batches ≡ leaves ∷ []) × (1 ≤ length leaves)))
    -- the leaf is behind what is left, or an error has ended the emission without it
    pub outcome :
        ((w' : W) × (run_batches process batches w ≡ ok w') × (end.leaf_backlog ≡ left ++ (q ∷ [])))
        ⊎ ((e : ℕ) × (run_batches process batches w ≡ err e) × (end.leaf_backlog ≡ left))
    pub bounded : length end.leaf_backlog ≤ s.backlog_capacity

  full-IsEmitted :
      (s : ForgeannScheduler) (q first : QueuedLeaf) (rest : List QueuedLeaf) (w : W)
      → s.leaf_backlog ≡ first ∷ rest
      → s.backlog_capacity ≤ length s.leaf_backlog
      → 1 ≤ s.backlog_capacity
      → length s.leaf_backlog ≤ s.backlog_capacity
      → IsEmitted s q w (enqueue_or_help process 2 false s q w)
  unfolding run_batches concat
  full-IsEmitted s q first rest w e h some_room fits =
      let tried = enqueue_full s q h in
      let spawned = maybe_spawn_leaf_drainer (remove_task (add_task s)) in
      let same : SameQueue s spawned = maybe_spawn-same s in
      let (leaves, s', taken, t, some_leaf, within) =
        try_take_queued_leaf_batch-BatchOf spawned first rest (same.0 ∙ e) in
      let f = finish_leaf_executions-Finished (length leaves) s' in
      let fin = finish_leaf_executions (length leaves) s' in
      let helped : try_help_from_backlog process spawned w
          ≡ (fin, process leaves w >>= λ v. ok (some v)) =
        help-of process spawned leaves s' w taken in
      let order = sym same.0 ∙ t.oldest ∙ ap (λ xs. leaves ++ xs) (sym f.backlog) in
      let caps = f.capacity ∙ t.capacity ∙ same.1 in
      let lens = ap length order ∙ length-append leaves _ in
      elim (Result-cases (process leaves w)) [
        | inl (w', good) ↦
            let (end, again, behind) = enqueue_or_help-room 0 fin q w' (omega arith) in
            record {
              end = end;
              batches = leaves ∷ [];
              returns =
                  round_good 1 s (remove_task (add_task s)) fin q w tried w'
                    (helped ∙ ap (λ r. (fin, r >>= λ v. ok (some v))) good)
                  ∙ again
                  ∙ ap (λ r. some (end, r >>= run_batches process [])) (sym good);
              left = fin.leaf_backlog;
              in_order = order ∙ ap (λ xs. xs ++ fin.leaf_backlog) (sym (append-nil leaves));
              rounds = inr (h, (leaves, refl, some_leaf));
              outcome = inl (w', ap (λ m. m >>= run_batches process []) good, behind);
              bounded =
                  let size = ap length behind ∙ length-append fin.leaf_backlog (q ∷ []) in
                  omega arith;
            }
        | inr (e', bad) ↦ record {
          end = finish_leaf_executions (length leaves) s';
          batches = leaves ∷ [];
          returns =
              round_bad 1 s (remove_task (add_task s)) fin q w tried e'
                (helped ∙ ap (λ r. (fin, r >>= λ v. ok (some v))) bad)
              ∙ ap (λ r. some (fin, r >>= run_batches process [])) (sym bad);
          left = fin.leaf_backlog;
          in_order = order ∙ ap (λ xs. xs ++ fin.leaf_backlog) (sym (append-nil leaves));
          rounds = inr (h, (leaves, refl, some_leaf));
          outcome = inr (e', ap (λ m. m >>= run_batches process []) bad, refl);
          bounded = omega arith;
        }
      ]

  room-IsEmitted :
      (s : ForgeannScheduler) (q : QueuedLeaf) (w : W)
      → length s.leaf_backlog < s.backlog_capacity
      → IsEmitted s q w (enqueue_or_help process 2 false s q w)
  unfolding run_batches concat
  room-IsEmitted s q w h =
      let (end, now, behind) = enqueue_or_help-room 1 s q w h in
      record {
        end = end;
        batches = [];
        returns = now;
        left = s.leaf_backlog;
        in_order = refl;
        rounds = inl (h, refl);
        outcome = inl (w, refl, behind);
        bounded =
            let size = ap length behind ∙ length-append s.leaf_backlog (q ∷ []) in omega arith;
      }

  some_leaf_of :
      (s : ForgeannScheduler)
      → 1 ≤ length s.leaf_backlog
      → (q : QueuedLeaf) × (rest : List QueuedLeaf) × (s.leaf_backlog ≡ q ∷ rest)
  some_leaf_of s h = elim (backlog-cases s.leaf_backlog) [
    | inl empty ↦ let lens = ap length empty in absurd (omega arith)
    | inr found ↦ found
  ]

  -- Alone, with a queue of positive capacity that holds no more than that, and no error recorded:
  -- the emission of a leaf that does not wait for the backlog returns in two rounds at most. With
  -- room no batch is processed; without, exactly one, of the oldest leaves, at least one. Then the
  -- leaf is at the end of the queue, unless the batch failed: its error ends the emission, and the
  -- leaf is not in the queue. The queue holds no more than its capacity.
  pub emit_leaf-IsEmitted :
      (s : ForgeannScheduler) (leaf : List ℕ) (dataset : Option ℕ) (w : W)
      → s.first_error ≡ none
      → 1 ≤ s.backlog_capacity
      → length s.leaf_backlog ≤ s.backlog_capacity
      → IsEmitted s
          (make_queued_leaf s.work_graph leaf dataset)
          w
          (emit_leaf_with_optional_dataset_wait process 2 s leaf dataset false w)
  unfolding emit_leaf_with_optional_dataset_wait
  emit_leaf-IsEmitted s leaf dataset w no_error positive fits =
      let q = make_queued_leaf s.work_graph leaf dataset in
      let checked = check-ok s no_error in
      elim (Bool-cases (ltb (length s.leaf_backlog) s.backlog_capacity)) [
        | inl room ↦
            rw (checked, emit_leaf_with_optional_dataset_wait) (room-IsEmitted s q w (ground arith))
        | inr full ↦
            let h : s.backlog_capacity ≤ length s.leaf_backlog = ground arith in
            let (first, rest, e) = some_leaf_of s (omega arith) in
            rw (checked, emit_leaf_with_optional_dataset_wait)
              (full-IsEmitted s q first rest w e h positive fits)
      ]
