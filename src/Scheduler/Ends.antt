-- ===== src/Scheduler/Ends.antt =====
-- The two ends of the queue of leaves: what a push and a pop change.
use forge_ann.Prelude.{◌≡◌, refl, sym, ap, ◌∙◌, some, none, List, [], ◌∷◌, ◌++◌, arith}
use forge_ann.Scheduler.{QueuedLeaf, ForgeannScheduler, push_leaf, pop_leaf}
use mathlib.Core.Option.{some-injective, none-ne-some}

-- What a push that is accepted changes.
pub push_leaf-some :
    (s : ForgeannScheduler) (q : QueuedLeaf) {s' : ForgeannScheduler}
    → push_leaf s q ≡ some s'
    → s' ≡ record s { leaf_backlog = s.leaf_backlog ++ (q ∷ []) }
unfolding push_leaf
push_leaf-some s q e = ground arith

-- The pop of a queue that is known.
pub pop_leaf-at :
    (s : ForgeannScheduler) (q : QueuedLeaf) (rest : List QueuedLeaf)
    → s.leaf_backlog ≡ q ∷ rest
    → pop_leaf s ≡ some (q, record s { leaf_backlog = rest })
unfolding pop_leaf
pop_leaf-at s q rest e = rw e refl

pop_leaf-cases :
    (s : ForgeannScheduler) {q : QueuedLeaf} {s' : ForgeannScheduler} (backlog : List QueuedLeaf)
    → s.leaf_backlog ≡ backlog
    → pop_leaf s ≡ some (q, s')
    → (rest : List QueuedLeaf) × (s.leaf_backlog ≡ q ∷ rest)
      × (s' ≡ record s { leaf_backlog = rest })
unfolding pop_leaf
pop_leaf-cases s [] e f =
    let none_left : pop_leaf s ≡ none = rw e refl in absurd (none-ne-some _ (sym none_left ∙ f))
pop_leaf-cases s (q ∷ rest) e f =
    let g = some-injective _ _ (sym f ∙ pop_leaf-at s q rest e) in
    (rest, e ∙ ap (λ (x : QueuedLeaf). x ∷ rest) (sym (ap (λ t. t.0) g)), ap (λ t. t.1) g)

-- What a pop that gives a leaf changes.
pub pop_leaf-some :
    (s : ForgeannScheduler) {q : QueuedLeaf} {s' : ForgeannScheduler}
    → pop_leaf s ≡ some (q, s')
    → (rest : List QueuedLeaf) × (s.leaf_backlog ≡ q ∷ rest)
      × (s' ≡ record s { leaf_backlog = rest })
pop_leaf-some s e = pop_leaf-cases s s.leaf_backlog refl e
