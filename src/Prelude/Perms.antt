-- ===== src/Prelude/Perms.antt =====
-- Permutations of lists, for what holds of all elements.
use mathlib.Core.Logic.{∥∥₁_elim}
use mathlib.Core.Path.{subst}
use mathlib.Core.List.{List, [], ◌∷◌, Perm, Permᴰ}
use forge_ann.Prelude.Lists.{All}

module _ {ℓ} {A : Type ℓ} (P : A → Type 0) (prop : (a : A) → IsProp (P a)) where
  All-IsProp : (xs : List A) → IsProp (All P xs)
  All-IsProp [] = hlevel
  All-IsProp (x ∷ xs) = let here = prop x in let there = All-IsProp xs in hlevel

  All-data : {xs ys : List A} → Permᴰ xs ys → All P xs → All P ys
  All-data Permᴰ.nil a = a
  All-data (Permᴰ.cons e d) (p, a) = (subst P e p, All-data d a)
  All-data (Permᴰ.swap e f) (p, (q, a)) = (subst P f q, (subst P e p, a))
  All-data (Permᴰ.trans d e) a = All-data e (All-data d a)

  pub All-perm : {xs ys : List A} → Perm xs ys → All P xs → All P ys
  All-perm {xs} {ys} p a = ∥∥₁_elim p (All-IsProp ys) (λ d. All-data d a)
