-- ===== src/Base/Thin.antt =====
-- A list with some of its elements left out.
use Prim.Native.Nat.{ℕ, zero, suc}
use mathlib.Core.List.{List, [], ◌∷◌, ◌++◌}
use isales_telephony.Base.Lists.{drop}

-- `xs` is `ys` with some elements left out.
pub data Thinned {ℓ} {A : Type ℓ} : List A → List A → Type ℓ where
  done : Thinned [] []
  leave : {xs ys : List A} (y : A) → Thinned xs ys → Thinned xs (y ∷ ys)
  take_it : {xs ys : List A} (y : A) → Thinned xs ys → Thinned (y ∷ xs) (y ∷ ys)

module _ {ℓ} {A : Type ℓ} where
  pub Thinned-refl : (xs : List A) → Thinned xs xs
  Thinned-refl [] = done
  Thinned-refl (x ∷ xs) = take_it x (Thinned-refl xs)

  pub Thinned-trans : {zs ys xs : List A} → Thinned xs ys → Thinned ys zs → Thinned xs zs
  Thinned-trans p done = p
  Thinned-trans p (leave z q) = leave z (Thinned-trans p q)
  Thinned-trans (leave _ p) (take_it z q) = leave z (Thinned-trans p q)
  Thinned-trans (take_it _ p) (take_it z q) = take_it z (Thinned-trans p q)

  pub Thinned-drop : (k : ℕ) (xs cs : List A) → Thinned (xs ++ drop k cs) (xs ++ cs)
  Thinned-drop k (x ∷ xs) cs = take_it x (Thinned-drop k xs cs)
  Thinned-drop zero [] cs = Thinned-refl cs
  Thinned-drop (suc k) [] [] = done
  Thinned-drop (suc k) [] (c ∷ cs) = leave c (Thinned-drop k [] cs)

  pub leave_last : {xs ys : List A} (c : A) → Thinned xs ys → Thinned xs (ys ++ c ∷ [])
  leave_last c done = leave c done
  leave_last c (leave y p) = leave y (leave_last c p)
  leave_last c (take_it y p) = take_it y (leave_last c p)

  pub take_last : {xs ys : List A} (c : A) → Thinned xs ys → Thinned (xs ++ c ∷ []) (ys ++ c ∷ [])
  take_last c done = take_it c done
  take_last c (leave y p) = leave y (take_last c p)
  take_last c (take_it y p) = take_it y (take_last c p)
