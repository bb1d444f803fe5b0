-- ===== src/Base/Dicts.antt =====
-- Python's `dict` as an association list: the entries in order of insertion, one for each key. A key
-- that is only compared is a number.
use Prim.Native.Nat.{ℕ}
use mathlib.Core.Path.{◌≡◌, refl}
use mathlib.Core.Logic.{inl, inr}
use mathlib.Core.Option.{Option, none, some}
use mathlib.Core.List.{List, [], ◌∷◌}
use native.Mathlib.Omega.{arith}
use isales_telephony.Base.Tests.{◌==◌, if◌then◌else◌, Bool-cases, ==_iff}

module _ {V : Type 0} where
  -- d.get(k)
  abbrev pub dict_get : ℕ → List (ℕ × V) → Option V
  dict_get k [] = none
  dict_get k ((j, v) ∷ d) = if j == k then some v else dict_get k d

  -- d[k] = v
  abbrev pub dict_set : ℕ → V → List (ℕ × V) → List (ℕ × V)
  dict_set k v [] = (k, v) ∷ []
  dict_set k v ((j, w) ∷ d) =
      let rest = dict_set k v d in if j == k then (k, v) ∷ d else (j, w) ∷ rest

  -- d.pop(k, None)
  abbrev pub dict_pop : ℕ → List (ℕ × V) → List (ℕ × V)
  dict_pop k [] = []
  dict_pop k ((j, w) ∷ d) = let rest = dict_pop k d in if j == k then rest else (j, w) ∷ rest

  -- No key stands twice.
  abbrev pub IsDict : List (ℕ × V) → Type 0
  IsDict [] = Unit
  IsDict ((k, v) ∷ d) = (dict_get k d ≡ none) × IsDict d

  pub dict_get-set :
      (k j : ℕ) (v : V) (d : List (ℕ × V))
      → dict_get k (dict_set j v d) ≡ (if j == k then some v else dict_get k d)
  dict_get-set k j v [] = refl
  dict_get-set k j v ((i, w) ∷ d) = ground (arith, dict_get-set k j v d)

  pub dict_get-pop :
      (k j : ℕ) (d : List (ℕ × V))
      → dict_get k (dict_pop j d) ≡ (if j == k then none else dict_get k d)
  dict_get-pop k j [] = ground arith
  dict_get-pop k j ((i, w) ∷ d) = ground (arith, dict_get-pop k j d)

  pub dict_set-IsDict : (j : ℕ) (v : V) (d : List (ℕ × V)) → IsDict d → IsDict (dict_set j v d)
  dict_set-IsDict j v [] h = (refl, tt)
  dict_set-IsDict j v ((i, w) ∷ d) (h, hs) = elim (Bool-cases (i == j)) [
    | inl o ↦ rw o (rw ((==_iff i j).0 o) at h, hs)
    | inr o ↦ rw o (ground (arith, dict_get-set i j v d), dict_set-IsDict j v d hs)
  ]
