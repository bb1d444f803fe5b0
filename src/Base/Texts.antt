-- ===== src/Base/Texts.antt =====
-- Texts as lists of code points, with the methods of Python's `str` that the program calls.
use Prim.Native.Nat.{ℕ, ◌-◌}
use Prim.Native.Char.{code}
use Prim.Native.String.{String}
use mathlib.Core.Path.{◌≡◌, refl, ap}
use mathlib.Core.Bool.{Bool, true, false, ◌&&◌}
use mathlib.Core.List.{List, [], ◌∷◌, ◌++◌}
use isales_telephony.Base.Tests.{leb, ◌==◌, ==_iff, clash, if◌then◌else◌, Bool-cases}
use native.Mathlib.Omega.{arith}
use mathlib.Core.Logic.{inl, inr}

abbrev pub Text : Type 0
Text = List ℕ

-- The code points of a literal.
abbrev pub codes : String → Text
codes String.[] = []
codes (String.◌∷◌ c s) = code c ∷ codes s

abbrev pub text_eq : Text → Text → Bool
text_eq [] [] = true
text_eq [] (_ ∷ _) = false
text_eq (_ ∷ _) [] = false
text_eq (a ∷ s) (b ∷ t) = let rest = text_eq s t in if a == b then rest else false

-- s.startswith(p), the prefix first
abbrev pub prefix_of : Text → Text → Bool
prefix_of [] s = true
prefix_of (_ ∷ _) [] = false
prefix_of (a ∷ p) (b ∷ s) = let rest = prefix_of p s in if a == b then rest else false

-- token in s
abbrev pub contains : Text → Text → Bool
contains p [] = prefix_of p []
contains p (a ∷ s) = let rest = contains p s in if prefix_of p (a ∷ s) then true else rest

-- one character of s.upper(), for ASCII
abbrev pub to_upper : ℕ → ℕ
to_upper c = if leb 97 c && leb c 122 then c - 32 else c

-- s.lstrip(chars)
abbrev pub lstrip : (ℕ → Bool) → Text → Text
lstrip drops [] = []
lstrip drops (a ∷ s) = let rest = lstrip drops s in if drops a then rest else a ∷ s

abbrev pub is_blank : Text → Bool
is_blank [] = true
is_blank (_ ∷ _) = false

-- s.rstrip(chars)
abbrev pub rstrip : (ℕ → Bool) → Text → Text
rstrip drops [] = []
rstrip drops (a ∷ s) =
    let rest = rstrip drops s in if drops a && is_blank rest then [] else a ∷ rest

-- s.strip(chars)
abbrev pub strip : (ℕ → Bool) → Text → Text
strip drops s = rstrip drops (lstrip drops s)

-- Is the first or the last character one of these?
abbrev pub first_is : (ℕ → Bool) → Text → Bool
first_is p [] = false
first_is p (a ∷ s) = p a

abbrev pub last_is : (ℕ → Bool) → Text → Bool
last_is p [] = false
last_is p (a ∷ []) = p a
last_is p (a ∷ b ∷ s) = last_is p (b ∷ s)

lstrip_id : (p : ℕ → Bool) (s : Text) → first_is p s ≡ false → lstrip p s ≡ s
lstrip_id p [] h = refl
lstrip_id p (a ∷ s) h = rw h refl

last_is-later : (p : ℕ → Bool) (a : ℕ) (s : Text) → last_is p (a ∷ s) ≡ false → last_is p s ≡ false
last_is-later p a [] h = refl
last_is-later p a (b ∷ s) h = h

rstrip_id : (p : ℕ → Bool) (s : Text) → last_is p s ≡ false → rstrip p s ≡ s
rstrip_id p [] h = refl
rstrip_id p (a ∷ []) h = rw h refl
rstrip_id p (a ∷ b ∷ s) h = rw (rstrip_id p (b ∷ s) h) (ground arith)

-- A text without such characters at its ends.
pub strip_id :
    (p : ℕ → Bool) (s : Text) → first_is p s ≡ false → last_is p s ≡ false → strip p s ≡ s
strip_id p s h k = rw (lstrip_id p s h) (rstrip_id p s k)

pub last_is-append :
    (p : ℕ → Bool) (s t : Text) (c : ℕ) → last_is p (s ++ c ∷ t) ≡ last_is p (c ∷ t)
last_is-append p [] t c = refl
last_is-append p (a ∷ []) t c = refl
last_is-append p (a ∷ b ∷ s) t c = last_is-append p (b ∷ s) t c

pub text_eq-eq : (s t : Text) → text_eq s t ≡ true → s ≡ t
text_eq-eq [] [] h = refl
text_eq-eq [] (b ∷ t) h = ground arith
text_eq-eq (a ∷ s) [] h = ground arith
text_eq-eq (a ∷ s) (b ∷ t) h = elim (Bool-cases (a == b)) [
  | inl o ↦ rw ((==_iff a b).0 o) (ap (λ l. b ∷ l) (text_eq-eq s t (rw o at h)))
  | inr o ↦ absurd (clash (if a == b then text_eq s t else false) h (rw o refl))
]

pub text_eq_refl : (s : Text) → text_eq s s ≡ true
text_eq_refl [] = refl
text_eq_refl (a ∷ s) = rw ((==_iff a a).1 refl) (text_eq_refl s)

-- A text that contains a longer token contains its first character.
pub contains_head :
    (a b : ℕ) (p s : Text) → contains (a ∷ b ∷ p) s ≡ true → contains (a ∷ []) s ≡ true
contains_head a b p [] h = h
contains_head a b p (c ∷ s) h = elim (Bool-cases (a == c)) [
  | inl o ↦ rw o refl
  | inr o ↦ rw o (contains_head a b p s (rw o at h))
]

contains_prefix : (p s : Text) → prefix_of p s ≡ true → contains p s ≡ true
contains_prefix p [] h = h
contains_prefix p (c ∷ s) h = rw h refl

contains_later :
    (a c : ℕ) (s : Text) → contains (a ∷ []) s ≡ true → contains (a ∷ []) (c ∷ s) ≡ true
contains_later a c s h = elim (Bool-cases (a == c)) [ inl o ↦ rw o refl | inr o ↦ rw o h ]

-- A text that contains two characters in a row contains the second.
pub contains_second :
    (a b : ℕ) (s : Text) → contains (a ∷ b ∷ []) s ≡ true → contains (b ∷ []) s ≡ true
contains_second a b [] h = h
contains_second a b (c ∷ s) h =
    let ih = contains_second a b s in
    contains_later b c s (elim (Bool-cases (a == c)) [
      | inr o ↦ ih (rw o at h)
      | inl o ↦ elim (Bool-cases (prefix_of (b ∷ []) s)) [
        | inl q ↦ contains_prefix (b ∷ []) s q
        | inr q ↦ ih (rw (o, q) at h)
      ]
    ])
