-- ===== src/Drivers/Causes.antt =====
-- Which causes `_classify_dial_failure` of drivers.py gives.
use Prim.Native.String.{String}
use isales_telephony.Base.{
  ◌≡◌, refl, Bool, true, false, List, [], ◌∷◌, map, arith, inl, inr, Bool-cases, Text, codes,
  contains, contains_head, contains_second, to_upper, All, drop, if◌then◌else◌,
}
use isales_telephony.Drivers.{
  Cause, user_hangup, user_busy, no_answer, network_out_of_order, call_rejected, first_cause,
  classify_dial_failure, hangup_cause_map,
}

abbrev pub has : String → Text → Bool
has token message = contains (codes token) (map to_upper message)

-- The map as it works: the rows that can be reached, by what the message contains.
unfoldable pub reached_cause : Text → Cause
reached_cause message =
    if has "NO CARRIER" message
    then user_hangup
    else if has "BUSY" message
    then user_busy
    else if has "NO ANSWER" message
    then no_answer
    else if has "NO DIALTONE" message
    then network_out_of_order
    else if has "1" message
    then call_rejected
    else network_out_of_order

abbrev Row : Type 0
Row = Text × Cause

-- rows whose tokens are not in the message, or that give the default
skipped :
    (upper : Text) (rows : List Row)
    → All (λ (r : Row). contains (r.0) upper ≡ true → r.1 ≡ network_out_of_order) rows
    → first_cause upper rows ≡ network_out_of_order
unfolding first_cause
skipped upper [] h = refl
skipped upper (r ∷ rows) h = elim (Bool-cases (contains (r.0) upper)) [
  | inl o ↦ rw o (h.0 o)
  | inr o ↦ rw o (skipped upper rows (h.1))
]

-- the map behind the token "1"
abbrev behind_one : List Row
behind_one = drop 5 hangup_cause_map

no_one :
    (upper : Text)
    → contains (codes "1") upper ≡ false
    → first_cause upper behind_one ≡ network_out_of_order
no_one upper absent = skipped upper behind_one (
  λ q. clash (contains_head 49 54 [] upper q),
  (
    λ q. clash (contains_head 49 55 [] upper q),
    (
      λ q. clash (contains_head 49 56 [] upper q),
      (
        λ q. clash (contains_head 49 57 [] upper q),
        (
          λ _. refl,
          (λ _. refl, (λ _. refl, (λ _. refl, (λ q. clash (contains_second 52 49 upper q), (tt))))),
        ),
      ),
    ),
  ),
)
  where
    clash : {c d : Cause} → contains (codes "1") upper ≡ true → c ≡ d
    clash q = ground (arith, absent)

-- Whatever the message, `_classify_dial_failure` gives what a map of five tokens gives: the rows
-- behind the token "1" change nothing.
pub classify_dial_failure-eq :
    (message : Text) → classify_dial_failure message ≡ reached_cause message
unfolding classify_dial_failure reached_cause first_cause
classify_dial_failure-eq message = elim (Bool-cases (has "1" message)) [
  | inl o ↦ simp o refl
  | inr o ↦ rw (no_one (map to_upper message) o, o) refl
]
