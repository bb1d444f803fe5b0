-- ===== src/EnvFile/Values.antt =====
-- What the validation of env_writer.py says of a token and of an endpoint.
use isales_telephony.Base.{
  clash, ℕ, ◌≡◌, refl, Bool, true, false, none, some, [], ◌∷◌, ltb, ◌==◌, ==_iff, ◌&&◌, ◌||◌, not,
  if◌then◌else◌, some_of, Text, codes, strip, is_blank, first_is, last_is, prefix_of, drop, arith,
  Bool-cases, inl, inr, length,
}
use isales_telephony.EnvFile.{
  is_space, is_break, is_quote, is_quoted, is_token_character, validate_token, is_host_character,
  is_port, is_host, is_endpoint, validate_endpoint, EnvFileError, token_empty, token_too_short,
  token_too_long, token_characters, endpoint_empty, endpoint_form,
}
use isales_telephony.EnvFile.Lines.{IsValue, some_of-none}

-- A character that is a blank, a line end or a quote.
abbrev pub is_unsafe : ℕ → Bool
is_unsafe c = is_space c || (is_break c || (is_quote 34 c || is_quote 39 c))

or_parts :
    (a b c d : Bool)
    → (a || (b || (c || d))) ≡ false
    → (a ≡ false) × (b ≡ false) × (c ≡ false) × (d ≡ false)
or_parts false false false false h = (refl, refl, refl, refl)
or_parts true b c d h = ground arith
or_parts false true c d h = ground arith
or_parts false false true d h = ground arith
or_parts false false false true h = ground arith

-- what no character of a text is, none of it is anywhere
module _ (p q : ℕ → Bool) (weaker : (c : ℕ) → p c ≡ false → q c ≡ false) where
  first_is-none : (s : Text) → some_of p s ≡ false → first_is q s ≡ false
  first_is-none [] h = refl
  first_is-none (c ∷ s) h = weaker c (some_of-none p c s h).0

  last_is-none : (s : Text) → some_of p s ≡ false → last_is q s ≡ false
  last_is-none [] h = refl
  last_is-none (c ∷ []) h = weaker c (some_of-none p c [] h).0
  last_is-none (c ∷ d ∷ s) h = last_is-none (d ∷ s) (some_of-none p c (d ∷ s) h).1

  some_of-weaker : (s : Text) → some_of p s ≡ false → some_of q s ≡ false
  some_of-weaker [] h = refl
  some_of-weaker (c ∷ s) h =
      let parts = some_of-none p c s h in rw (weaker c parts.0) (some_of-weaker s parts.1)

unsafe_parts :
    (c : ℕ)
    → is_unsafe c ≡ false
    → (is_space c ≡ false)
      × (is_break c ≡ false)
      × (is_quote 34 c ≡ false)
      × (is_quote 39 c ≡ false)
unsafe_parts c h = or_parts (is_space c) (is_break c) (is_quote 34 c) (is_quote 39 c) h

safe-IsValue : (v : Text) → some_of is_unsafe v ≡ false → IsValue v
unfolding is_quoted
safe-IsValue v h = record {
  starts = first_is-none is_unsafe is_space (λ c u. (unsafe_parts c u).0) v h;
  ends = last_is-none is_unsafe is_space (λ c u. (unsafe_parts c u).0) v h;
  on_line = some_of-weaker is_unsafe is_break (λ c u. (unsafe_parts c u).1) v h;
  unquoted =
      rw
        (
          first_is-none is_unsafe (is_quote 34) (λ c u. (unsafe_parts c u).2) v h,
          first_is-none is_unsafe (is_quote 39) (λ c u. (unsafe_parts c u).3) v h,
        )
        refl;
}

token_character-safe : (c : ℕ) → not (is_token_character c) ≡ false → is_unsafe c ≡ false
token_character-safe c h = ground arith

host_character-safe : (c : ℕ) → is_host_character c ≡ true → is_unsafe c ≡ false
host_character-safe c h = ground arith

some≢none : (e : EnvFileError) → some e ≡ none → ⊥
some≢none e h = ground arith

-- no test of a chain answers
last_test :
    (e f g i : EnvFileError) (a b c d : Bool)
    → (if a then some e else if b then some f else if c then some g else if d then some i else none)
      ≡ none
    → d ≡ false
last_test e f g i true b c d h = absurd (some≢none e h)
last_test e f g i false true c d h = absurd (some≢none f h)
last_test e f g i false false true d h = absurd (some≢none g h)
last_test e f g i false false false true h = absurd (some≢none i h)
last_test e f g i false false false false h = refl

and_right : (a b : Bool) → (a && b) ≡ true → b ≡ true
and_right a b h = ground (arith, h)

and_left : (a b : Bool) → (a && b) ≡ true → a ≡ true
and_left a b h = ground (arith, h)

not-true : (a : Bool) → not a ≡ true → a ≡ false
not-true a h = ground (arith, h)

not-false : (a : Bool) → not a ≡ false → a ≡ true
not-false a h = ground (arith, h)

-- a token that passes is a value that a line gives back
pub validate_token-IsValue :
    (token : Text) → validate_token token ≡ none → IsValue (strip is_space token)
unfolding validate_token
validate_token-IsValue token h = safe-IsValue (strip is_space token) (
    some_of-weaker (λ c. not (is_token_character c)) is_unsafe token_character-safe
      (strip is_space token)
      (last_test token_empty token_too_short token_too_long token_characters
        (is_blank (strip is_space token)) (ltb (length (strip is_space token)) 16)
        (ltb 512 (length (strip is_space token)))
        (some_of (λ c. not (is_token_character c)) (strip is_space token)) h))

-- The class `\d` has no blank, line end or quote.
abbrev pub IsDecimal : (ℕ → Bool) → Type 0
IsDecimal is_decimal = (c : ℕ) → is_decimal c ≡ true → is_unsafe c ≡ false

is_port-safe :
    (is_decimal : ℕ → Bool) (s : Text)
    → IsDecimal is_decimal
    → is_port is_decimal s ≡ true
    → some_of is_unsafe s ≡ false
unfolding is_port
is_port-safe is_decimal [] d h = refl
is_port-safe is_decimal (c ∷ digits) d h =
    let colon : c ≡ 58 = (==_iff c 58).0 (and_left (c == 58) _ h) in
    let decimals : some_of (λ x. not (is_decimal x)) digits ≡ false =
      not-true (some_of (λ x. not (is_decimal x)) digits) (
        and_right (ltb (length digits) 6) _
          (and_right (not (is_blank digits)) _ (and_right (c == 58) _ h))) in
    rw colon (
      some_of-weaker (λ x. not (is_decimal x)) is_unsafe (λ x u. d x (not-false (is_decimal x) u))
        digits decimals)

is_host-safe :
    (is_decimal : ℕ → Bool) (seen : Bool) (s : Text)
    → IsDecimal is_decimal
    → is_host is_decimal seen s ≡ true
    → some_of is_unsafe s ≡ false
unfolding is_host
is_host-safe is_decimal seen [] d h = refl
is_host-safe is_decimal seen (c ∷ s) d h = elim (Bool-cases (is_host_character c)) [
  | inl o ↦ rw (host_character-safe c o) (is_host-safe is_decimal true s d (rw o at h))
  | inr o ↦ is_port-safe is_decimal (c ∷ s) d (and_right seen _ (rw o at h))
]

or_none :
    (a b : Bool) (e f : EnvFileError)
    → (if a then some e else if b then none else some f) ≡ none
    → b ≡ true
or_none true b e f h = absurd (some≢none e h)
or_none false true e f h = refl
or_none false false e f h = absurd (some≢none f h)

prefix-safe :
    (p s : Text)
    → prefix_of p s ≡ true
    → some_of is_unsafe p ≡ false
    → some_of is_unsafe (drop (length p) s) ≡ false
    → some_of is_unsafe s ≡ false
prefix-safe [] s h k l = l
prefix-safe (a ∷ p) [] h k l = refl
prefix-safe (a ∷ p) (b ∷ s) h k l = elim (Bool-cases (a == b)) [
  | inl o ↦
      let parts = some_of-none is_unsafe a p k in
      rw (← (==_iff a b).0 o, parts.0) (prefix-safe p s (rw o at h) parts.1 l)
  | inr o ↦ absurd (clash (if a == b then prefix_of p s else false) h (rw o refl))
]

is_endpoint-safe :
    (is_decimal : ℕ → Bool) (e : Text)
    → IsDecimal is_decimal
    → is_endpoint is_decimal e ≡ true
    → some_of is_unsafe e ≡ false
unfolding is_endpoint
is_endpoint-safe is_decimal e d h = elim (Bool-cases (prefix_of (codes "grpc://") e)) [
  | inl o ↦
      prefix-safe (codes "grpc://") e o refl
        (is_host-safe is_decimal false (drop 7 e) d (rw o at h))
  | inr o ↦ elim (Bool-cases (prefix_of (codes "grpcs://") e)) [
    | inl q ↦
        prefix-safe (codes "grpcs://") e q refl
          (is_host-safe is_decimal false (drop 8 e) d (rw (o, q) at h))
    | inr q ↦ is_host-safe is_decimal false e d (rw (o, q) at h)
  ]
]

-- an endpoint that passes is a value that a line gives back
pub validate_endpoint-IsValue :
    (is_decimal : ℕ → Bool) (endpoint : Text)
    → IsDecimal is_decimal
    → validate_endpoint is_decimal endpoint ≡ none
    → IsValue (strip is_space endpoint)
unfolding validate_endpoint
validate_endpoint-IsValue is_decimal endpoint d h = safe-IsValue (strip is_space endpoint) (
    is_endpoint-safe is_decimal (strip is_space endpoint) d (
      or_none (is_blank (strip is_space endpoint))
        (is_endpoint is_decimal (strip is_space endpoint)) endpoint_empty endpoint_form h))
