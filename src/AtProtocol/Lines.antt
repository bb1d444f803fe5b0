-- ===== src/AtProtocol/Lines.antt =====
-- What a line of the modem is to serial_protocol.py, written out: a final line, an unsolicited one, or
-- a line of a response.
use isales_telephony.Base.{
  ◌≡◌, ◌≢◌, refl, sym, ap, ◌∙◌, subst, Bool, true, false, Option, none, some, List, [], ◌∷◌, ◌++◌,
  ◌==◌, ◌||◌, ◌⊎◌, inl, inr, Bool-cases, if-cases, if◌then◌else◌, clash, arith, All, length, drop,
  Text, codes, text_eq, prefix_of, lstrip, text_eq-eq, text_eq_refl, ==_iff,
}
use isales_telephony.AtProtocol.{
  UrcType, ring, no_carrier, busy, no_dialtone, no_answer, clip, creg, cmti, other, urc_patterns,
  is_urc, first_urc, classify_urc, CommandError, Kind, final, urc, body, urc_or_body, classify,
}

-- The line starts with the word.
abbrev pub Starts : Text → Text → Type 0
Starts word line = (rest : Text) × (line ≡ word ++ rest)

-- The line is the word, or has a colon or a space behind it.
abbrev pub NamedBy : Text → Text → Type 0
NamedBy line word =
    (line ≡ word) ⊎ (Starts (word ++ codes ":") line ⊎ Starts (word ++ codes " ") line)

-- the word of an unsolicited line
abbrev pub word_of : UrcType → Option Text
word_of ring = some (codes "RING")
word_of no_carrier = some (codes "NO CARRIER")
word_of busy = some (codes "BUSY")
word_of no_dialtone = some (codes "NO DIALTONE")
word_of no_answer = some (codes "NO ANSWER")
word_of clip = some (codes "+CLIP")
word_of creg = some (codes "+CREG")
word_of cmti = some (codes "+CMTI")
word_of other = none

abbrev pub NamedAs : Text → Option Text → Type 0
NamedAs line none = ⊥
NamedAs line (some word) = NamedBy line word

abbrev pub IsUrc : Text → UrcType → Type 0
IsUrc line type = NamedAs line (word_of type)

-- The line starts with the code, and the error has what follows, less its colons and spaces.
abbrev pub IsCoded : Text → Text → CommandError → Type 0
IsCoded code line e =
    (rest : Text) × (line ≡ code ++ rest)
    × (e ≡ record { final = code; detail = lstrip (λ c. (c == 58) || (c == 32)) rest })

-- The line ends a command, with success or with an error.
abbrev pub IsFinal : Text → Bool → Option CommandError → Type 0
IsFinal line true none = line ≡ codes "OK"
IsFinal line true (some e) = ⊥
IsFinal line false none = ⊥
IsFinal line false (some e) =
    ((line ≡ codes "ERROR") × (e ≡ record { final = codes "ERROR"; detail = [] }))
    ⊎ (IsCoded (codes "+CME ERROR") line e ⊎ IsCoded (codes "+CMS ERROR") line e)

-- The line is neither final nor unsolicited.
abbrev pub IsBody : Text → Type 0
IsBody line =
    (line ≢ codes "OK")
    × (line ≢ codes "ERROR")
    × (¬ Starts (codes "+CME ERROR") line)
    × (¬ Starts (codes "+CMS ERROR") line)
    × ((type : UrcType) → ¬ IsUrc line type)

abbrev pub IsKind : Text → Kind → Type 0
IsKind line (final is_ok error) = IsFinal line is_ok error
IsKind line (urc type) = IsUrc line type
IsKind line body = IsBody line

prefix-Starts : (p s : Text) → prefix_of p s ≡ true → Starts p s
prefix-Starts [] s h = (s, refl)
prefix-Starts (a ∷ p) [] h = cc
prefix-Starts (a ∷ p) (b ∷ s) h = elim (Bool-cases (a == b)) [
  | inl o ↦
      let r = prefix-Starts p s (rw o at h) in (r.0, rw ((==_iff a b).0 o) (ap (λ l. b ∷ l) r.1))
  | inr o ↦ absurd (clash (if a == b then prefix_of p s else false) h (rw o refl))
]

prefix_append : (p rest : Text) → prefix_of p (p ++ rest) ≡ true
prefix_append [] rest = refl
prefix_append (a ∷ p) rest = rw ((==_iff a a).1 refl) (prefix_append p rest)

not_prefix : (p s : Text) → prefix_of p s ≡ false → ¬ Starts p s
not_prefix p s h (rest, e) = clash (prefix_of p s) (rw e (prefix_append p rest)) h

not_equal : (s t : Text) → text_eq s t ≡ false → s ≢ t
not_equal s t h e = clash (text_eq s t) (rw e (text_eq_refl t)) h

drop-append : (xs ys : Text) → drop (length xs) (xs ++ ys) ≡ ys
drop-append [] ys = refl
drop-append (x ∷ xs) ys = drop-append xs ys

named : (line word : Text) → is_urc line word ≡ true → NamedBy line word
named line word h = elim (Bool-cases (text_eq line word)) [
  | inl o ↦ inl (text_eq-eq line word o)
  | inr o ↦ elim (Bool-cases (prefix_of (word ++ codes ":") line)) [
    | inl p ↦ inr (inl (prefix-Starts (word ++ codes ":") line p))
    | inr p ↦ inr (inr (prefix-Starts (word ++ codes " ") line (rw (o, p) at h)))
  ]
]

unnamed : (line word : Text) → is_urc line word ≡ false → ¬ NamedBy line word
unnamed line word h (inl e) = not_equal line word (first_false _ _ _ h) e
  where
    first_false : (a b c : Bool) → (a || b || c) ≡ false → a ≡ false
    first_false a b c q = ground (arith, q)
unnamed line word h (inr (inl s)) =
    not_prefix (word ++ codes ":") line (second_false (text_eq line word) _ _ h) s
  where
    second_false : (a b c : Bool) → (a || b || c) ≡ false → b ≡ false
    second_false a b c q = ground (arith, q)
unnamed line word h (inr (inr s)) =
    not_prefix (word ++ codes " ") line
      (third_false (text_eq line word) (prefix_of (word ++ codes ":") line) _ h) s
  where
    third_false : (a b c : Bool) → (a || b || c) ≡ false → c ≡ false
    third_false a b c q = ground (arith, q)

-- what a search of the table says of the line
abbrev Found : Text → List (Text × UrcType) → Option UrcType → Type 0
Found line rows none = All (λ r. ¬ NamedBy line r.0) rows
Found line rows (some type) = IsUrc line type

first_urc-Found :
    (line : Text) (rows : List (Text × UrcType))
    → All (λ r. word_of r.1 ≡ some r.0) rows
    → Found line rows (first_urc line rows)
unfolding first_urc
first_urc-Found line [] h = tt
first_urc-Found line ((word, type) ∷ rows) (e, h) = elim (Bool-cases (is_urc line word)) [
  | inl o ↦ rw o (subst (NamedAs line) (sym e) (named line word o))
  | inr o ↦ rw o (later o (first_urc line rows) (first_urc-Found line rows h))
]
  where
    later :
        is_urc line word ≡ false
        → (found : Option UrcType) → Found line rows found
        → Found line ((word, type) ∷ rows) found
    later o none n = (unnamed line word o, n)
    later o (some t) n = n

no_urc : (line : Text) → Found line urc_patterns none → (type : UrcType) → ¬ IsUrc line type
no_urc line (r, (n, (b, (d, (a, (l, (g, (m, _)))))))) ring u = r u
no_urc line (r, (n, (b, (d, (a, (l, (g, (m, _)))))))) no_carrier u = n u
no_urc line (r, (n, (b, (d, (a, (l, (g, (m, _)))))))) busy u = b u
no_urc line (r, (n, (b, (d, (a, (l, (g, (m, _)))))))) no_dialtone u = d u
no_urc line (r, (n, (b, (d, (a, (l, (g, (m, _)))))))) no_answer u = a u
no_urc line (r, (n, (b, (d, (a, (l, (g, (m, _)))))))) clip u = l u
no_urc line (r, (n, (b, (d, (a, (l, (g, (m, _)))))))) creg u = g u
no_urc line (r, (n, (b, (d, (a, (l, (g, (m, _)))))))) cmti u = m u
no_urc line f other u = u

coded :
    (code line : Text)
    → prefix_of code line ≡ true
    → IsCoded code line (record {
      final = code;
      detail = lstrip (λ c. (c == 58) || (c == 32)) (drop (length code) line);
    })
coded code line h =
    let (rest, e) = prefix-Starts code line h in
    (
      rest,
      e,
      ap
          (λ l.
            let x : CommandError = record {
              final = code;
              detail = lstrip (λ c. (c == 58) || (c == 32)) l;
            } in
            x)
          (ap (drop (length code)) e ∙ drop-append code rest),
    )

-- `classify` is right of every line.
pub classify-IsKind : (line : Text) → IsKind line (classify line)
unfolding classify classify_urc
classify-IsKind line =
    if-cases (IsKind line) (text_eq line (codes "OK")) (λ q. text_eq-eq line (codes "OK") q)
      (λ ok.
        if-cases (IsKind line) (text_eq line (codes "ERROR"))
          (λ q. inl (text_eq-eq line (codes "ERROR") q, refl))
          (λ bad.
            if-cases (IsKind line) (prefix_of (codes "+CME ERROR") line)
              (λ q. inr (inl (coded (codes "+CME ERROR") line q)))
              (λ cme.
                if-cases (IsKind line) (prefix_of (codes "+CMS ERROR") line)
                  (λ q. inr (inr (coded (codes "+CMS ERROR") line q)))
                  (λ cms. last ok bad cme cms (first_urc line urc_patterns) (
                    first_urc-Found line urc_patterns
                      (refl, (refl, (refl, (refl, (refl, (refl, (refl, (refl, tt)))))))))))))
  where
    last :
        text_eq line (codes "OK") ≡ false
        → text_eq line (codes "ERROR") ≡ false
        → prefix_of (codes "+CME ERROR") line ≡ false
        → prefix_of (codes "+CMS ERROR") line ≡ false
        → (o : Option UrcType) → Found line urc_patterns o
        → IsKind line (urc_or_body o)
    last a b c d (some type) f = f
    last a b c d none f = (
      not_equal line (codes "OK") a,
      not_equal line (codes "ERROR") b,
      not_prefix (codes "+CME ERROR") line c,
      not_prefix (codes "+CMS ERROR") line d,
      no_urc line f,
    )
