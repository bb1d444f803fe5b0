-- ===== src/EnvFile/Rewriting.antt =====
-- What env_writer.py finds in the file that it has written.
use isales_telephony.Base.{
  ℕ, ◌≡◌, refl, ap, sym, ◌∙◌, subst, Bool, true, false, Option, none, some, List, [], ◌∷◌,
  if◌then◌else◌, All, Text, text_eq, text_eq-eq, text_eq_refl, strip, Outcome, ok, err, Bool-cases,
  inl, inr, clash,
}
use isales_telephony.EnvFile.{
  is_space, splitlines, Entries, get, set, parse_line, with_entry, read_lines, read_env, body,
  EnvFileError, validate_token, validate_endpoint, token_key, endpoint_key, updated,
  write_token_and_endpoint,
}
use isales_telephony.EnvFile.Values.{IsDecimal, validate_token-IsValue, validate_endpoint-IsValue}
use isales_telephony.EnvFile.Lines.{IsKey, IsValue, parse_line-line, splitlines-line}

-- Each line of the file gives its entry back.
abbrev pub IsTidy : Entries → Type 0
IsTidy d = All (λ e. IsKey e.0 × IsValue e.1) d

-- No key stands twice.
abbrev pub IsDict : Entries → Type 0
IsDict [] = Unit
IsDict ((k, v) ∷ d) = (get k d ≡ none) × IsDict d

abbrev or_else : Option Text → Option Text → Option Text
or_else none old = old
or_else (some v) old = some v

get-set :
    (q k v : Text) (d : Entries) → get q (set k v d) ≡ (if text_eq k q then some v else get q d)
unfolding get set
get-set q k v [] = refl
get-set q k v ((j, w) ∷ d) = elim (Bool-cases (text_eq j k)) [
  | inl o ↦ rw (o, ← text_eq-eq j k o) same
  | inr o ↦ rw (o, get-set q k v d) (other o)
]
  where
    other :
        text_eq j k ≡ false
        → (if text_eq j q then some w else if text_eq k q then some v else get q d)
          ≡ (if text_eq k q then some v else if text_eq j q then some w else get q d)
    other o = elim (Bool-cases (text_eq j q)) [
      | inr p ↦ rw p refl
      | inl p ↦ elim (Bool-cases (text_eq k q)) [
        | inr r ↦ rw (p, r) refl
        | inl r ↦
            let same_key : j ≡ k = text_eq-eq j q p ∙ sym (text_eq-eq k q r) in
            absurd
              (clash (text_eq j k) (subst (λ i. text_eq j i ≡ true) same_key (text_eq_refl j)) o)
      ]
    ]

    same :
        (if text_eq j q then some v else get q d)
        ≡ (if text_eq j q then some v else if text_eq j q then some w else get q d)
    same = elim (Bool-cases (text_eq j q)) [ inl o ↦ rw o refl | inr o ↦ rw o refl ]

-- an entry read before others of other keys
over :
    (q k v : Text) (d out : Entries)
    → get k d ≡ none
    → or_else (get q d) (get q (set k v out))
      ≡ or_else (if text_eq k q then some v else get q d) (get q out)
over q k v d out fresh = elim (Bool-cases (text_eq k q)) [
  | inl o ↦
      let same : k ≡ q = text_eq-eq k q o in
      let gone : get q d ≡ none = subst (λ i. get i d ≡ none) same fresh in
      rw (gone, get-set q k v out, o) refl
  | inr o ↦ rw (get-set q k v out, o) refl
]

-- reading the lines of the entries puts them over what was there
read_lines-body :
    (q : Text) (e : Text × Text) (d out : Entries)
    → IsTidy (e ∷ d)
    → IsDict (e ∷ d)
    → get q (read_lines (splitlines (body (e ∷ d))) out) ≡ or_else (get q (e ∷ d)) (get q out)
unfolding read_lines body get splitlines
read_lines-body q (k, v) [] out ((hk, hv), _) (fresh, _) =
    ap (λ ls. get q (read_lines ls out)) (splitlines-line k v [] hk hv)
    ∙ ap (λ o. get q (read_lines (splitlines []) (with_entry out o))) (parse_line-line k v hk hv)
    ∙ over q k v [] out refl
read_lines-body q (k, v) (f ∷ d) out ((hk, hv), ht) (fresh, hd) =
    ap (λ ls. get q (read_lines ls out)) (splitlines-line k v (body (f ∷ d)) hk hv)
    ∙ ap (λ o. get q (read_lines (splitlines (body (f ∷ d))) (with_entry out o)))
        (parse_line-line k v hk hv)
    ∙ read_lines-body q f d (set k v out) ht hd
    ∙ over q k v (f ∷ d) out fresh

set-IsTidy : (k v : Text) (d : Entries) → IsKey k → IsValue v → IsTidy d → IsTidy (set k v d)
unfolding set
set-IsTidy k v [] hk hv h = ((hk, hv), tt)
set-IsTidy k v ((j, w) ∷ d) hk hv (e, h) = elim (Bool-cases (text_eq j k)) [
  | inl o ↦ rw o ((e.0, hv), h)
  | inr o ↦ rw o (e, set-IsTidy k v d hk hv h)
]

set-IsDict : (k v : Text) (d : Entries) → IsDict d → IsDict (set k v d)
unfolding set get
set-IsDict k v [] h = (refl, tt)
set-IsDict k v ((j, w) ∷ d) (fresh, h) = elim (Bool-cases (text_eq j k)) [
  | inl o ↦ rw o (fresh, h)
  | inr o ↦ rw o (get-set j k v d ∙ rw (apart o) fresh, set-IsDict k v d h)
]
  where
    apart : text_eq j k ≡ false → text_eq k j ≡ false
    apart o = elim (Bool-cases (text_eq k j)) [
      | inr p ↦ p
      | inl p ↦ absurd (
          clash (text_eq j k) (subst (λ i. text_eq i k ≡ true) (text_eq-eq k j p) (text_eq_refl k))
            o)
    ]

read_lines-IsDict : (lines : List Text) (out : Entries) → IsDict out → IsDict (read_lines lines out)
unfolding read_lines
read_lines-IsDict [] out h = h
read_lines-IsDict (raw ∷ lines) out h = read_lines-IsDict lines _ (kept (parse_line raw))
  where
    kept : (o : Option (Text × Text)) → IsDict (with_entry out o)
    kept none = h
    kept (some (k, v)) = set-IsDict k v out h

read_env-IsDict : (file : Option Text) → IsDict (read_env file)
unfolding read_env
read_env-IsDict none = tt
read_env-IsDict (some text) = read_lines-IsDict (splitlines text) [] tt

read_env-body :
    (q : Text) (d : Entries) → IsTidy d → IsDict d → get q (read_env (some (body d))) ≡ get q d
unfolding read_env get body splitlines read_lines parse_line
read_env-body q [] t h = refl
read_env-body q (e ∷ d) t h = read_lines-body q e d [] t h ∙ or_none (get q (e ∷ d))
  where
    or_none : (o : Option Text) → or_else o none ≡ o
    or_none none = refl
    or_none (some v) = refl

-- What the new file says of a key.
abbrev pub IsRewritten : Text → Text → Option Text → Outcome EnvFileError Text → Type 0
IsRewritten token endpoint file (err e) = ⊥
IsRewritten token endpoint file (ok text) =
    (q : Text)
    → get q (read_env (some text)) ≡ (
        if text_eq endpoint_key q
        then some (strip is_space endpoint)
        else if text_eq token_key q
        then some (strip is_space token)
        else get q (read_env file))

token_key-IsKey : IsKey token_key
token_key-IsKey = record {
  starts = refl;
  ends = refl;
  on_line = refl;
  no_comment = refl;
  no_equals = refl;
}

endpoint_key-IsKey : IsKey endpoint_key
endpoint_key-IsKey = record {
  starts = refl;
  ends = refl;
  on_line = refl;
  no_comment = refl;
  no_equals = refl;
}

-- Where the validation accepts token and endpoint, and each entry of the old file is one that its line
-- gives back (no blank at the ends of key and value, no quotes around the value): the new file says
-- the stripped token and the stripped endpoint, and of every other key what the old file said.
pub write_token_and_endpoint-IsRewritten :
    (is_decimal : ℕ → Bool) (token endpoint : Text) (file : Option Text)
    → IsDecimal is_decimal
    → validate_token token ≡ none
    → validate_endpoint is_decimal endpoint ≡ none
    → IsTidy (read_env file)
    → IsRewritten token endpoint file (write_token_and_endpoint is_decimal token endpoint file)
unfolding write_token_and_endpoint updated
write_token_and_endpoint-IsRewritten is_decimal token endpoint file d ht he tidy =
    rw (ht, he)
      (λ q.
        read_env-body q (updated token endpoint file)
          (set-IsTidy endpoint_key (strip is_space endpoint) _ endpoint_key-IsKey
            (validate_endpoint-IsValue is_decimal endpoint d he)
            (set-IsTidy token_key (strip is_space token) (read_env file) token_key-IsKey
              (validate_token-IsValue token ht) tidy))
          (set-IsDict endpoint_key (strip is_space endpoint) _
            (set-IsDict token_key (strip is_space token) (read_env file) (read_env-IsDict file)))
        ∙ get-set q endpoint_key (strip is_space endpoint)
            (set token_key (strip is_space token) (read_env file))
        ∙ ap (λ o. if text_eq endpoint_key q then some (strip is_space endpoint) else o)
            (get-set q token_key (strip is_space token) (read_env file)))
