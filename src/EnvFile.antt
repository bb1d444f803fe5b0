-- ===== src/EnvFile.antt =====
-- isales_telephony/ui/env_writer.py: the file of settings. Its text is what `read_text` gives, with
-- every line ending made one newline; the file and its replacement are arguments and results.
pub mod Values
pub mod Lines
pub mod Rewriting
mod Samples
use isales_telephony.Base.{
  ℕ, zero, suc, ◌+◌, ◌-◌, Bool, true, false, Option, none, some, List, [], ◌∷◌, ◌++◌, ltb, leb,
  ◌==◌, ◌&&◌, ◌||◌, not, if◌then◌else◌, length, take, drop, some_of, Text, codes, text_eq,
  prefix_of, strip, is_blank, first_is, last_is, Outcome, ok, err,
}

-- what `str.strip()` removes
abbrev pub is_space : ℕ → Bool
is_space c =
    (leb 9 c && leb c 13)
    || (leb 28 c && leb c 32)
    || (c == 133 || c == 160 || c == 5760)
    || (leb 8192 c && leb c 8202)
    || (c == 8232 || c == 8233 || c == 8239 || c == 8287 || c == 12288)

-- where `str.splitlines()` ends a line
abbrev pub is_break : ℕ → Bool
is_break c =
    (leb 10 c && leb c 13) || (leb 28 c && leb c 30) || (c == 133 || c == 8232 || c == 8233)

abbrev pub grow : ℕ → List Text → List Text
grow c [] = (c ∷ []) ∷ []
grow c (line ∷ lines) = (c ∷ line) ∷ lines

-- `text.splitlines()`
unfoldable pub splitlines : Text → List Text
splitlines [] = []
splitlines (c ∷ s) = let rest = splitlines s in if is_break c then [] ∷ rest else grow c rest

abbrev pub Entries : Type 0
Entries = List (Text × Text)

-- d.get(key)
unfoldable pub get : Text → Entries → Option Text
get key [] = none
get key ((k, v) ∷ d) = if text_eq k key then some v else get key d

-- d[key] = value
unfoldable pub set : Text → Text → Entries → Entries
set key value [] = (key, value) ∷ []
set key value ((k, v) ∷ d) =
    let rest = set key value d in if text_eq k key then (k, value) ∷ d else (k, v) ∷ rest

abbrev pub cons_first : ℕ → Option (Text × Text) → Option (Text × Text)
cons_first c none = none
cons_first c (some (key, value)) = some (c ∷ key, value)

-- `line.partition("=")`, where there is one
unfoldable pub partition : Text → Option (Text × Text)
partition [] = none
partition (c ∷ s) = let rest = partition s in if c == 61 then some ([], s) else cons_first c rest

abbrev pub is_quote : ℕ → ℕ → Bool
is_quote q c = c == q

-- a value in double or in single quotes
unfoldable pub is_quoted : Text → Bool
is_quoted v =
    (first_is (is_quote 34) v && last_is (is_quote 34) v)
    || (first_is (is_quote 39) v && last_is (is_quote 39) v)

-- `value[1:-1]`
abbrev pub inner : Text → Text
inner v = drop 1 (take (length v - 1) v)

unfoldable pub unquote : Text → Text
unquote v = if is_quoted v then inner v else v

abbrev pub entry_of : Option (Text × Text) → Option (Text × Text)
entry_of none = none
entry_of (some (key, value)) = some (strip is_space key, unquote (strip is_space value))

-- one line of `read_env`; none where it is skipped
unfoldable pub parse_line : Text → Option (Text × Text)
parse_line raw =
    let line = strip is_space raw in
    if is_blank line
    then none
    else if first_is (is_quote 35) line
    then none
    else entry_of (partition line)

abbrev pub with_entry : Entries → Option (Text × Text) → Entries
with_entry out none = out
with_entry out (some (key, value)) = set key value out

unfoldable pub read_lines : List Text → Entries → Entries
read_lines [] out = out
read_lines (raw ∷ lines) out = read_lines lines (with_entry out (parse_line raw))

-- `read_env`; none is a missing file
unfoldable pub read_env : Option Text → Entries
read_env none = []
read_env (some text) = read_lines (splitlines text) []

-- `"\n".join(f"{k}={v}" …) + "\n"`
unfoldable pub body : Entries → Text
body [] = 10 ∷ []
body ((k, v) ∷ []) = k ++ ((61 ∷ v) ++ (10 ∷ []))
body ((k, v) ∷ e ∷ more) = k ++ ((61 ∷ v) ++ (10 ∷ body (e ∷ more)))

-- `EnvFileError`, by its messages
pub data EnvFileError : Type 0 where
  token_empty token_too_short token_too_long token_characters endpoint_empty endpoint_form :
      EnvFileError

-- a character of `_TOKEN_ALLOWED`
abbrev pub is_token_character : ℕ → Bool
is_token_character c =
    (leb 65 c && leb c 90)
    || (leb 97 c && leb c 122)
    || (leb 45 c && leb c 58)
    || (c == 95 || c == 43 || c == 61)

-- `validate_token`: none where it does not raise
unfoldable pub validate_token : Text → Option EnvFileError
validate_token token =
    let t = strip is_space token in
    if is_blank t
    then some token_empty
    else if ltb (length t) 16
    then some token_too_short
    else if ltb 512 (length t)
    then some token_too_long
    else if some_of (λ c. not (is_token_character c)) t
    then some token_characters
    else none

abbrev pub is_host_character : ℕ → Bool
is_host_character c =
    (leb 65 c && leb c 90)
    || (leb 97 c && leb c 122)
    || (leb 48 c && leb c 57)
    || (c == 46 || c == 45)

-- `(?::\d{1,5})?$`; `is_decimal` is the class of `\d`
unfoldable pub is_port : (ℕ → Bool) → Text → Bool
is_port is_decimal [] = true
is_port is_decimal (c ∷ digits) =
    c == 58
    && (not (is_blank digits)
        && (ltb (length digits) 6 && not (some_of (λ d. not (is_decimal d)) digits)))

-- the characters of the host, of which there is one at least, then the port
unfoldable pub is_host : (ℕ → Bool) → Bool → Text → Bool
is_host is_decimal seen [] = seen
is_host is_decimal seen (c ∷ s) =
    let rest = is_host is_decimal true s in
    if is_host_character c then rest else seen && is_port is_decimal (c ∷ s)

-- `_ENDPOINT_RE`
unfoldable pub is_endpoint : (ℕ → Bool) → Text → Bool
is_endpoint is_decimal e =
    if prefix_of (codes "grpc://") e
    then is_host is_decimal false (drop 7 e)
    else if prefix_of (codes "grpcs://") e
    then is_host is_decimal false (drop 8 e)
    else is_host is_decimal false e

-- `validate_endpoint`
unfoldable pub validate_endpoint : (ℕ → Bool) → Text → Option EnvFileError
validate_endpoint is_decimal endpoint =
    let e = strip is_space endpoint in
    if is_blank e
    then some endpoint_empty
    else if is_endpoint is_decimal e
    then none
    else some endpoint_form

abbrev pub token_key : Text
token_key = codes "ISALES_EDGE_DEVICE_TOKEN"

abbrev pub endpoint_key : Text
endpoint_key = codes "ISALES_CLOUD_GRPC_ENDPOINT"

unfoldable pub updated : Text → Text → Option Text → Entries
updated token endpoint file =
    set endpoint_key (strip is_space endpoint)
      (set token_key (strip is_space token) (read_env file))

abbrev pub checked : Option EnvFileError → Option EnvFileError → Text → Outcome EnvFileError Text
checked (some e) endpoint_error text = err e
checked none (some e) text = err e
checked none none text = ok text

-- `write_token_and_endpoint`: the new text of the file
unfoldable pub write_token_and_endpoint :
    (ℕ → Bool) → Text → Text → Option Text → Outcome EnvFileError Text
write_token_and_endpoint is_decimal token endpoint file =
    checked (validate_token token) (validate_endpoint is_decimal endpoint)
      (body (updated token endpoint file))
