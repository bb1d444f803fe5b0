-- ===== src/EnvFile/Lines.antt =====
-- One line of the file of env_writer.py, written and read back.
use isales_telephony.Base.{
  ℕ, ◌≡◌, refl, ap, sym, ◌∙◌, Bool, false, some, [], ◌∷◌, ◌++◌, append_assoc, some_of, Text,
  strip_id, is_blank, first_is, last_is, last_is-append, arith,
}
use isales_telephony.EnvFile.{
  is_space, is_break, splitlines, partition, is_quote, is_quoted, unquote, parse_line,
}

-- A value that a line gives back: no blank at its ends, not in quotes, and on one line.
pub record IsValue (v : Text) : Type 0 where
  pub starts : first_is is_space v ≡ false
  pub ends : last_is is_space v ≡ false
  pub on_line : some_of is_break v ≡ false
  pub unquoted : is_quoted v ≡ false

-- A key that a line gives back.
pub record IsKey (k : Text) : Type 0 where
  pub starts : first_is is_space k ≡ false
  pub ends : last_is is_space k ≡ false
  pub on_line : some_of is_break k ≡ false
  pub no_comment : first_is (is_quote 35) k ≡ false
  pub no_equals : some_of (is_quote 61) k ≡ false

pub some_of-none :
    (p : ℕ → Bool) (c : ℕ) (s : Text)
    → some_of p (c ∷ s) ≡ false
    → (p c ≡ false) × (some_of p s ≡ false)
some_of-none p c s h = ground (arith, h)

splitlines-append :
    (l s : Text) → some_of is_break l ≡ false → splitlines (l ++ 10 ∷ s) ≡ l ∷ splitlines s
unfolding splitlines
splitlines-append [] s h = refl
splitlines-append (c ∷ l) s h =
    let parts = some_of-none is_break c l h in rw (parts.0, splitlines-append l s parts.1) refl

partition-append :
    (k v : Text) → some_of (is_quote 61) k ≡ false → partition (k ++ 61 ∷ v) ≡ some (k, v)
unfolding partition
partition-append [] v h = refl
partition-append (c ∷ k) v h =
    let parts = some_of-none (is_quote 61) c k h in rw (parts.0, partition-append k v parts.1) refl

first_is-append :
    (p : ℕ → Bool) (k v : Text)
    → first_is p k ≡ false
    → p 61 ≡ false
    → first_is p (k ++ 61 ∷ v) ≡ false
first_is-append p [] v h e = e
first_is-append p (c ∷ k) v h e = h

last_is-value :
    (p : ℕ → Bool) (v : Text) → last_is p v ≡ false → p 61 ≡ false → last_is p (61 ∷ v) ≡ false
last_is-value p [] h e = e
last_is-value p (c ∷ v) h e = h

is_blank-append : (k v : Text) → is_blank (k ++ 61 ∷ v) ≡ false
is_blank-append [] v = refl
is_blank-append (c ∷ k) v = refl

-- the line of an entry is read back as the entry
pub parse_line-line : (k v : Text) → IsKey k → IsValue v → parse_line (k ++ 61 ∷ v) ≡ some (k, v)
unfolding parse_line unquote
parse_line-line k v hk hv =
    rw
      (
        strip_id is_space (k ++ 61 ∷ v) (first_is-append is_space k v hk.starts refl)
            (last_is-append is_space k v 61 ∙ last_is-value is_space v hv.ends refl),
        is_blank-append k v,
        first_is-append (is_quote 35) k v hk.no_comment refl,
        partition-append k v hk.no_equals,
        strip_id is_space k hk.starts hk.ends,
        strip_id is_space v hv.starts hv.ends,
        hv.unquoted,
      )
      refl

some_of-append :
    (p : ℕ → Bool) (s t : Text)
    → some_of p s ≡ false
    → some_of p t ≡ false
    → some_of p (s ++ t) ≡ false
some_of-append p [] t h k = k
some_of-append p (c ∷ s) t h k =
    let parts = some_of-none p c s h in rw (parts.0) (some_of-append p s t parts.1 k)

-- the line of an entry is one line
pub splitlines-line :
    (k v s : Text)
    → IsKey k
    → IsValue v
    → splitlines (k ++ ((61 ∷ v) ++ (10 ∷ s))) ≡ (k ++ 61 ∷ v) ∷ splitlines s
splitlines-line k v s hk hv =
    ap splitlines (sym (append_assoc k (61 ∷ v) (10 ∷ s)))
    ∙ splitlines-append (k ++ 61 ∷ v) s (some_of-append is_break k (61 ∷ v) hk.on_line hv.on_line)
