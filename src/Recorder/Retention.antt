-- ===== src/Recorder/Retention.antt =====
-- Which files `prune` of recorder.py keeps.
use isales_telephony.Base.{
  ℕ, zero, suc, ◌≤◌, ◌≡◌, refl, sym, ap, ◌∙◌, min, Bool, true, false, List, [], ◌∷◌, ◌++◌, leb,
  arith, length, take, drop, take-append-drop, keep, All, Bool-cases, inl, inr, leb→le, length-take,
  append-nil,
}
use isales_telephony.Recorder.{Wav, place, newest_first, prune}

-- no file is newer than `m`
abbrev IsNotNewer : ℕ → List Wav → Type 0
IsNotNewer m ws = All (λ (w : Wav). w.mtime ≤ m) ws

abbrev IsDescending : List Wav → Type 0
IsDescending [] = Unit
IsDescending (w ∷ ws) = IsNotNewer w.mtime ws × IsDescending ws

IsNotNewer-le : {m n : ℕ} (ws : List Wav) → m ≤ n → IsNotNewer m ws → IsNotNewer n ws
IsNotNewer-le [] h a = tt
IsNotNewer-le (w ∷ ws) h a = (omega (arith, a.0), IsNotNewer-le ws h (a.1))

place-IsNotNewer :
    (m : ℕ) (w : Wav) (ws : List Wav) → w.mtime ≤ m → IsNotNewer m ws → IsNotNewer m (place w ws)
unfolding place
place-IsNotNewer m w [] h a = (h, tt)
place-IsNotNewer m w (v ∷ vs) h a = elim (Bool-cases (leb v.mtime w.mtime)) [
  | inl o ↦ rw o (h, a)
  | inr o ↦ rw o (a.0, place-IsNotNewer m w vs h (a.1))
]

place-IsDescending : (w : Wav) (ws : List Wav) → IsDescending ws → IsDescending (place w ws)
unfolding place
place-IsDescending w [] d = (tt, tt)
place-IsDescending w (v ∷ vs) d = elim (Bool-cases (leb v.mtime w.mtime)) [
  | inl o ↦ let older = leb→le v.mtime w.mtime o in rw o ((older, IsNotNewer-le vs older (d.0)), d)
  | inr o ↦ rw o (place-IsNotNewer v.mtime w vs (ground arith) (d.0), place-IsDescending w vs (d.1))
]

newest_first-IsDescending : (ws : List Wav) → IsDescending (newest_first ws)
unfolding newest_first
newest_first-IsDescending [] = tt
newest_first-IsDescending (w ∷ ws) =
    place-IsDescending w (newest_first ws) (newest_first-IsDescending ws)

-- any test that some files pass is passed by as many files after sorting
abbrev count : (Wav → Bool) → List Wav → ℕ
count p ws = length (keep p ws)

count-place : (p : Wav → Bool) (w : Wav) (ws : List Wav) → count p (place w ws) ≡ count p (w ∷ ws)
unfolding place
count-place p w [] = refl
count-place p w (v ∷ vs) = ground (arith, count-place p w vs)

count-newest_first : (p : Wav → Bool) (ws : List Wav) → count p (newest_first ws) ≡ count p ws
unfolding newest_first
count-newest_first p [] = refl
count-newest_first p (w ∷ ws) =
    count-place p w (newest_first ws) ∙ ground (arith, count-newest_first p ws)

dropped_older : (n m : ℕ) (ws : List Wav) → IsNotNewer m ws → IsNotNewer m (drop n ws)
dropped_older zero m ws a = a
dropped_older (suc n) m [] a = tt
dropped_older (suc n) m (w ∷ ws) a = dropped_older n m ws (a.1)

taken_newer :
    (n : ℕ) (ws : List Wav)
    → IsDescending ws
    → All (λ (w : Wav). IsNotNewer w.mtime (drop n ws)) (take n ws)
taken_newer zero ws d = tt
taken_newer (suc n) [] d = tt
taken_newer (suc n) (w ∷ ws) d = (dropped_older n w.mtime ws (d.0), taken_newer n ws (d.1))

-- The files of the directory, sorted, are the files kept and the files removed.
pub record IsPruned (kept : ℕ) (wavs left : List Wav) : Type 0 where
  pub removed : List Wav
  pub same_files : (p : Wav → Bool) → count p (left ++ removed) ≡ count p wavs
  pub newest : All (λ (w : Wav). IsNotNewer w.mtime removed) left
  pub at_most : length left ≡ min kept (length wavs)

keep_none : (ws : List Wav) → keep (λ _. false) ws ≡ []
keep_none [] = refl
keep_none (w ∷ ws) = keep_none ws

count_all : (ws : List Wav) → count (λ _. true) ws ≡ length ws
count_all [] = refl
count_all (w ∷ ws) = ap suc (count_all ws)

-- Where every unlink succeeds and `keep` is positive, what stays are the `keep` newest files, or all
-- of them if there are fewer: no file that is removed is newer than one that stays.
prune-IsPruned :
    (kept : ℕ) (wavs : List Wav) → IsPruned (suc kept) wavs (prune (λ _. false) (suc kept) wavs)
unfolding prune
prune-IsPruned kept wavs =
    let sorted = newest_first wavs in
    let many : length sorted ≡ length wavs =
      sym (count_all sorted) ∙ count-newest_first (λ _. true) wavs ∙ count_all wavs in
    rw (keep_none (drop (suc kept) sorted), append-nil)
      (record {
        removed = drop (suc kept) sorted;
        same_files =
            λ p. ap (count p) (take-append-drop (suc kept) sorted) ∙ count-newest_first p wavs;
        newest = taken_newer (suc kept) sorted (newest_first-IsDescending wavs);
        at_most = omega (arith, length-take (suc kept) sorted, many);
      })
