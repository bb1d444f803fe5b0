-- ===== src/Recorder/Stereo.antt =====
-- What is in the wav file of a call of recorder.py.
use isales_telephony.Base.{
  ℕ, ◌-◌, ◌*◌, ◌%◌, ◌≡◌, refl, ap, ◌∙◌, max, Option, some, List, [], ◌∷◌, ◌++◌, ok, arith, length,
  replicate, join, map, length-append, length-replicate,
}
use isales_telephony.RingBuffer.{Bytes}
use isales_telephony.Recorder.{Sample, cons_sample, frombuffer, pad, interleave, write_stereo_wav}

-- The bytes of a track's samples.
unfoldable pub bytes_of : List Sample → Bytes
bytes_of [] = []
bytes_of ((lo, hi) ∷ rest) = lo ∷ hi ∷ bytes_of rest

length-bytes_of : (ss : List Sample) → length (bytes_of ss) ≡ 2 * length ss
unfolding bytes_of
length-bytes_of [] = refl
length-bytes_of ((lo, hi) ∷ rest) = omega (arith, length-bytes_of rest)

IsRead : Bytes → Option (List Sample) → Type 0
IsRead track o = (ss : List Sample) × (o ≡ some ss) × (bytes_of ss ≡ track)

frombuffer-IsRead : (track : Bytes) → length track % 2 ≡ 0 → IsRead track (frombuffer track)
unfolding frombuffer bytes_of IsRead
frombuffer-IsRead [] h = ([], refl, refl)
frombuffer-IsRead (lo ∷ []) h = absurd (omega arith)
frombuffer-IsRead (lo ∷ hi ∷ rest) h =
    let (ss, e, b) = frombuffer-IsRead rest (omega arith) in
    ((lo, hi) ∷ ss, ap (cons_sample (lo, hi)) e, ap (λ l. lo ∷ hi ∷ l) b)

interleave-lefts :
    (ls rs : List Sample) → length ls ≡ length rs → map (λ f. f.0) (interleave ls rs) ≡ ls
unfolding interleave
interleave-lefts [] rs h = refl
interleave-lefts (l ∷ ls) [] h = absurd (omega arith)
interleave-lefts (l ∷ ls) (r ∷ rs) h = ap (λ x. l ∷ x) (interleave-lefts ls rs (omega arith))

interleave-rights :
    (ls rs : List Sample) → length ls ≡ length rs → map (λ f. f.1) (interleave ls rs) ≡ rs
unfolding interleave
interleave-rights [] [] h = refl
interleave-rights [] (r ∷ rs) h = absurd (omega arith)
interleave-rights (l ∷ ls) [] h = absurd (omega arith)
interleave-rights (l ∷ ls) (r ∷ rs) h = ap (λ x. r ∷ x) (interleave-rights ls rs (omega arith))

length-pad : (a b : Bytes) → length (pad a b) ≡ max (length a) (length b)
unfolding pad
length-pad a b = omega (
  arith,
  length-append a (replicate (length b - length a) 0),
  length-replicate {A = ℕ} (length b - length a) 0,
)

-- The frames have both tracks, each with zeros behind it up to the longer one.
pub record IsStereo (left right : Bytes) (frames : List (Sample × Sample)) : Type 0 where
  pub left_so : bytes_of (map (λ f. f.0) frames) ≡ left ++ replicate (length right - length left) 0
  pub right_so :
      bytes_of (map (λ f. f.1) frames) ≡ right ++ replicate (length left - length right) 0

-- Where both tracks have whole samples, and the file system does not raise: writing the file does not
-- raise, and reading its two channels back gives both tracks, the shorter one with as many zeros
-- behind it as it lacks.
pub write_stereo_wav-IsStereo :
    (left_chunks right_chunks : List Bytes)
    → length (join left_chunks) % 2 ≡ 0
    → length (join right_chunks) % 2 ≡ 0
    → (frames : List (Sample × Sample)) × (write_stereo_wav left_chunks right_chunks ≡ ok frames)
      × IsStereo (join left_chunks) (join right_chunks) frames
unfolding write_stereo_wav IsRead pad
write_stereo_wav-IsStereo left_chunks right_chunks h k =
    let left = join left_chunks in
    let right = join right_chunks in
    let longer = length-pad left right in
    let longer' = length-pad right left in
    let (ls, e, a) = frombuffer-IsRead (pad left right) (omega (arith, longer)) in
    let (rs, f, b) = frombuffer-IsRead (pad right left) (omega (arith, longer')) in
    let same : length ls ≡ length rs =
      omega (
        arith,
        length-bytes_of ls,
        length-bytes_of rs,
        ap length a,
        ap length b,
        longer,
        longer',
      ) in
    (
      interleave ls rs,
      rw (e, f) refl,
      record {
        left_so = ap bytes_of (interleave-lefts ls rs same) ∙ a;
        right_so = ap bytes_of (interleave-rights ls rs same) ∙ b;
      },
    )
