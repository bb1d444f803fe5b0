-- ===== src/AudioBridge/Sampling.antt =====
-- Which samples of an RTC frame bridge.py plays to the modem.
use isales_telephony.Base.{
  ℕ, zero, suc, ◌+◌, ◌*◌, ◌/◌, ◌%◌, ◌≡◌, refl, ap, ◌∙◌, true, false, Option, none, some, List, [],
  ◌∷◌, ◌==◌, ◌-◌, ltb, leb, ◌&&◌, ◌||◌, if◌then◌else◌, arith, All, ◌<◌, map,
}
use mathlib.Core.Option
use isales_telephony.RingBuffer.{Bytes}
use isales_telephony.Recorder.{Sample, frombuffer, cons_sample}
use isales_telephony.AudioBridge.Downstream.{
  average, to_mono, stride, decimate, bits, tobytes, convert, mono_of, decimated, or_8000,
}

module _ {A : Type 0} where
  -- xs[i], where it is there
  abbrev pub get_elem? : ℕ → List A → Option A
  get_elem? i [] = none
  get_elem? zero (x ∷ xs) = some x
  get_elem? (suc i) (x ∷ xs) = get_elem? i xs

-- The samples of a stereo frame, of which a pair is one moment.
abbrev pub flat : List (ℕ × ℕ) → List ℕ
flat [] = []
flat ((l, r) ∷ pairs) = l ∷ r ∷ flat pairs

-- The mean of two signed 16-bit samples, rounded down, as its pattern: of two of one sign it is that
-- of the patterns, and of others half their sum less or plus 65536.
abbrev pub mean : ℕ × ℕ → ℕ
mean (l, r) =
    if ltb l 32768 && ltb r 32768 || leb 32768 l && leb 32768 r
    then (l + r) / 2
    else if leb 65536 (l + r)
    then (l + r - 65536) / 2
    else (l + r + 65536) / 2

-- Both samples of each pair have 16 bits.
abbrev pub AreSamples : List (ℕ × ℕ) → Type 0
AreSamples pairs = All (λ p. (p.0 < 65536) × (p.1 < 65536)) pairs

zero_plus : (n : ℕ) → 0 + n ≡ n
zero_plus n = omega arith

suc_plus : (a b : ℕ) → suc a + b ≡ suc (a + b)
suc_plus a b = omega arith

zero_steps : (step : ℕ) → 0 + 0 * suc step ≡ 0
zero_steps step = omega arith

-- one more step
next_step : (step i : ℕ) → suc i * suc step ≡ suc (step + i * suc step)
next_step step i = omega arith

get_elem?-stride :
    (step skip i k : ℕ) (xs : List ℕ)
    → k ≡ skip + i * suc step
    → get_elem? i (stride step skip xs) ≡ get_elem? k xs
unfolding stride
get_elem?-stride step skip i k [] e = refl
get_elem?-stride step zero zero k (x ∷ xs) e = rw (e, zero_steps step) refl
get_elem?-stride step zero (suc i) k (x ∷ xs) e =
    rw (e, ap (λ n. 0 + n) (next_step step i), zero_plus (suc (step + i * suc step)))
      (get_elem?-stride step step i (step + i * suc step) xs refl)
get_elem?-stride step (suc skip) i k (x ∷ xs) e =
    rw (e, suc_plus skip (i * suc step))
      (get_elem?-stride step skip i (skip + i * suc step) xs refl)

average-mean : (l r : ℕ) → l < 65536 → r < 65536 → average l r ≡ mean (l, r)
average-mean l r hl hr = ground arith

to_mono-flat :
    (pairs : List (ℕ × ℕ)) → AreSamples pairs → to_mono (flat pairs) ≡ some (map mean pairs)
unfolding to_mono
to_mono-flat [] h = refl
to_mono-flat ((l, r) ∷ pairs) ((hl, hr), h) = rw (to_mono-flat pairs h, average-mean l r hl hr) refl

get_elem?-map :
    (i : ℕ) (pairs : List (ℕ × ℕ))
    → get_elem? i (map mean pairs) ≡ Option.map mean (get_elem? i pairs)
get_elem?-map i [] = refl
get_elem?-map zero (p ∷ pairs) = refl
get_elem?-map (suc i) (p ∷ pairs) = get_elem?-map i pairs

abbrev bits_of : Option (List Sample) → Option (List ℕ)
bits_of none = none
bits_of (some samples) = some (bits samples)

bits-cons :
    (x y : ℕ) (o : Option (List Sample))
    → bits_of (cons_sample (x, y) o) ≡ Option.map (λ l. (x + 256 * y) ∷ l) (bits_of o)
unfolding bits
bits-cons x y none = refl
bits-cons x y (some samples) = refl

two_bytes : (x : ℕ) → x < 65536 → x % 256 + 256 * (x / 256 % 256) ≡ x
two_bytes x h = omega arith

frombuffer-tobytes :
    (pairs : List (ℕ × ℕ))
    → AreSamples pairs
    → bits_of (frombuffer (tobytes (flat pairs))) ≡ some (flat pairs)
unfolding frombuffer tobytes bits
frombuffer-tobytes [] h = refl
frombuffer-tobytes ((l, r) ∷ pairs) ((hl, hr), h) =
    rw
      (
        bits-cons (l % 256) (l / 256 % 256)
            (cons_sample (r % 256, r / 256 % 256) (frombuffer (tobytes (flat pairs)))),
        bits-cons (r % 256) (r / 256 % 256) (frombuffer (tobytes (flat pairs))),
        frombuffer-tobytes pairs h,
        two_bytes l hl,
        two_bytes r hr,
      )
      refl

some_inj : (a b : List ℕ) → some a ≡ some b → a ≡ b
some_inj a b e = ap (λ o. or_nil o) e
  where
    or_nil : Option (List ℕ) → List ℕ
    or_nil none = []
    or_nil (some l) = l

times_one : (i : ℕ) → i ≡ i * 1
times_one i = omega arith

-- at a multiple of 8000, and at 8000 itself
get_elem?-decimate :
    (interp : ℕ → List ℕ → List ℕ) (step i : ℕ) (mono : List ℕ)
    → get_elem? i (decimate interp (or_8000 (8000 * suc step)) mono) ≡ get_elem? (i * suc step) mono
unfolding decimate
get_elem?-decimate interp zero i mono = ap (λ k. get_elem? k mono) (times_one i)
get_elem?-decimate interp (suc step) i mono =
    let positive : (8000 * suc (suc step) == 0) ≡ false = ground arith in
    let above : (8000 * suc (suc step) == 8000) ≡ false = ground arith in
    let whole : (8000 * suc (suc step) % 8000 == 0) ≡ true = ground arith in
    let ratio : 8000 * suc (suc step) / 8000 ≡ suc (suc step) = omega arith in
    rw (positive, above, whole, ratio)
      (get_elem?-stride (suc step) 0 i (i * suc (suc step)) mono (omega arith))

mono_of-bits :
    (samples : Option (List Sample)) (xs mono : List ℕ)
    → bits_of samples ≡ some xs
    → to_mono xs ≡ some mono
    → mono_of 2 samples ≡ some mono
mono_of-bits none xs mono h t = absurd (none≢some xs h)
  where
    none≢some : (l : List ℕ) → none ≡ some l → ⊥
    none≢some l e = ground arith
mono_of-bits (some samples) xs mono h t = ap to_mono (some_inj (bits samples) xs h) ∙ t

-- What the modem gets of a stereo frame: of each group of pairs, the mean of the first one.
pub record IsResampled (step : ℕ) (pairs : List (ℕ × ℕ)) (out : Option Bytes) : Type 0 where
  pub samples : List ℕ
  pub bytes : out ≡ some (tobytes samples)
  pub each : (i : ℕ) → get_elem? i samples ≡ Option.map mean (get_elem? (i * suc step) pairs)

-- A stereo frame of 16-bit samples whose rate is a positive multiple of 8000 is converted without an
-- exception, and sample i of the result is the mean of left and right at moment i * (rate / 8000) of
-- the frame, for every i, and there is none just where the frame has no such moment.
pub convert-IsResampled :
    (interp : ℕ → List ℕ → List ℕ) (step uid : ℕ) (pairs : List (ℕ × ℕ))
    → AreSamples pairs
    → IsResampled step pairs (
        convert interp (record {
          sender_uid = uid;
          pcm = tobytes (flat pairs);
          sample_rate = 8000 * suc step;
          channels = 2;
        }))
unfolding convert
convert-IsResampled interp step uid pairs h = record {
  samples = decimate interp (or_8000 (8000 * suc step)) (map mean pairs);
  bytes = ap (decimated interp (or_8000 (8000 * suc step))) (
      mono_of-bits (frombuffer (tobytes (flat pairs))) (flat pairs) (map mean pairs)
        (frombuffer-tobytes pairs h) (to_mono-flat pairs h));
  each =
      λ i. get_elem?-decimate interp step i (map mean pairs) ∙ get_elem?-map (i * suc step) pairs;
}
