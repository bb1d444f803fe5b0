-- ===== src/RtcSession/Cutting.antt =====
-- How `push_audio` of windows_dingrtc_session.py cuts a chunk into frames of 10 ms.
use isales_telephony.Base.{
  ℕ, zero, suc, ◌+◌, ◌-◌, ◌≤◌, ◌<◌, ◌≡◌, refl, sym, ap, ◌∙◌, List, [], ◌∷◌, ◌++◌, leb, length, take,
  drop, replicate, join, All, Bool-cases, inl, inr, arith, append-nil, append_assoc, length-append,
  length-take, length-drop, length-replicate, take-append-drop, leb→le,
}
use isales_telephony.RtcSession.{Bytes, SdkCall, push_external_audio}
use isales_telephony.RtcSession.Audio.{padded, frames_of}

-- The pushes of frames that follow one another by 10 ms.
unfoldable pub stamped : ℕ → ℕ → ℕ → List Bytes → List SdkCall
stamped rate channels ts [] = []
stamped rate channels ts (f ∷ fs) =
    push_external_audio f rate channels ts ∷ stamped rate channels (ts + 10) fs

pub length-stamped :
    (rate channels ts : ℕ) (fs : List Bytes) → length (stamped rate channels ts fs) ≡ length fs
unfolding stamped
length-stamped rate channels ts [] = refl
length-stamped rate channels ts (f ∷ fs) = ap suc (length-stamped rate channels (ts + 10) fs)

-- `pcm` cut into frames of one size, of which the last one is filled up with zeros
pub record IsCut (size : ℕ) (pcm : Bytes) (frames : List Bytes) : Type 0 where
  pub pad : ℕ
  pub whole : All (λ (f : Bytes). length f ≡ size) frames
  pub bytes : join frames ≡ pcm ++ replicate pad 0
  pub short : pad < size

unfoldable pub cut : ℕ → ℕ → Bytes → List Bytes
cut zero size pcm = []
cut (suc fuel) size [] = []
cut (suc fuel) size (b ∷ pcm) =
    padded size (take size (b ∷ pcm)) ∷ cut fuel size (drop size (b ∷ pcm))

pub frames_of-stamped :
    (fuel size rate channels ts : ℕ) (pcm : Bytes)
    → frames_of fuel size rate channels ts pcm ≡ stamped rate channels ts (cut fuel size pcm)
unfolding frames_of stamped cut
frames_of-stamped zero size rate channels ts pcm = refl
frames_of-stamped (suc fuel) size rate channels ts [] = refl
frames_of-stamped (suc fuel) size rate channels ts (b ∷ pcm) =
    ap (λ l. push_external_audio (padded size (take size (b ∷ pcm))) rate channels ts ∷ l)
      (frames_of-stamped fuel size rate channels (ts + 10) (drop size (b ∷ pcm)))

take-short : (n : ℕ) (xs : Bytes) → length xs ≤ n → take n xs ≡ xs
take-short zero [] le = refl
take-short zero (x ∷ xs) le = absurd (omega arith)
take-short (suc n) [] le = refl
take-short (suc n) (x ∷ xs) le = ap (λ l. x ∷ l) (take-short n xs (omega arith))

drop-short : (n : ℕ) (xs : Bytes) → length xs ≤ n → drop n xs ≡ []
drop-short zero [] le = refl
drop-short zero (x ∷ xs) le = absurd (omega arith)
drop-short (suc n) [] le = refl
drop-short (suc n) (x ∷ xs) le = drop-short n xs (omega arith)

cut-nil : (fuel size : ℕ) (xs : Bytes) → xs ≡ [] → cut fuel size xs ≡ []
unfolding cut
cut-nil zero size xs e = refl
cut-nil (suc fuel) size [] e = refl
cut-nil (suc fuel) size (b ∷ xs) e = cc

-- a last frame
last-IsCut :
    (size : ℕ) (xs : Bytes) (rest : List Bytes)
    → 1 ≤ length xs
    → length xs < size
    → rest ≡ []
    → IsCut size xs (padded size (take size xs) ∷ rest)
unfolding padded
last-IsCut size xs rest p lt e =
    rw (e, take-short size xs (omega arith))
      (record {
        pad = size - length xs;
        whole = (
          omega (
            arith,
            length-append xs (replicate (size - length xs) 0),
            length-replicate {A = ℕ} (size - length xs) 0,
          ),
          tt,
        );
        bytes = append-nil _;
        short = omega arith;
      })

-- a frame that is followed by others
more-IsCut :
    (size : ℕ) (xs : Bytes) (rest : List Bytes)
    → size ≤ length xs
    → IsCut size (drop size xs) rest
    → IsCut size xs (padded size (take size xs) ∷ rest)
unfolding padded
more-IsCut size xs rest le h = rw (exact ∙ append-nil (take size xs)) (record {
  pad = h.pad;
  whole = (omega (arith, length-take size xs), h.whole);
  bytes =
      ap (λ l. take size xs ++ l) h.bytes
      ∙ sym (append_assoc (take size xs) (drop size xs) (replicate h.pad 0))
      ∙ ap (λ l. l ++ replicate h.pad 0) (take-append-drop size xs);
  short = h.short;
})
  where
    exact : take size xs ++ replicate (size - length (take size xs)) 0 ≡ take size xs ++ []
    exact =
        let full : size - length (take size xs) ≡ 0 = omega (arith, length-take size xs) in
        ap (λ n. take size xs ++ replicate n 0) full

pub cut-IsCut :
    (fuel size : ℕ) (pcm : Bytes)
    → 1 ≤ size
    → length pcm ≤ fuel
    → IsCut size pcm (cut fuel size pcm)
unfolding cut
cut-IsCut fuel size [] p le =
    rw (cut-nil fuel size [] refl)
      (record { pad = 0; whole = tt; bytes = refl; short = omega arith })
cut-IsCut zero size (b ∷ pcm) p le = absurd (omega arith)
cut-IsCut (suc fuel) size (b ∷ pcm) p le =
    let more =
      cut-IsCut fuel size (drop size (b ∷ pcm)) p (omega (arith, length-drop size (b ∷ pcm))) in
    elim (Bool-cases (leb size (length (b ∷ pcm)))) [
      | inl o ↦ more-IsCut size (b ∷ pcm) _ (leb→le size (length (b ∷ pcm)) o) more
      | inr o ↦
          last-IsCut size (b ∷ pcm) _ (omega arith) (ground arith)
            (cut-nil fuel size _ (drop-short size (b ∷ pcm) (ground arith)))
    ]
