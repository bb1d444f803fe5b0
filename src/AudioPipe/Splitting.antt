-- ===== src/AudioPipe/Splitting.antt =====
-- How audio_pipe.py cuts what the engine sends.
use isales_telephony.Base.{
  ℕ, zero, suc, ◌≤◌, ◌<◌, ◌≡◌, refl, ap, ◌∙◌, [], ◌∷◌, ◌++◌, arith, length, take, drop, join, All,
  length-take, length-drop, take-append-drop,
}
use isales_telephony.RingBuffer.{Bytes}
use isales_telephony.AudioPipe.{slices, gsm_chunk_bytes}

-- Whatever is cut, with fuel for each byte: the slices are the bytes, in order and once, and each has
-- some bytes and at most 800.
pub slices-join :
    (fuel : ℕ) (pcm : Bytes)
    → length pcm ≤ fuel
    → (join (slices fuel pcm) ≡ pcm)
      × All (λ (c : Bytes). (0 < length c) × (length c ≤ 800)) (slices fuel pcm)
unfolding slices gsm_chunk_bytes
slices-join zero [] h = (refl, tt)
slices-join zero (x ∷ pcm) h = absurd (omega arith)
slices-join (suc fuel) [] h = (refl, tt)
slices-join (suc fuel) (x ∷ pcm) h =
    let all : Bytes = x ∷ pcm in
    let ih = slices-join fuel (drop 800 all) (omega (arith, length-drop 800 all)) in
    let cut = length-take 800 all in
    (
      ap (λ l. take 800 all ++ l) (ih.0) ∙ take-append-drop 800 all,
      ((omega (arith, cut), omega (arith, cut)), ih.1),
    )
