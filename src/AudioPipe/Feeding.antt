-- ===== src/AudioPipe/Feeding.antt =====
-- What audio_pipe.py's buffer holds after the engine has sent audio that it has room for.
use isales_telephony.Base.{
  ◌+◌, ◌≤◌, ◌≡◌, refl, ap, sym, ◌∙◌, Bool, false, List, [], ◌∷◌, ◌++◌, append_assoc, append-nil,
  arith, length, length-append, join, join-append, All, if◌then◌else◌, ◌==◌, ◌-◌, take, drop, subst,
  ◌<◌,
}
use isales_telephony.RingBuffer.{Bytes}
use isales_telephony.AudioPipe.{JitterBuffer, push, deque_append, push_all, slices, feed_outbound}
use isales_telephony.AudioPipe.Splitting.{slices-join}

-- the buffer has taken the chunks, and dropped none
record IsFed (chunks : List Bytes) (b c : JitterBuffer) : Type 0 where
  pub buf : c.buf ≡ b.buf ++ chunks
  pub overruns : c.overruns ≡ b.overruns
  pub underruns : c.underruns ≡ b.underruns
  pub max_chunks : c.max_chunks ≡ b.max_chunks

push-IsFed :
    (chunk : Bytes) (b : JitterBuffer)
    → length b.buf + 1 ≤ b.max_chunks
    → IsFed (chunk ∷ []) b (push chunk b)
unfolding push deque_append
push-IsFed chunk b h =
    let none_over : length b.buf + 1 - b.max_chunks ≡ 0 = omega arith in
    let not_full : (length b.buf == b.max_chunks) ≡ false = ground arith in
    record {
      buf = ap (λ n. drop n (b.buf ++ chunk ∷ [])) none_over;
      overruns = ap (λ (t : Bool). if t then b.overruns + 1 else b.overruns) not_full;
      underruns = refl;
      max_chunks = refl;
    }

push_all-IsFed :
    (chunks : List Bytes) (b : JitterBuffer)
    → length b.buf + length chunks ≤ b.max_chunks
    → IsFed chunks b (push_all chunks b)
unfolding push_all
push_all-IsFed [] b h = record {
  buf = sym (append-nil b.buf);
  overruns = refl;
  underruns = refl;
  max_chunks = refl;
}
push_all-IsFed (chunk ∷ chunks) b h =
    let one : IsFed (chunk ∷ []) b (push chunk b) = push-IsFed chunk b (omega arith) in
    let longer : length (push chunk b).buf ≡ length b.buf + 1 =
      ap length one.buf ∙ length-append b.buf (chunk ∷ []) in
    let rest : IsFed chunks (push chunk b) (push_all chunks (push chunk b)) =
      push_all-IsFed chunks (push chunk b) (omega (arith, longer, one.max_chunks)) in
    record {
      buf = rest.buf ∙ ap (λ l. l ++ chunks) one.buf ∙ append_assoc b.buf (chunk ∷ []) chunks;
      overruns = rest.overruns ∙ one.overruns;
      underruns = rest.underruns ∙ one.underruns;
      max_chunks = rest.max_chunks ∙ one.max_chunks;
    }

-- Audio that the engine sent is buffered.
record IsBuffered (pcm : Bytes) (b c : JitterBuffer) : Type 0 where
  pub bytes : join c.buf ≡ join b.buf ++ pcm
  pub older : take (length b.buf) c.buf ≡ b.buf
  pub sizes : All (λ (p : Bytes). (0 < length p) × (length p ≤ 800)) (drop (length b.buf) c.buf)
  pub overruns : c.overruns ≡ b.overruns

take-append : (xs ys : List Bytes) → take (length xs) (xs ++ ys) ≡ xs
take-append [] ys = refl
take-append (x ∷ xs) ys = ap (λ l. x ∷ l) (take-append xs ys)

drop-append : (xs ys : List Bytes) → drop (length xs) (xs ++ ys) ≡ ys
drop-append [] ys = refl
drop-append (x ∷ xs) ys = drop-append xs ys

-- Where the jitter buffer has room for the slices of the downsampled audio: feed_outbound puts its
-- bytes behind those that are buffered, in order and once, in chunks of 1 to 800 bytes; the chunks
-- that were there stay as they are, and no overrun is counted.
feed_outbound-IsBuffered :
    (downsample : Bytes → Bytes) (pcm : Bytes) (b : JitterBuffer)
    → length b.buf + length (slices (length (downsample pcm)) (downsample pcm)) ≤ b.max_chunks
    → IsBuffered (downsample pcm) b (feed_outbound downsample pcm b)
unfolding feed_outbound
feed_outbound-IsBuffered downsample pcm b h =
    let out : Bytes = downsample pcm in
    let chunks : List Bytes = slices (length out) out in
    let cut = slices-join (length out) out (omega arith) in
    let fed : IsFed chunks b (push_all chunks b) = push_all-IsFed chunks b h in
    record {
      bytes = ap join fed.buf ∙ join-append b.buf chunks ∙ ap (λ l. join b.buf ++ l) cut.0;
      older = ap (take (length b.buf)) fed.buf ∙ take-append b.buf chunks;
      sizes =
          subst (All (λ (p : Bytes). (0 < length p) × (length p ≤ 800)))
            (sym (ap (drop (length b.buf)) fed.buf ∙ drop-append b.buf chunks)) cut.1;
      overruns = fed.overruns;
    }
