-- ===== src/AudioPipe/Jitter.antt =====
-- What the jitter buffer of audio_pipe.py plays of what is fed to it.
use isales_telephony.Base.{
  ℕ, ◌+◌, ◌-◌, ◌≤◌, ◌<◌, ◌≡◌, refl, ap, ◌∙◌, List, [], ◌∷◌, ◌++◌, arith, length, drop, append_assoc,
  length-append, length-drop, drop_snoc, Thinned, done, Thinned-trans, Thinned-drop, take_last,
}
use isales_telephony.RingBuffer.{Bytes}
use isales_telephony.AudioPipe.{JitterBuffer, new, push, deque_append, pop_of}

pub data Call : Type 0 where
  pushed : Bytes → Call
  popped : Call

-- The buffer, the chunks pushed, those played, and how often silence was played.
pub record Session : Type 0 where
  pub jitter : JitterBuffer
  pub fed : List Bytes
  pub played : List Bytes
  pub silences : ℕ

after_pop : Session → List Bytes → Session
after_pop s [] = record s { jitter = (pop_of s.jitter []).1; silences = s.silences + 1 }
after_pop s (chunk ∷ rest) = record s {
  jitter = (pop_of s.jitter (chunk ∷ rest)).1;
  played = s.played ++ chunk ∷ [];
}

unfoldable pub step : Session → Call → Session
unfolding after_pop
step s (pushed chunk) = record s { jitter = push chunk s.jitter; fed = s.fed ++ chunk ∷ [] }
step s popped = after_pop s s.jitter.buf

unfoldable pub run : Session → List Call → Session
run s [] = s
run s (c ∷ cs) = run (step s c) cs

unfoldable pub start : ℕ → Session
start max_chunks = record { jitter = new max_chunks; fed = []; played = []; silences = 0 }

-- Each chunk pushed was played, was dropped and counted, or is buffered; order is kept.
pub record IsSteady (max_chunks : ℕ) (s : Session) : Type 0 where
  pub size : s.jitter.max_chunks ≡ max_chunks
  pub fits : length s.jitter.buf ≤ max_chunks
  pub counted : length s.fed ≡ length s.played + s.jitter.overruns + length s.jitter.buf
  pub in_order : Thinned (s.played ++ s.jitter.buf) s.fed
  pub silent : s.jitter.underruns ≡ s.silences

push-IsSteady :
    (m : ℕ) (s : Session) (chunk : Bytes)
    → 0 < m
    → IsSteady m s
    → IsSteady m (step s (pushed chunk))
unfolding step push deque_append
push-IsSteady m s chunk room h =
    let buf = s.jitter.buf in
    let k = length buf + 1 - s.jitter.max_chunks in
    let same = drop_snoc k buf chunk (omega (arith, h.size, h.fits)) in
    let long : length (buf ++ chunk ∷ []) ≡ length buf + 1 = length-append buf (chunk ∷ []) in
    let left : length (drop k (buf ++ chunk ∷ [])) ≡ length (buf ++ chunk ∷ []) - k =
      length-drop k (buf ++ chunk ∷ []) in
    let fed : length (s.fed ++ chunk ∷ []) ≡ length s.fed + 1 = length-append s.fed (chunk ∷ []) in
    record {
      size = h.size;
      fits = omega (arith, left, long, h.size, h.fits);
      counted = ground (arith, left, long, h.size, h.fits, fed, h.counted);
      in_order =
          rw (same, ← append_assoc)
            (take_last chunk (Thinned-trans (Thinned-drop k s.played buf) h.in_order));
      silent = h.silent;
    }

pop-IsSteady :
    (m : ℕ) (s : Session) (cs : List Bytes)
    → s.jitter.buf ≡ cs
    → IsSteady m s
    → IsSteady m (after_pop s cs)
unfolding after_pop
pop-IsSteady m s [] e h = record {
  size = h.size;
  fits = h.fits;
  counted = h.counted;
  in_order = h.in_order;
  silent = omega (arith, h.silent);
}
pop-IsSteady m s (chunk ∷ rest) e h =
    let size : length s.jitter.buf ≡ length rest + 1 = ap length e ∙ omega arith in
    record {
      size = h.size;
      fits = omega (arith, h.fits, size);
      counted = omega (arith, h.counted, size, length-append s.played (chunk ∷ []));
      in_order = rw append_assoc (rw e at h.in_order);
      silent = h.silent;
    }

run-IsSteady_from :
    (m : ℕ) (s : Session) (cs : List Call) → 0 < m → IsSteady m s → IsSteady m (run s cs)
unfolding run
run-IsSteady_from m s [] room h = h
run-IsSteady_from m s (pushed chunk ∷ cs) room h =
    run-IsSteady_from m (step s (pushed chunk)) cs room (push-IsSteady m s chunk room h)
run-IsSteady_from m s (popped ∷ cs) room h =
    run-IsSteady_from m (step s popped) cs room
      (unfold step in pop-IsSteady m s s.jitter.buf refl h)

-- From a new buffer with room for a chunk, whatever is pushed and popped: it never holds more than
-- its size; each chunk pushed was played, was dropped and counted as an overrun, or is buffered; the
-- chunks played and buffered are the ones pushed, some left out, in order; and each silence played
-- is counted as an underrun.
run-IsSteady :
    (max_chunks : ℕ) (cs : List Call)
    → 0 < max_chunks
    → IsSteady max_chunks (run (start max_chunks) cs)
unfolding start new
run-IsSteady max_chunks cs room =
    run-IsSteady_from max_chunks (start max_chunks) cs room
      (record { size = refl; fits = omega arith; counted = refl; in_order = done; silent = refl })
