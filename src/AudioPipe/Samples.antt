-- ===== src/AudioPipe/Samples.antt =====
-- The jitter buffer and the cutting on small inputs.
use isales_telephony.Base.{◌≡◌, refl, List, [], ◌∷◌, replicate}
use isales_telephony.RingBuffer.{Bytes}
use isales_telephony.AudioPipe.{
  new, push, deque_append, slices, gsm_chunk_bytes, feed_outbound, push_all,
}
use isales_telephony.AudioPipe.Jitter.{Call, pushed, popped, start, step, run}

abbrev calls : List Call
calls = popped ∷ pushed (1 ∷ []) ∷ pushed (2 ∷ []) ∷ pushed (3 ∷ []) ∷ popped ∷ []

played_runs :
    ((run (start 2) calls).played ≡ (2 ∷ []) ∷ [])
    × ((run (start 2) calls).jitter.overruns ≡ 1)
    × ((run (start 2) calls).jitter.underruns ≡ 1)
unfolding run step start new push deque_append
played_runs = (refl, refl, refl)

abbrev blob : Bytes
blob = replicate 900 5

feed_runs : (feed_outbound (λ pcm. pcm) blob (new 4)).buf ≡ replicate 800 5 ∷ replicate 100 5 ∷ []
unfolding feed_outbound slices gsm_chunk_bytes push_all push deque_append new
feed_runs = refl
