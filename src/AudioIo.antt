-- ===== src/AudioIo.antt =====
-- isales_telephony/edge/audio_io.py: the pumps between the modem's audio and a call's rings.
-- What the backends deliver is the argument; what they are given is recorded.
pub mod Framing
mod Samples
use isales_telephony.Base.{
  ℕ, zero, suc, ◌+◌, Bool, true, false, Option, none, some, List, [], ◌∷◌, ◌++◌, leb, if◌then◌else◌,
  Outcome, ok, err, length, take, drop, replicate,
}
use isales_telephony.RingBuffer.{Bytes, Ring, RingError, put, get_nowait}

unfoldable pub frame_size : ℕ
frame_size = 320

-- the inner loop of `run_playback_pump`: whole frames out of `_accum`
unfoldable pub write_frames : ℕ → Bytes → List Bytes → Bytes × List Bytes
write_frames zero accum written = (accum, written)
write_frames (suc fuel) accum written =
    let rest = write_frames fuel (drop frame_size accum) (written ++ take frame_size accum ∷ []) in
    if leb frame_size (length accum) then rest else (accum, written)

-- one chunk in `run_playback_pump`; an empty one is skipped
unfoldable pub play_chunk : Bytes → Bytes × List Bytes → Bytes × List Bytes
play_chunk [] s = s
play_chunk (b ∷ chunk) (accum, written) =
    let more = accum ++ b ∷ chunk in write_frames (length more) more written

-- `run_playback_pump` on the chunks that the ring gives until it is closed
unfoldable pub run_playback_pump : List Bytes → Bytes × List Bytes → Bytes × List Bytes
run_playback_pump [] s = s
run_playback_pump (chunk ∷ chunks) s = run_playback_pump chunks (play_chunk chunk s)

-- How a pump ends: at the end of the capture's input, or by the exception of a closed ring.
pub data Ended : Type 0 where
  eof : Ended
  raised : RingError → Ended

abbrev pub captured : (Ring → Ring × Ended) → Ring → Outcome RingError Ring → Ring × Ended
captured go ring (ok more) = go more
captured go ring (err e) = (ring, raised e)

-- `run_capture_pump` on the chunks that the backend reads; an empty one is its end of file
unfoldable pub run_capture_pump : List Bytes → Ring → Ring × Ended
run_capture_pump [] upstream = (upstream, eof)
run_capture_pump ([] ∷ _) upstream = (upstream, eof)
run_capture_pump ((b ∷ chunk) ∷ chunks) upstream =
    captured (run_capture_pump chunks) upstream (put (b ∷ chunk) upstream)

-- the state of `run_duplex_pump`; `written` is what playback was given
pub record Duplex : Type 0 where
  pub upstream : Ring
  pub downstream : Ring
  pub pending : Bytes
  pub written : List Bytes

unfoldable pub silence : Bytes
silence = replicate frame_size 0

abbrev pub drained :
    (Ring → Bytes → Ring × Bytes) → Ring → Bytes → Option (Bytes × Ring) → Ring × Bytes
drained go ring pending none = (ring, pending)
drained go ring pending (some (out, rest)) = go rest (pending ++ out)

-- its inner loop: what the downstream ring has ready
unfoldable pub drain_ready : ℕ → Ring → Bytes → Ring × Bytes
drain_ready zero ring pending = (ring, pending)
drain_ready (suc fuel) ring pending = drained (drain_ready fuel) ring pending (get_nowait ring)

-- the frame to write, and what stays pending
unfoldable pub next_frame : Bytes → Bytes × Bytes
next_frame pending =
    if leb frame_size (length pending)
    then (take frame_size pending, drop frame_size pending)
    else (silence, pending)

-- one turn behind the read of `chunk` and its `put`
unfoldable pub duplex_write : Ring → Duplex → Duplex
duplex_write upstream s =
    let ready = drain_ready (length s.downstream.chunks + 1) s.downstream s.pending in
    let next = next_frame (ready.1) in
    record {
      upstream = upstream;
      downstream = ready.0;
      pending = next.1;
      written = s.written ++ next.0 ∷ [];
    }

abbrev pub duplex_then :
    (Duplex → Duplex × Ended) → Duplex → Outcome RingError Ring → Duplex × Ended
duplex_then go s (err e) = (s, raised e)
duplex_then go s (ok upstream) = go (duplex_write upstream s)

-- `run_duplex_pump`; before each read, the downstream ring is what the call's bridge left in it
unfoldable pub run_duplex_pump : List (Ring × Bytes) → Duplex → Duplex × Ended
run_duplex_pump [] s = (s, eof)
run_duplex_pump ((_, []) ∷ _) s = (s, eof)
run_duplex_pump ((downstream, b ∷ chunk) ∷ turns) s =
    duplex_then (run_duplex_pump turns) (record s { downstream = downstream })
      (put (b ∷ chunk) s.upstream)
