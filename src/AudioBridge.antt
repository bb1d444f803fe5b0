-- ===== src/AudioBridge.antt =====
-- isales_telephony/audio_bridge/bridge.py and resampler.py: the pump from the modem to the RTC
-- session (the other direction is in Downstream). The answers of the RTC session are arguments;
-- scipy's filter, with the rounding behind it, is the parameter `poly`.
pub mod Bridge
pub mod Windows
pub mod Downstream
pub mod Relaying
pub mod Serving
pub mod Sampling
pub mod Backpressure
mod Samples
use isales_telephony.Base.{
  ℕ, zero, suc, ◌+◌, ◌%◌, Bool, true, false, Option, none, some, List, [], ◌∷◌, ◌++◌, ◌==◌,
  if◌then◌else◌, length, Outcome, ok, err,
}
use isales_telephony.RingBuffer.{Bytes, Ring, RingError, put, Got, get, got, stop_iteration, waits}
use isales_telephony.Recorder.{Recorder, append_user}

-- `Resampler.resample`: none where it raises ValueError
unfoldable pub resample : (Bytes → Bytes) → ℕ → ℕ → Bytes → Option Bytes
resample poly src_rate dst_rate [] = some []
resample poly src_rate dst_rate (b ∷ pcm) =
    if length (b ∷ pcm) % 2 == 0
    then some (if src_rate == dst_rate then b ∷ pcm else poly (b ∷ pcm))
    else none

-- `_Stats`
pub record Stats : Type 0 where
  pub upstream_chunks : ℕ
  pub upstream_bytes : ℕ
  pub downstream_chunks : ℕ
  pub downstream_bytes : ℕ
  pub upstream_backpressure_events : ℕ
  pub downstream_uid_filtered : ℕ

-- Where `_upstream_loop` stands: before its `get`, in `push_audio`, or returned, with the chunk that
-- it held then.
pub data Phase : Type 0 where
  polling : Phase
  pushing : Bytes → Phase
  exited : List Bytes → Phase

-- The upstream side of a bridge; `taken` is the log of the resampled chunks and `sent` that of the
-- chunks that `push_audio` accepted.
pub record Upstream : Type 0 where
  pub modem_upstream : Ring
  pub phase : Phase
  pub stop_event : Bool
  pub stats : Stats
  pub recorder : Option (ℕ × Recorder)
  pub taken : List Bytes
  pub sent : List Bytes

-- What `push_audio` does: it returns, or raises RtcPushBackpressure, RtcNotJoined or another error.
pub data PushAnswer : Type 0 where
  accepted backpressure not_joined other_error : PushAnswer

pub data UpInput : Type 0 where
  modem_put : Bytes → UpInput
  resume set_stop cancel : UpInput
  answer : PushAnswer → UpInput

abbrev pub held : Phase → List Bytes
held polling = []
held (pushing pcm) = pcm ∷ []
held (exited lost) = lost

unfoldable pub exit : Upstream → Upstream
exit u = record u { phase = exited (held u.phase) }

abbrev pub on_resampled : Upstream → Option Bytes → Upstream
on_resampled u none = exit u
on_resampled u (some pcm) = record u { phase = pushing pcm; taken = u.taken ++ pcm ∷ [] }

abbrev pub is_empty : Bytes → Bool
is_empty [] = true
is_empty (_ ∷ _) = false

-- what follows the `get`; an empty chunk is passed over
abbrev pub on_got : (Bytes → Option Bytes) → Upstream → Got → Upstream
on_got up_resampler u (got chunk ring) =
    if is_empty chunk
    then record u { modem_upstream = ring }
    else on_resampled (record u { modem_upstream = ring }) (up_resampler chunk)
on_got up_resampler u stop_iteration = exit u
on_got up_resampler u waits = u

-- the call's recorder takes what was pushed
abbrev pub tap_user : Bytes → Option (ℕ × Recorder) → Option (ℕ × Recorder)
tap_user pcm none = none
tap_user pcm (some (call_id, r)) = some (call_id, append_user call_id pcm r)

unfoldable pub pushed : Bytes → Upstream → Upstream
pushed pcm u = record u {
  phase = polling;
  stats = record u.stats {
    upstream_chunks = u.stats.upstream_chunks + 1;
    upstream_bytes = u.stats.upstream_bytes + length pcm;
  };
  recorder = tap_user pcm u.recorder;
  sent = u.sent ++ pcm ∷ [];
}

-- the answer to a push; on backpressure the same chunk is pushed again
unfoldable pub on_answer : PushAnswer → Phase → Upstream → Upstream
on_answer accepted (pushing pcm) u = pushed pcm u
on_answer backpressure (pushing pcm) u = record u {
  stats = record u.stats {
    upstream_backpressure_events = u.stats.upstream_backpressure_events + 1;
  };
}
on_answer not_joined (pushing pcm) u = exit u
on_answer other_error (pushing pcm) u = exit u
on_answer a polling u = u
on_answer a (exited lost) u = u

-- the loop from its test of the stop event to its next await
unfoldable pub on_resume : (Bytes → Option Bytes) → Phase → Upstream → Upstream
on_resume up_resampler polling u =
    if u.stop_event then exit u else on_got up_resampler u (get u.modem_upstream)
on_resume up_resampler (pushing pcm) u = u
on_resume up_resampler (exited lost) u = u

abbrev with_ring : Upstream → Outcome RingError Ring → Upstream
with_ring u (ok ring) = record u { modem_upstream = ring }
with_ring u (err e) = u

-- `_upstream_loop` between two awaits, and what the other tasks do to it meanwhile
unfoldable pub upstream_step : (Bytes → Option Bytes) → UpInput → Upstream → Upstream
upstream_step up_resampler (modem_put chunk) u = with_ring u (put chunk u.modem_upstream)
upstream_step up_resampler resume u = on_resume up_resampler u.phase u
upstream_step up_resampler set_stop u = record u { stop_event = true }
upstream_step up_resampler cancel u = exit u
upstream_step up_resampler (answer a) u = on_answer a u.phase u

unfoldable pub upstream_loop : (Bytes → Option Bytes) → List UpInput → Upstream → Upstream
upstream_loop up_resampler [] u = u
upstream_loop up_resampler (i ∷ is) u =
    upstream_loop up_resampler is (upstream_step up_resampler i u)
