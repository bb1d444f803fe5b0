-- ===== src/AudioBridge/Samples.antt =====
-- A recorded call with one chunk of the modem and a frame of the session.
use isales_telephony.Base.{
  ℕ, ◌≡◌, refl, false, Option, none, some, true, codes, List, [], ◌∷◌, ◌++◌, arith, map,
}
use isales_telephony.RingBuffer.{Bytes, Ring, get, get_nowait, pop, put, evict, enqueue}
use isales_telephony.Recorder.{find, frombuffer}
use isales_telephony.AudioBridge.{
  resample, polling, Upstream, accepted, backpressure, modem_put, resume, set_stop, answer, UpInput,
  upstream_step, upstream_loop, on_resume, on_answer, exit, pushed,
}
use isales_telephony.AudioBridge.Downstream.{
  Frame, bits, tobytes, to_mono, stride, decimate, convert, Down, downstream_loop,
}
use isales_telephony.AudioBridge.Serving.{Stereo, frame_of, IsServed, downstream_loop-IsServed}
use isales_telephony.AudioBridge.Relaying.{IsRelayed, upstream_loop-IsRelayed}
use isales_telephony.AudioBridge.Sampling.{flat}
use isales_telephony.RtcSession.{blank, on_join, on_error}
use isales_telephony.RtcSession.Joining.{IsLive}
use isales_telephony.AudioBridge.Bridge.{
  BridgeInput, join as join_it, leave as leave_it, move, upstream_returns, new_bridge, bridge_run,
  IsPaired,
}
use isales_telephony.AudioBridge.Windows.{
  Move, JoinArgs, all_calm, reads_frame, pushes, windows_sessions, bridge_run-IsPaired,
}

abbrev chunk : Bytes
chunk = 1 ∷ 2 ∷ []

-- a filter that repeats what it gets
abbrev up_resampler : Bytes → Option Bytes
up_resampler pcm = resample (λ b. b ++ b) 8000 16000 pcm

abbrev ring : List Bytes → ℕ → Ring
ring chunks size = record {
  capacity = 64;
  chunks = chunks;
  size = size;
  closed = false;
  dropped_chunks = 0;
  dropped_bytes = 0;
}

abbrev start : Ring → Upstream
start r = record {
  modem_upstream = r;
  phase = polling;
  stop_event = false;
  stats = record {
    upstream_chunks = 0;
    upstream_bytes = 0;
    downstream_chunks = 0;
    downstream_bytes = 0;
    upstream_backpressure_events = 0;
    downstream_uid_filtered = 0;
  };
  recorder = some (
    7,
    record { min_free_bytes = 0; tracks = (7, record { user_chunks = []; ai_chunks = [] }) ∷ [] },
  );
  taken = [];
  sent = [];
}

abbrev inputs : List UpInput
inputs =
    resume
    ∷ modem_put chunk
    ∷ resume
    ∷ answer backpressure
    ∷ answer accepted
    ∷ set_stop
    ∷ resume
    ∷ []

pump_runs : (upstream_loop up_resampler inputs (start (ring [] 0))).sent ≡ (1 ∷ 2 ∷ 1 ∷ 2 ∷ []) ∷ []
unfolding upstream_loop upstream_step on_resume on_answer exit pushed resample get get_nowait pop
    put evict enqueue
pump_runs = refl

start-IsRelayed : IsRelayed (some []) (start (ring [] 0))
unfolding find
start-IsRelayed = record {
  relayed = refl;
  one_lost = omega arith;
  chunks = refl;
  bytes = refl;
  recorded = refl;
}

upstream_loop-IsRelayed_example :
    IsRelayed (some []) (upstream_loop up_resampler inputs (start (ring [] 0)))
upstream_loop-IsRelayed_example =
    upstream_loop-IsRelayed (some []) up_resampler inputs (start (ring [] 0)) start-IsRelayed

abbrev pairs : List (ℕ × ℕ)
pairs = (100, 300) ∷ (7, 8) ∷ (65535, 65533) ∷ (1, 1) ∷ []

abbrev frame : Frame
frame = record { sender_uid = 0; pcm = tobytes (flat pairs); sample_rate = 16000; channels = 2 }

-- 200, and the mean -2 of -1 and -3
frame_runs : convert (λ rate xs. xs) frame ≡ some (200 ∷ 0 ∷ 254 ∷ 255 ∷ [])
unfolding convert frombuffer bits tobytes to_mono stride decimate
frame_runs = refl

-- a frame of another participant, and the frame above
abbrev stereos : List Stereo
stereos =
    record { uid = 8; step = 0; pairs = [] } ∷ record { uid = 0; step = 1; pairs = pairs } ∷ []

abbrev down : Down
down = record {
  peer_uid = 5;
  modem_downstream = ring [] 0;
  stats = (start (ring [] 0)).stats;
  recorder = (start (ring [] 0)).recorder;
  running = true;
  played = [];
}

downstream_loop-IsServed_example :
    IsServed stereos down (downstream_loop (λ rate xs. xs) (map frame_of stereos) down)
downstream_loop-IsServed_example =
    downstream_loop-IsServed (λ rate xs. xs) stereos down refl refl (omega arith)

-- a join that the binding refuses, one that it takes, a second one, and the end of the call
abbrev asked : List (BridgeInput JoinArgs Move)
asked =
    join_it (codes "room", codes "token", codes "edge", record { fails = some 4; callbacks = [] })
    ∷ join_it (
      codes "room",
      codes "token",
      codes "edge",
      record { fails = none; callbacks = on_join 0 ∷ [] },
    )
    ∷ move (pushes none 5 (9 ∷ 8 ∷ []))
    ∷ join_it (
      codes "room",
      codes "token",
      codes "edge",
      record { fails = none; callbacks = on_error 7 ∷ [] },
    )
    ∷ upstream_returns
    ∷ move reads_frame
    ∷ leave_it
    ∷ []

bridge_run-IsPaired_example :
    IsPaired (windows_sessions 16000) (
      bridge_run
        (windows_sessions 16000)
        (new_bridge (blank (codes "app") (codes "gslb") 64))
        asked)
    × IsLive
        (bridge_run
          (windows_sessions 16000)
          (new_bridge (blank (codes "app") (codes "gslb") 64))
          asked).rtc
bridge_run-IsPaired_example =
    bridge_run-IsPaired 16000 (codes "app") (codes "gslb") 64 asked (unfold all_calm in refl)
