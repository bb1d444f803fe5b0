-- ===== src/RtcSession/Audio.antt =====
-- windows_dingrtc_session.py: the frames that come in and go out, and the session as a whole.
use isales_telephony.Base.{
  ℕ, zero, suc, ◌+◌, ◌-◌, ◌*◌, ◌/◌, Bool, true, false, Option, none, some, List, [], ◌∷◌, ◌++◌,
  ◌==◌, not, ◌&&◌, ◌||◌, if◌then◌else◌, length, take, drop, replicate, Text,
}
use isales_telephony.RtcSession.{
  Bytes, PcmFrame, Item, audio, drainer_sentinel, SdkCall, push_external_audio, SessionError,
  not_joined, rate_unset, range_error, push_failed, Reader, fresh, reading, finished, Session,
  is_full, queue_size, made, Callback, on_join, on_error, task_cancelled, JoinEnv, join_session,
  leave_session,
}

-- A frame of the binding, whose attributes may be missing (`getattr(..., default)`), and none of
-- which may be `None` but the sender.
pub record RawFrame : Type 0 where
  pub remote_uid : Option Text
  pub pcm : Option Bytes
  pub sample_rate : Option ℕ
  pub channels : Option ℕ
  pub timestamp : Option ℕ

-- `getattr(raw, name, ...) or default`
abbrev or_default : ℕ → Option ℕ → ℕ
or_default d none = d
or_default d (some zero) = d
or_default d (some (suc n)) = suc n

abbrev or_empty : Option (List ℕ) → List ℕ
or_empty none = []
or_empty (some t) = t

unfoldable pub pcm_frame : RawFrame → PcmFrame
pcm_frame raw = record {
  sender_uid = or_empty raw.remote_uid;
  pcm = or_empty raw.pcm;
  sample_rate = or_default 16000 raw.sample_rate;
  channels = or_default 1 raw.channels;
  timestamp_ms = or_default 0 raw.timestamp;
}

-- `put_nowait`, and where the queue is full, `get_nowait` first: the oldest frame goes
unfoldable pub put_newest : ℕ → Item → List Item → List Item
put_newest maxsize x q = (if is_full maxsize q then drop 1 q else q) ++ x ∷ []

abbrev pub put_frame : ℕ → PcmFrame → Option (List Item) → Option (List Item)
put_frame maxsize f none = none
put_frame maxsize f (some q) = some (put_newest maxsize (audio f) q)

-- the frames of one `drain` in `_drain_loop`
unfoldable pub drain_frames : List RawFrame → Session → Session
drain_frames [] s = s
drain_frames (raw ∷ more) s = drain_frames more (record s {
  frame_queue = put_frame (queue_size s) (pcm_frame raw) s.frame_queue;
  drained = s.drained ++ pcm_frame raw ∷ [];
})

-- one turn of `_drain_loop`, if its task runs
unfoldable pub drain_turn : List RawFrame → Session → Session
drain_turn raws s = if s.drainer_task then drain_frames raws s else s

-- what `queue.get` gives to `audio_frames`; on an empty queue it waits
unfoldable pub take_frame : Option (List Item) → Session → Session
take_frame none s = s
take_frame (some []) s = record s { reader = reading }
take_frame (some (drainer_sentinel ∷ q)) s = record s { frame_queue = some q; reader = finished }
take_frame (some (audio f ∷ q)) s = record s {
  frame_queue = some q;
  reader = reading;
  received = s.received ++ f ∷ [];
}

abbrev pub has_queue : Option (List Item) → Bool
has_queue none = false
has_queue (some _) = true

-- One `__anext__` of `audio_frames`; the first one raises `RtcNotJoined` where the session is not
-- joined, and a generator that has raised or returned yields no more.
abbrev pub read_as : Reader → Session → Session
read_as fresh s =
    if s.joined && has_queue s.frame_queue
    then take_frame s.frame_queue s
    else record s { reader = finished }
read_as reading s = take_frame s.frame_queue s
read_as finished s = s

unfoldable pub read_frame : Session → Session
read_frame s = read_as s.reader s

-- `(rate // 100) * channels * 2`
unfoldable pub frame_size : ℕ → ℕ → ℕ
frame_size rate channels = rate / 100 * channels * 2

-- the last frame is padded
unfoldable pub padded : ℕ → Bytes → Bytes
padded size frame = frame ++ replicate (size - length frame) 0

-- the loop of `push_audio`, on fuel for each byte
unfoldable pub frames_of : ℕ → ℕ → ℕ → ℕ → ℕ → Bytes → List SdkCall
frames_of zero size rate channels ts pcm = []
frames_of (suc fuel) size rate channels ts [] = []
frames_of (suc fuel) size rate channels ts (b ∷ pcm) =
    push_external_audio (padded size (take size (b ∷ pcm))) rate channels ts
    ∷ frames_of fuel size rate channels (ts + 10) (drop size (b ∷ pcm))

abbrev pub pushed : Session → List SdkCall × Bool → Session × Option SessionError
pushed s (calls, true) = (record s { log = s.log ++ calls }, some push_failed)
pushed s (calls, false) = (record s { log = s.log ++ calls }, none)

-- the pushes; `range` refuses a step of 0
unfoldable pub push_frames : Option ℕ → ℕ → Bytes → Session → Session × Option SessionError
push_frames fails ts pcm s =
    let size = frame_size s.send_sample_rate s.send_channels in
    if size == 0
    then (s, some range_error)
    else pushed s
        (made fails (frames_of (length pcm) size s.send_sample_rate s.send_channels ts pcm))

abbrev pub is_nil : Bytes → Bool
is_nil [] = true
is_nil (_ ∷ _) = false

-- `push_audio`; `fails` says which frame's push raises. Nothing else runs on the session while it
-- sleeps between two frames.
unfoldable pub push_audio : Option ℕ → ℕ → Bytes → Session → Session × Option SessionError
push_audio fails ts pcm s =
    if not (s.joined && s.engine)
    then (s, some not_joined)
    else if s.send_sample_rate == 0 || s.send_channels == 0
    then (s, some rate_unset)
    else if is_nil pcm
    then (s, none)
    else push_frames fails ts pcm s

-- What happens to a session, in its order.
pub data Input : Type 0 where
  join : Text → Text → Text → ℕ → ℕ → JoinEnv → Input
  leave : Input
  drain : List RawFrame → Input
  read : Input
  push : Option ℕ → ℕ → Bytes → Input

abbrev pub wait_cancelled : List Callback → Bool
wait_cancelled (task_cancelled ∷ _) = true
wait_cancelled (on_join _ ∷ _) = false
wait_cancelled (on_error _ ∷ _) = false
wait_cancelled [] = false

-- No join of this is cancelled while it waits.
abbrev pub is_calm : Input → Bool
is_calm (join channel token uid rate channels env) = not (wait_cancelled env.callbacks)
is_calm leave = true
is_calm (drain raws) = true
is_calm read = true
is_calm (push fails ts pcm) = true

unfoldable pub all_calm : List Input → Bool
all_calm [] = true
all_calm (i ∷ is) = is_calm i && all_calm is

unfoldable pub step : Session → Input → Session
step s (join channel token uid rate channels env) =
    (join_session channel token uid rate channels env s).0
step s leave = leave_session s
step s (drain raws) = drain_turn raws s
step s read = read_frame s
step s (push fails ts pcm) = (push_audio fails ts pcm s).0

unfoldable pub run : Session → List Input → Session
run s [] = s
run s (i ∷ is) = run (step s i) is
