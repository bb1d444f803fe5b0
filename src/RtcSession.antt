-- ===== src/RtcSession.antt =====
-- isales_telephony/audio_bridge/windows_dingrtc_session.py: the RTC session of a call on the Windows
-- edge. The binding `dingrtc_pywrap` is a parameter: which of its calls raises, what it calls back
-- during a join, and which frames its ring buffer drains. The calls made to it stand in a log.
pub mod Audio
pub mod Joining
pub mod Lifecycle
pub mod Cutting
pub mod Slicing
pub mod Queueing
pub mod Inbound
pub mod Ending
mod Samples
use isales_telephony.Base.{
  ℕ, zero, suc, ◌+◌, ◌-◌, ◌*◌, ◌/◌, Bool, true, false, Option, none, some, List, [], ◌∷◌, ◌++◌, ltb,
  leb, ◌==◌, not, ◌&&◌, ◌||◌, if◌then◌else◌, Outcome, ok, err, length, take, drop, replicate, Text,
}

abbrev pub Bytes : Type 0
Bytes = List ℕ

-- `PcmFrame`
pub record PcmFrame : Type 0 where
  pub sender_uid : Text
  pub pcm : Bytes
  pub sample_rate : ℕ
  pub channels : ℕ
  pub timestamp_ms : ℕ

-- what is in `_frame_queue`; `_DRAINER_SENTINEL` is told by its identity
pub data Item : Type 0 where
  audio : PcmFrame → Item
  drainer_sentinel : Item

-- The calls of the binding, by their names there; `new_engine` is the constructor `EngineHandle()`.
pub data SdkCall : Type 0 where
  new_engine create set_event_listener register_audio_observer enable_audio_frame_observer : SdkCall
  enable_custom_audio_capture publish_local_audio_stream publish_local_video_stream : SdkCall
  subscribe_all_remote_audio_streams : SdkCall
  set_external_audio_source : ℕ → ℕ → SdkCall
  join_channel : Text → Text → Text → Text → Text → SdkCall
  leave_channel unregister_audio_observer destroy clear_callbacks : SdkCall
  push_external_audio : Bytes → ℕ → ℕ → ℕ → SdkCall

pub data SessionError : Type 0 where
  value_error already_joined is_closed setup_failed timed_out : SessionError
  sdk_error bad_result : ℕ → SessionError
  not_joined rate_unset range_error push_failed was_cancelled : SessionError

-- The generator `audio_frames`: not yet asked, running, or at its end.
pub data Reader : Type 0 where
  fresh reading finished : Reader

-- `engine`, `listener` and `buffer` (with the observer) say whether these are set; `received` is
-- what the generator has yielded, and `drained` what the binding's buffer has given.
pub record Session : Type 0 where
  pub app_id : Text
  pub gslb_server : Text
  pub inbound_capacity : ℕ
  pub engine : Bool
  pub listener : Bool
  pub buffer : Bool
  pub joined : Bool
  pub closed : Bool
  pub send_sample_rate : ℕ
  pub send_channels : ℕ
  pub frame_queue : Option (List Item)
  pub drainer_task : Bool
  pub reader : Reader
  pub log : List SdkCall
  pub received : List PcmFrame
  pub drained : List PcmFrame

unfoldable pub blank : Text → Text → ℕ → Session
blank app_id gslb_server inbound_capacity = record {
  app_id = app_id;
  gslb_server = gslb_server;
  inbound_capacity = inbound_capacity;
  engine = false;
  listener = false;
  buffer = false;
  joined = false;
  closed = false;
  send_sample_rate = 16000;
  send_channels = 1;
  frame_queue = none;
  drainer_task = false;
  reader = fresh;
  log = [];
  received = [];
  drained = [];
}

-- `__init__`
unfoldable pub new : Text → Text → ℕ → Outcome SessionError Session
new [] gslb_server inbound_capacity = err value_error
new (c ∷ app_id) gslb_server inbound_capacity = ok (blank (c ∷ app_id) gslb_server inbound_capacity)

-- `asyncio.Queue.full`; a queue of size 0 has no bound
abbrev pub is_full : ℕ → List Item → Bool
is_full maxsize q = ltb 0 maxsize && leb maxsize (length q)

abbrev pub queue_size : Session → ℕ
queue_size s = s.inbound_capacity * 2

-- the sentinel of `_teardown_partial`; `QueueFull` is suppressed
unfoldable pub woken : ℕ → Option (List Item) → Option (List Item)
woken maxsize none = none
woken maxsize (some q) = some (if is_full maxsize q then q else q ++ drainer_sentinel ∷ [])

abbrev pub said : Bool → List SdkCall → List SdkCall
said true calls = calls
said false calls = []

-- `_teardown_partial`; what the binding raises here is suppressed
unfoldable pub teardown_partial : Session → Session
teardown_partial s = record s {
  drainer_task = false;
  engine = false;
  listener = false;
  buffer = false;
  log =
      s.log
      ++ (said s.engine (unregister_audio_observer ∷ destroy ∷ [])
          ++ said s.listener (clear_callbacks ∷ []));
  frame_queue = woken (queue_size s) s.frame_queue;
}

-- what the binding calls back while a join waits, or the cancellation of the task that waits
pub data Callback : Type 0 where
  on_join : ℕ → Callback
  on_error : ℕ → Callback
  task_cancelled : Callback

-- Which of the setup's calls raises `DingRtcError`, counted from 0, and the callbacks that come
-- before the timeout, or the cancellation.
pub record JoinEnv : Type 0 where
  pub fails : Option ℕ
  pub callbacks : List Callback

-- the calls made of a list of them, of which one may raise, and whether it did
unfoldable pub made : Option ℕ → List SdkCall → List SdkCall × Bool
made none calls = (calls, false)
made (some k) calls = if ltb k (length calls) then (take (suc k) calls, true) else (calls, false)

unfoldable pub setup_calls : Text → Text → Text → Session → List SdkCall
setup_calls channel token uid s =
    create
    ∷ set_event_listener
    ∷ register_audio_observer
    ∷ enable_audio_frame_observer
    ∷ enable_custom_audio_capture
    ∷ set_external_audio_source s.send_sample_rate s.send_channels
    ∷ publish_local_audio_stream
    ∷ publish_local_video_stream
    ∷ subscribe_all_remote_audio_streams
    ∷ join_channel channel uid s.app_id token s.gslb_server
    ∷ []

-- the drainer starts
unfoldable pub started : Session → Session
started s = record s { frame_queue = some []; drainer_task = true; joined = true }

-- The join's future takes the first callback; result codes are read as unsigned. No clause catches
-- the CancelledError, so the engine stays as it was set up, and nothing is torn down. Nothing else
-- runs on the session during the wait.
unfoldable pub await_join : List Callback → Session → Session × Option SessionError
await_join [] s = (teardown_partial s, some timed_out)
await_join (task_cancelled ∷ _) s = (s, some was_cancelled)
await_join (on_error code ∷ _) s = (teardown_partial s, some (sdk_error code))
await_join (on_join zero ∷ _) s = (started s, none)
await_join (on_join (suc code) ∷ _) s = (teardown_partial s, some (bad_result (suc code)))

abbrev pub set_up : List Callback → Session → List SdkCall × Bool → Session × Option SessionError
set_up callbacks s (calls, true) =
    (record s { log = s.log ++ new_engine ∷ (calls ++ destroy ∷ []) }, some setup_failed)
set_up callbacks s (calls, false) =
    await_join callbacks (record s {
      log = s.log ++ new_engine ∷ calls;
      engine = true;
      listener = true;
      buffer = true;
    })

-- `join`
unfoldable pub join_session :
    Text → Text → Text → ℕ → ℕ → JoinEnv → Session → Session × Option SessionError
join_session channel token uid rate channels env s =
    let asked = record s { send_sample_rate = rate; send_channels = channels } in
    if s.joined
    then (s, some already_joined)
    else if s.closed
    then (s, some is_closed)
    else set_up env.callbacks asked (made env.fails (setup_calls channel token uid asked))

-- `leave`
unfoldable pub leave_session : Session → Session
leave_session s =
    let gone = record s { log = s.log ++ said s.engine (leave_channel ∷ []) } in
    if not s.joined && s.closed
    then s
    else record (teardown_partial gone) { joined = false; closed = true }
