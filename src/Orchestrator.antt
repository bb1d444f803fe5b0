-- ===== src/Orchestrator.antt =====
-- isales_telephony/edge/orchestrator.py: the calls of one edge process.
-- Ids are numbers, as they are only compared. A call's context is an object that `_calls`, the AT
-- event pump and the pending handlers share: the contexts form a store, and `calls` names them by
-- their place in it. Each handler runs as one step, and what it awaits from outside answers as
-- `Env` says. The effects of a call are recorded in its context, in order.
pub mod Calls
pub mod Soundness
pub mod Connecting
pub mod Protocol
pub mod Freeing
pub mod Sound
pub mod Dials
pub mod Runs
pub mod Ownership
pub mod Ids
pub mod Begun
pub mod Leaks
pub mod Owning
pub mod Shutdown
pub mod Causes
pub mod Silence
pub mod Failures
mod Samples
use Prim.Native.String.{String}
use text.Mathlib.Text.{◌==◌ as str_eq}
use isales_telephony.Base.{
  ℕ, ◌+◌, Bool, true, false, Option, none, some, List, [], ◌∷◌, ◌++◌, ltb, not, ◌&&◌, if◌then◌else◌,
}

-- pb.HangupCause
pub data ProtoCause : Type 0 where
  unspecified no_answer user_busy network_out_of_order normal_clearing call_rejected : ProtoCause

-- `_HANGUP_CAUSE_TO_PROTO.get(cause, UNSPECIFIED)`
unfoldable pub to_proto : String → ProtoCause
to_proto cause =
    if str_eq cause "no_answer"
    then no_answer
    else if str_eq cause "user_busy"
    then user_busy
    else if str_eq cause "network_out_of_order"
    then network_out_of_order
    else if str_eq cause "normal_clearing"
    then normal_clearing
    else if str_eq cause "call_rejected"
    then call_rejected
    else if str_eq cause "user_hangup"
    then normal_clearing
    else if str_eq cause "manual_hangup"
    then normal_clearing
    else unspecified

-- The coroutines in `_CallContext.tasks`.
pub data Task : Type 0 where
  at_event_pump capture_pump playback_pump duplex_pump ai_record mic_capture : Task

-- What a call does to the world: frames for the cloud, AT commands, RTC, recorder, tasks, rings.
pub data Effect : Type 0 where
  dial_ack connected_event pcm_alert : Effect
  hangup_event : ProtoCause → String → Effect
  at_hangup cpcmreg_on cpcmreg_off : Effect
  bridge_join bridge_leave rtc_join rtc_leave : Effect
  begin_recording finalize_recording : Effect
  prune_recordings : ℕ → Effect
  start_task cancel_task : Task → Effect
  close_rings : Effect

-- `_CallContext`; `pump_alive` and `connected_seen` are the state of the task `_pump_at_events` and
-- of the AT event stream that it reads.
pub record Ctx : Type 0 where
  pub call_id : ℕ
  pub modem_call_id : ℕ
  pub has_at : Bool
  pub tasks : List Task
  pub bridge : Bool
  pub rings : Bool
  pub recording : Bool
  pub max_recordings : ℕ
  pub rtc_session : Bool
  pub cpcmreg_enabled : Bool
  pub terminated : Bool
  pub pump_alive : Bool
  pub connected_seen : Bool
  pub log : List Effect

abbrev pub emit : Effect → Ctx → Ctx
emit e c = record c { log = c.log ++ e ∷ [] }

abbrev pub is_pump : Task → Bool
is_pump at_event_pump = true
is_pump _ = false

-- The tasks that `teardown` cancels; `in_pump` says that it runs inside the AT event pump, the one
-- task that then is not cancelled.
abbrev pub cancelled : Bool → List Task → List Effect
cancelled in_pump [] = []
cancelled in_pump (t ∷ ts) =
    let rest = cancelled in_pump ts in if in_pump && is_pump t then rest else cancel_task t ∷ rest

-- a pump that is cancelled is gone
unfoldable pub stop_tasks : Bool → Ctx → Ctx
stop_tasks in_pump c = record c {
  log = c.log ++ cancelled in_pump c.tasks;
  tasks = [];
  pump_alive = c.pump_alive && in_pump;
}

unfoldable pub leave_bridge : Ctx → Ctx
leave_bridge c = if c.bridge then emit bridge_leave (record c { bridge = false }) else c

unfoldable pub finish_recording : Ctx → Ctx
finish_recording c =
    if c.recording
    then emit (prune_recordings c.max_recordings)
        (emit finalize_recording (record c { recording = false }))
    else c

unfoldable pub leave_rtc : Ctx → Ctx
leave_rtc c = if c.rtc_session then emit rtc_leave (record c { rtc_session = false }) else c

unfoldable pub disable_pcm : Ctx → Ctx
disable_pcm c =
    if c.cpcmreg_enabled && c.has_at
    then emit cpcmreg_off (record c { cpcmreg_enabled = false })
    else c

unfoldable pub drop_rings : Ctx → Ctx
drop_rings c = if c.rings then emit close_rings (record c { rings = false }) else c

-- `_CallContext.teardown`
unfoldable pub teardown : Bool → Ctx → Ctx
teardown in_pump c =
    drop_rings (disable_pcm (leave_rtc (finish_recording (leave_bridge (stop_tasks in_pump c)))))

-- `_handle_remote_hangup`, but for the entry in `_calls`; `cause or ""` is the argument
unfoldable pub handle_remote_hangup : Bool → String → Ctx → Ctx
handle_remote_hangup in_pump cause c =
    if c.terminated
    then c
    else teardown in_pump
        (emit (hangup_event (to_proto cause) cause) (record c { terminated = true }))

pub data PcmAnswer : Type 0 where
  pcm_enabled pcm_enable_error pcm_other_error : PcmAnswer

-- The answers of what a handler awaits or calls: `at.dial` (`none` if it raises), `cpcmreg_enable`,
-- `begin_call` (false: DiskFullError), the construction of session and bridge, `join`; whether the
-- cloud stream is up; `sys.platform == "win32"`; ISALES_DEV_NO_MIC_CAPTURE.
pub record Env : Type 0 where
  pub dialled : Option ℕ
  pub pcm : PcmAnswer
  pub disk_free : Bool
  pub bridge_built : Bool
  pub joined : Bool
  pub stream_up : Bool
  pub windows : Bool
  pub no_mic : Bool

-- How a handler leaves its call: listed in `_calls` or not, or by an exception.
pub data Flow : Type 0 where
  listed unlisted raised : Flow

unfoldable pub add_tasks : List Task → Ctx → Ctx
add_tasks [] c = c
add_tasks (t ∷ ts) c = add_tasks ts (emit (start_task t) (record c { tasks = c.tasks ++ t ∷ [] }))

-- recording starts if there is a recorder, some recordings are kept, and the disk has room
unfoldable pub start_recording : Bool → Option ℕ → Ctx → Ctx
start_recording disk_free none c = c
start_recording disk_free (some kept) c =
    if ltb 0 kept && disk_free
    then emit begin_recording (record c { recording = true; max_recordings = kept })
    else c

abbrev pump_tasks : Bool → List Task
pump_tasks windows = if windows then duplex_pump ∷ [] else capture_pump ∷ playback_pump ∷ []

unfoldable pub network_error : String
network_error = "network_out_of_order"

-- the end of `_handle_connected`: `bridge.join`, then the pumps
unfoldable pub join_bridge : Env → Ctx → Ctx × Flow
join_bridge env c =
    let tried = emit bridge_join (record c { bridge = true; rings = true }) in
    if env.joined
    then (add_tasks (pump_tasks env.windows) tried, listed)
    else (handle_remote_hangup true network_error tried, unlisted)

unfoldable pub build_audio : Option ℕ → Env → Ctx → Ctx × Flow
build_audio recorder env c =
    let begun = start_recording env.disk_free recorder c in
    if env.bridge_built then join_bridge env begun else (begun, raised)

-- The alert is sent as critical, and raises while the stream is down.
unfoldable pub pcm_failed : Env → Ctx → Ctx × Flow
pcm_failed env c =
    if env.stream_up
    then (emit at_hangup (handle_remote_hangup true network_error (emit pcm_alert c)), unlisted)
    else (c, raised)

abbrev pub after_pcm : Option ℕ → Env → PcmAnswer → Ctx → Ctx × Flow
after_pcm recorder env pcm_enabled c =
    build_audio recorder env (emit cpcmreg_on (record c { cpcmreg_enabled = true }))
after_pcm recorder env pcm_enable_error c = pcm_failed env c
after_pcm recorder env pcm_other_error c = (c, raised)

-- `_handle_connected`
unfoldable pub handle_connected : Option ℕ → Env → Ctx → Ctx × Flow
handle_connected recorder env c = after_pcm recorder env env.pcm (emit connected_event c)
