-- ===== src/Orchestrator/Calls.antt =====
-- `EdgeOrchestrator` of orchestrator.py: `_calls`, the handlers of cloud messages, the AT event
-- pump, and shutdown. The AT client is a parameter: `Env` and the
-- inputs say what it answers and what its event streams yield.
mod Store
unfoldable pub use Store.*
use Prim.Native.String.{String}
use isales_telephony.Base.{
  ℕ, zero, suc, Bool, true, false, Option, none, some, List, [], ◌∷◌, ◌++◌, ◌==◌, not, length,
  if◌then◌else◌,
}
use isales_telephony.Orchestrator.{
  Ctx, Env, Flow, listed, unlisted, raised, at_event_pump, ai_record, mic_capture, emit, dial_ack,
  connected_event, at_hangup, rtc_join, teardown, handle_remote_hangup, add_tasks, start_recording,
  network_error, handle_connected,
}

-- a new call with its AT event pump
unfoldable pub modem_call : ℕ → ℕ → Ctx
unfolding add_tasks
modem_call id modem_call_id =
    let c = record (emit dial_ack (new_ctx id modem_call_id true)) { pump_alive = true } in
    add_tasks (at_event_pump ∷ []) c

-- the tasks of `_on_dial_dev_no_modem` behind a successful join
unfoldable pub dev_tasks : Bool → Ctx → Ctx
dev_tasks no_mic c =
    let recorded = if c.recording then add_tasks (ai_record ∷ []) c else c in
    if no_mic then recorded else add_tasks (mic_capture ∷ []) recorded

-- `_on_dial_dev_no_modem`; an exception of the session factory leaves the call listed
unfoldable pub dial_dev : Option ℕ → Env → ℕ → Ctx × Flow
dial_dev recorder env id =
    let c = emit connected_event (emit dial_ack (new_ctx id 0 false)) in
    let tried = emit rtc_join (record c { rtc_session = true }) in
    if not env.bridge_built
    then (c, listed)
    else if env.joined
    then (dev_tasks env.no_mic (start_recording env.disk_free recorder tried), listed)
    else (handle_remote_hangup false network_error tried, unlisted)

abbrev pub listed_as : ℕ → Orch → Ctx × Flow → Orch
listed_as id o (c, listed) = list_call id c o
listed_as id o (c, unlisted) = forget_call c o
listed_as id o (c, raised) = list_call id c o

abbrev pub dialled_call : ℕ → Orch → Option ℕ → Orch
dialled_call id o none = record o { replies = o.replies ++ rejected id ∷ [] }
dialled_call id o (some m) = list_call id (modem_call id m) o

-- the part of `_on_dial` for a call that is not listed
unfoldable pub dial_new : Env → ℕ → Orch → Orch
dial_new env id o =
    if o.dev_no_modem
    then listed_as id o (dial_dev o.recorder env id)
    else dialled_call id o env.dialled

abbrev pub dial_known : Env → ℕ → Orch → Option ℕ → Orch
dial_known env id o (some h) = record o { replies = o.replies ++ duplicate id ∷ [] }
dial_known env id o none = dial_new env id o

-- `_on_dial`
unfoldable pub on_dial : Env → ℕ → Orch → Orch
on_dial env id o = dial_known env id o (lookup id o.calls)

-- put back the context at `h`
abbrev put : ℕ → Ctx → Orch → Orch
put h c o = record o { store = modify h (λ _. c) o.store }

-- `_handle_remote_hangup`, with the entry in `_calls`
unfoldable pub hang_up : Bool → String → ℕ → Ctx → Orch → Orch
hang_up in_pump cause h c o = if c.terminated then o else record o {
  calls = pop c.call_id o.calls;
  store = modify h (λ _. handle_remote_hangup in_pump cause c) o.store;
}

abbrev pub cancel_found : ℕ → Orch → Option Ctx → Orch
cancel_found h o none = o
cancel_found h o (some c) =
    if o.dev_no_modem then hang_up false "manual_hangup" h c o else put h (emit at_hangup c) o

abbrev pub cancel_listed : Orch → Option ℕ → Orch
cancel_listed o none = o
cancel_listed o (some h) = cancel_found h o (get h o.store)

-- `_on_cancel`; whether `at.hangup` raises makes no difference here
unfoldable pub on_cancel : ℕ → Orch → Orch
on_cancel id o = cancel_listed o (lookup id o.calls)

-- What the AT event stream of a call yields, or its end.
pub data AtEvent : Type 0 where
  connected : Env → AtEvent
  remote_hangup : String → AtEvent
  other : AtEvent
  stream_end : AtEvent

abbrev pub is_listed : Option ℕ → Bool
is_listed none = false
is_listed (some _) = true

-- the `finally` of `_pump_at_events`: the pump ends
unfoldable pub pump_finally : ℕ → Ctx → Orch → Orch
pump_finally h c o =
    if is_listed (lookup c.call_id o.calls)
    then record o {
      calls = pop c.call_id o.calls;
      store = modify h (λ _. record (teardown true c) { pump_alive = false }) o.store;
    }
    else put h (record c { pump_alive = false }) o

abbrev pub after_connected : ℕ → Orch → Ctx × Flow → Orch
after_connected h o (c, listed) = put h c o
after_connected h o (c, unlisted) = put h c (record o { calls = pop c.call_id o.calls })
after_connected h o (c, raised) = pump_finally h c o

-- `remote_hangup` in the pump: the hangup, unless one was sent before, then the end of the pump
abbrev pub hung_up : String → ℕ → Ctx → Orch → Orch
hung_up cause h c o =
    if c.terminated
    then pump_finally h c o
    else pump_finally h (handle_remote_hangup true cause c)
        (record o { calls = pop c.call_id o.calls })

-- One event in `_pump_at_events`. The stream yields `connected` once (`_urc_stream`).
unfoldable pub on_event : AtEvent → ℕ → Ctx → Orch → Orch
on_event (connected env) h c o =
    if c.connected_seen
    then o
    else after_connected h o (handle_connected o.recorder env (record c { connected_seen = true }))
on_event (remote_hangup cause) h c o = hung_up cause h c o
on_event other h c o = o
on_event stream_end h c o = pump_finally h c o

-- the pump of a context, if it runs
abbrev pub pump_found : AtEvent → ℕ → Orch → Option Ctx → Orch
pump_found e h o none = o
pump_found e h o (some c) = if c.pump_alive then on_event e h c o else o

unfoldable pub pump_step : AtEvent → ℕ → Orch → Orch
pump_step e h o = pump_found e h o (get h o.store)

abbrev pub with_found : (ℕ → Ctx → Orch → Orch) → ℕ → Orch → Option Ctx → Orch
with_found f h o none = o
with_found f h o (some c) = f h c o

-- one round of `stop`
unfoldable pub stop_call : ℕ → Ctx → Orch → Orch
stop_call h c o = record o {
  calls = pop c.call_id o.calls;
  store = modify h (λ _. teardown false c) o.store;
}

-- the loops of `stop` and of `dev_terminate_active_calls` over a snapshot of `_calls`
unfoldable pub for_calls : (ℕ → Ctx → Orch → Orch) → List (ℕ × ℕ) → Orch → Orch
for_calls f [] o = o
for_calls f ((id, h) ∷ rest) o = for_calls f rest (with_found f h o (get h o.store))

unfoldable pub stop : Orch → Orch
stop o = for_calls stop_call o.calls o

unfoldable pub dev_terminate_active_calls : Orch → Orch
dev_terminate_active_calls o = for_calls (hang_up false "dev_terminate") o.calls o

-- Everything that happens to the orchestrator, in the order in which it happens.
pub data Input : Type 0 where
  dial : Env → ℕ → Input
  cancel : ℕ → Input
  ignored : Input
  at_event : AtEvent → ℕ → Input
  dev_terminate : Input
  shut_down : Input

-- `_on_cloud_message`, the pumps and the daemon's shutdown
unfoldable pub step : Orch → Input → Orch
step o (dial env id) = on_dial env id o
step o (cancel id) = on_cancel id o
step o ignored = o
step o (at_event e h) = pump_step e h o
step o dev_terminate = dev_terminate_active_calls o
step o shut_down = stop o

unfoldable pub run : Orch → List Input → Orch
run o [] = o
run o (i ∷ is) = run (step o i) is

unfoldable pub new : Bool → Option ℕ → Orch
new dev_no_modem recorder = record {
  dev_no_modem = dev_no_modem;
  recorder = recorder;
  calls = [];
  store = [];
  replies = [];
}
