-- ===== src/Orchestrator/Dials.antt =====
-- The calls that `_on_dial` of orchestrator.py begins.
use isales_telephony.Base.{
  ℕ, ◌≡◌, refl, sym, ◌∙◌, Bool, true, false, Option, List, [], ◌∷◌, if◌then◌else◌, Bool-cases, inl,
  inr,
}
use isales_telephony.Orchestrator.{
  Ctx, Env, Task, unlisted, emit, dial_ack, ai_record, mic_capture, connected_event, rtc_join,
  start_recording, handle_remote_hangup, add_tasks, network_error,
}
use isales_telephony.Orchestrator.Protocol.{held_step, replay, hangups, Reached}
use isales_telephony.Orchestrator.Soundness.{
  IsSettled, hangup-IsSettled, hangup_pump, open-IsSettled, add_tasks-IsSettled, clash,
}
use isales_telephony.Orchestrator.Connecting.{start_recording-Reached}
use isales_telephony.Orchestrator.Calls.{new_ctx, modem_call, dial_dev, dev_tasks}
use isales_telephony.Orchestrator.Silence.{hangup_terminated}
use isales_telephony.Orchestrator.Ownership.{IsFree}
use isales_telephony.Orchestrator.Ids.{hangup_id, add_tasks_id, start_recording_id, ended-IsFree}
use isales_telephony.Orchestrator.Sound.{IsSound, dead-IsSound}

pub modem_call-IsSound : (id modem_call_id : ℕ) → IsSound (modem_call id modem_call_id)
unfolding modem_call new_ctx replay held_step hangups
modem_call-IsSound id m = record {
  settled = record {
    replayed = refl;
    once = refl;
    modem = λ q. clash (sym q);
    freed = λ q. clash (sym q);
    seen_so = refl;
  };
  fresh = λ _ _. (refl, refl, refl);
}

add_tasks_pump : (ts : List Task) (c : Ctx) → (add_tasks ts c).pump_alive ≡ c.pump_alive
unfolding add_tasks
add_tasks_pump [] c = refl
add_tasks_pump (t ∷ ts) c = add_tasks_pump ts _

add_tasks_terminated : (ts : List Task) (c : Ctx) → (add_tasks ts c).terminated ≡ c.terminated
unfolding add_tasks
add_tasks_terminated [] c = refl
add_tasks_terminated (t ∷ ts) c = add_tasks_terminated ts _

module _ (id : ℕ) where
  abbrev answered : Ctx
  answered = emit connected_event (emit dial_ack (new_ctx id 0 false))

  abbrev tried : Ctx
  tried = emit rtc_join (record answered { rtc_session = true })

  answered-Reached : Reached false false false false 0 (new_ctx id 0 false) answered
  unfolding new_ctx replay held_step hangups
  answered-Reached = record {
    replayed = refl;
    counted = refl;
    pcm = refl;
    bridge = refl;
    recording = refl;
    rtc = refl;
    frame = (refl, refl, refl, refl, refl);
  }

  tried-Reached : Reached false false false true 0 (new_ctx id 0 false) tried
  unfolding new_ctx replay held_step hangups
  tried-Reached = record {
    replayed = refl;
    counted = refl;
    pcm = refl;
    bridge = refl;
    recording = refl;
    rtc = refl;
    frame = (refl, refl, refl, refl, refl);
  }

-- a running call that has no AT event pump
abbrev IsQuiet : Bool → Ctx → Type 0
IsQuiet s c = IsSettled s c × (c.terminated ≡ false) × (c.pump_alive ≡ false)

add_tasks-IsQuiet : {s : Bool} (ts : List Task) (c : Ctx) → IsQuiet s c → IsQuiet s (add_tasks ts c)
add_tasks-IsQuiet ts c (h, o, quiet) =
    (add_tasks-IsSettled ts c o h, add_tasks_terminated ts c ∙ o, add_tasks_pump ts c ∙ quiet)

if-IsQuiet :
    {s : Bool} (b : Bool) (c d : Ctx) → IsQuiet s c → IsQuiet s d → IsQuiet s (if b then c else d)
if-IsQuiet true c d p q = p
if-IsQuiet false c d p q = q

dev_tasks-IsQuiet :
    {s : Bool} (no_mic : Bool) (c : Ctx) → IsQuiet s c → IsQuiet s (dev_tasks no_mic c)
unfolding dev_tasks
dev_tasks-IsQuiet no_mic c h =
    let recorded =
      if-IsQuiet c.recording (add_tasks (ai_record ∷ []) c) c
        (add_tasks-IsQuiet (ai_record ∷ []) c h) h in
    if-IsQuiet no_mic _ _ recorded (add_tasks-IsQuiet (mic_capture ∷ []) _ recorded)

quiet-IsSound : {s : Bool} {c : Ctx} → IsQuiet s c → IsSound c
quiet-IsSound {c = c} h = dead-IsSound c (h.0) (h.2)

pub dial_dev-IsSound :
    (recorder : Option ℕ) (env : Env) (id : ℕ) → IsSound (dial_dev recorder env id).0
unfolding dial_dev new_ctx
dial_dev-IsSound recorder env id = elim (Bool-cases env.bridge_built) [
  | inr q ↦ simp q (
      dead-IsSound (answered id) (open-IsSettled (answered-Reached id) refl (λ e. clash (sym e)))
        refl)
  | inl q ↦ elim (Bool-cases env.joined) [
    | inr k ↦
        simp (q, k)
          (dead-IsSound (handle_remote_hangup false network_error (tried id))
            (hangup-IsSettled false network_error (tried id) running)
            (hangup_pump false network_error (tried id) running refl))
    | inl k ↦
        simp (q, k)
          (quiet-IsSound (
            dev_tasks-IsQuiet env.no_mic _ (
              open-IsSettled (begun.1) refl (λ e. clash (sym e)),
              begun.1.frame.0,
              begun.1.frame.3,
            )))
  ]
]
  where
    running : IsSettled false (tried id)
    running = open-IsSettled (tried-Reached id) refl (λ e. clash (sym e))

    begun :
        (r : Bool) × Reached false false r true 0
          (new_ctx id 0 false)
          (start_recording env.disk_free recorder (tried id))
    begun = start_recording-Reached env.disk_free recorder (tried id) refl (tried-Reached id)

if_id : (b : Bool) (c d : Ctx) → d.call_id ≡ c.call_id → (if b then d else c).call_id ≡ c.call_id
if_id true c d e = e
if_id false c d e = refl

recorded_id :
    (c : Ctx) → (if c.recording then add_tasks (ai_record ∷ []) c else c).call_id ≡ c.call_id
recorded_id c = if_id c.recording c _ (add_tasks_id (ai_record ∷ []) c)

dev_tasks_id : (no_mic : Bool) (c : Ctx) → (dev_tasks no_mic c).call_id ≡ c.call_id
unfolding dev_tasks
dev_tasks_id true c = recorded_id c
dev_tasks_id false c = add_tasks_id (mic_capture ∷ []) _ ∙ recorded_id c

-- the context of a call without a modem has the call's id, and is free if it is not listed
pub dial_dev_id :
    (recorder : Option ℕ) (env : Env) (id : ℕ) → (dial_dev recorder env id).0.call_id ≡ id
unfolding dial_dev new_ctx
dial_dev_id recorder env id = elim (Bool-cases env.bridge_built) [
  | inr q ↦ simp q refl
  | inl q ↦ elim (Bool-cases env.joined) [
    | inr k ↦ simp (q, k) (hangup_id false network_error (tried id))
    | inl k ↦
        simp (q, k)
          (dev_tasks_id env.no_mic _ ∙ start_recording_id env.disk_free recorder (tried id))
  ]
]

pub dial_dev-IsFree :
    (recorder : Option ℕ) (env : Env) (id : ℕ)
    → (dial_dev recorder env id).1 ≡ unlisted
    → IsFree (dial_dev recorder env id).0
unfolding dial_dev new_ctx
dial_dev-IsFree recorder env id = elim (Bool-cases env.bridge_built) [
  | inr q ↦ simp q (λ e. cc)
  | inl q ↦ elim (Bool-cases env.joined) [
    | inr k ↦
        simp (q, k)
          (λ e.
            ended-IsFree _ (hangup-IsSettled false network_error (tried id) running)
              (hangup_terminated false network_error (tried id))
              (λ p. clash (sym p ∙ hangup_pump false network_error (tried id) running refl)))
    | inl k ↦ simp (q, k) (λ e. cc)
  ]
]
  where
    running : IsSettled false (tried id)
    running = open-IsSettled (tried-Reached id) refl (λ e. clash (sym e))
