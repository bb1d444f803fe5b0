-- ===== src/Orchestrator/Ids.antt =====
-- A call's context keeps its call id, whatever orchestrator.py does with it; and what a context
-- holds that has ended.
use Prim.Native.String.{String}
use isales_telephony.Base.{
  ℕ, ◌≡◌, refl, sym, ◌∙◌, Bool, true, false, Option, none, some, List, [], ◌∷◌, arith, Bool-cases,
  inl, inr,
}
use isales_telephony.Orchestrator.{
  Ctx, Env, Flow, Task, unlisted, emit, stop_tasks, leave_bridge, finish_recording, leave_rtc,
  disable_pcm, drop_rings, teardown, handle_remote_hangup, add_tasks, start_recording, join_bridge,
  build_audio, pcm_failed, PcmAnswer, pcm_enabled, pcm_enable_error, pcm_other_error, after_pcm,
  handle_connected, connected_event, network_error, pcm_alert,
}
use isales_telephony.Orchestrator.Silence.{hangup_terminated}
use isales_telephony.Orchestrator.Freeing.{teardown-Reached}
use isales_telephony.Orchestrator.Soundness.{IsSettled, reached, held-eq, clash}
use isales_telephony.Orchestrator.Ownership.{IsFree}

module _ (c : Ctx) where
  leave_bridge_id : (leave_bridge c).call_id ≡ c.call_id
  unfolding leave_bridge
  leave_bridge_id = ground arith

  finish_recording_id : (finish_recording c).call_id ≡ c.call_id
  unfolding finish_recording
  finish_recording_id = ground arith

  leave_rtc_id : (leave_rtc c).call_id ≡ c.call_id
  unfolding leave_rtc
  leave_rtc_id = ground arith

  disable_pcm_id : (disable_pcm c).call_id ≡ c.call_id
  unfolding disable_pcm
  disable_pcm_id = ground arith

  drop_rings_id : (drop_rings c).call_id ≡ c.call_id
  unfolding drop_rings
  drop_rings_id = ground arith

pub teardown_id : (k : Bool) (c : Ctx) → (teardown k c).call_id ≡ c.call_id
unfolding teardown stop_tasks
teardown_id k c =
    drop_rings_id _ ∙ disable_pcm_id _ ∙ leave_rtc_id _ ∙ finish_recording_id _ ∙ leave_bridge_id _

pub hangup_id :
    (k : Bool) (cause : String) (c : Ctx) → (handle_remote_hangup k cause c).call_id ≡ c.call_id
unfolding handle_remote_hangup
hangup_id k cause c = elim (Bool-cases c.terminated) [
  | inl o ↦ simp o refl
  | inr o ↦ simp o (teardown_id k _)
]

pub add_tasks_id : (ts : List Task) (c : Ctx) → (add_tasks ts c).call_id ≡ c.call_id
unfolding add_tasks
add_tasks_id [] c = refl
add_tasks_id (t ∷ ts) c = add_tasks_id ts _

pub start_recording_id :
    (disk_free : Bool) (recorder : Option ℕ) (c : Ctx)
    → (start_recording disk_free recorder c).call_id ≡ c.call_id
unfolding start_recording
start_recording_id disk_free none c = refl
start_recording_id disk_free (some kept) c = ground arith

join_bridge_id : (env : Env) (c : Ctx) → (join_bridge env c).0.call_id ≡ c.call_id
unfolding join_bridge
join_bridge_id env c = elim (Bool-cases env.joined) [
  | inl o ↦ rw o (add_tasks_id _ _)
  | inr o ↦ rw o (hangup_id true network_error _)
]

build_audio_id :
    (recorder : Option ℕ) (env : Env) (c : Ctx) → (build_audio recorder env c).0.call_id ≡ c.call_id
unfolding build_audio
build_audio_id recorder env c = elim (Bool-cases env.bridge_built) [
  | inl o ↦ simp o (
      join_bridge_id env (start_recording env.disk_free recorder c)
      ∙ start_recording_id env.disk_free recorder c)
  | inr o ↦ simp o (start_recording_id env.disk_free recorder c)
]

pcm_failed_id : (env : Env) (c : Ctx) → (pcm_failed env c).0.call_id ≡ c.call_id
unfolding pcm_failed
pcm_failed_id env c = elim (Bool-cases env.stream_up) [
  | inl o ↦ rw o (hangup_id true network_error _)
  | inr o ↦ rw o refl
]

pub handle_connected_id :
    (recorder : Option ℕ) (env : Env) (c : Ctx)
    → (handle_connected recorder env c).0.call_id ≡ c.call_id
unfolding handle_connected
handle_connected_id recorder env c = answered env.pcm
  where
    answered :
        (p : PcmAnswer) → (after_pcm recorder env p (emit connected_event c)).0.call_id ≡ c.call_id
    answered pcm_enabled = build_audio_id recorder env _
    answered pcm_enable_error = pcm_failed_id env _
    answered pcm_other_error = refl

-- the context of a call that its handler has taken off the list is terminated
abbrev EndsUnlisted : Ctx × Flow → Type 0
EndsUnlisted r = r.1 ≡ unlisted → r.0.terminated ≡ true

join-EndsUnlisted : (env : Env) (c : Ctx) → EndsUnlisted (join_bridge env c)
unfolding join_bridge
join-EndsUnlisted env c = elim (Bool-cases env.joined) [
  | inl o ↦ rw o (λ e. cc)
  | inr o ↦ rw o (λ e. hangup_terminated true network_error _)
]

pcm_failed-EndsUnlisted : (env : Env) (c : Ctx) → EndsUnlisted (pcm_failed env c)
unfolding pcm_failed
pcm_failed-EndsUnlisted env c = elim (Bool-cases env.stream_up) [
  | inl o ↦ rw o (λ e. hangup_terminated true network_error (emit pcm_alert c))
  | inr o ↦ rw o (λ e. cc)
]

pub connected-EndsUnlisted :
    (recorder : Option ℕ) (env : Env) (c : Ctx) → EndsUnlisted (handle_connected recorder env c)
unfolding handle_connected build_audio
connected-EndsUnlisted recorder env c = answered env.pcm
  where
    built : (d : Ctx) → EndsUnlisted (build_audio recorder env d)
    built d = elim (Bool-cases env.bridge_built) [
      | inl o ↦ simp o (join-EndsUnlisted env (start_recording env.disk_free recorder d))
      | inr o ↦ rw o (λ e. cc)
    ]

    answered : (p : PcmAnswer) → EndsUnlisted (after_pcm recorder env p (emit connected_event c))
    answered pcm_enabled = built _
    answered pcm_enable_error = pcm_failed-EndsUnlisted env _
    answered pcm_other_error = λ e. cc

-- a call that is terminated, and whose pump is connected or gone, is free
pub ended-IsFree :
    {s : Bool} (c : Ctx)
    → IsSettled s c
    → c.terminated ≡ true
    → (c.pump_alive ≡ true → c.connected_seen ≡ true)
    → IsFree c
ended-IsFree c h t r = record { held = (h.freed t).0; tasks = (h.freed t).1; rests = r }

-- what `teardown` leaves
pub teardown-IsFree :
    {s : Bool} (k : Bool) (c : Ctx)
    → IsSettled s c
    → IsFree (record (teardown k c) { pump_alive = false })
unfolding stop_tasks
teardown-IsFree k c h =
    let left = teardown-Reached k c h.modem (reached c h) in
    record { held = held-eq left; tasks = left.frame.4; rests = λ q. clash (sym q) }

pub off-IsFree :
    (c : Ctx) → c.pump_alive ≡ false → IsFree (record c { pump_alive = false }) → IsFree c
off-IsFree c o f = record { held = f.held; tasks = f.tasks; rests = λ q. clash (sym q ∙ o) }

pub pump_off-IsFree : {c : Ctx} → IsFree c → IsFree (record c { pump_alive = false })
pump_off-IsFree f = record { held = f.held; tasks = f.tasks; rests = λ q. clash (sym q) }
