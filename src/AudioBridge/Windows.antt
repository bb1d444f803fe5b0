-- ===== src/AudioBridge/Windows.antt =====
-- The bridge of bridge.py over the session of windows_dingrtc_session.py.
use isales_telephony.Base.{
  ℕ, zero, suc, ◌≡◌, refl, Bool, true, false, Option, none, some, List, [], ◌∷◌, not, ◌&&◌, ◌||◌,
  ◌==◌, Text, if-cases, arith, length,
}
use isales_telephony.RtcSession.{
  SdkCall, SessionError, Session, blank, Callback, on_join, on_error, task_cancelled, JoinEnv, made,
  setup_calls, teardown_partial, started, await_join, set_up, join_session, leave_session,
}
use isales_telephony.RtcSession.Audio.{
  RawFrame, drain_frames, drain_turn, take_frame, read_as, read_frame, pushed, push_frames,
  push_audio, frame_size, frames_of, is_nil, step, wait_cancelled,
}
use isales_telephony.RtcSession.Audio
use isales_telephony.RtcSession.Joining.{IsLive}
use isales_telephony.RtcSession.Lifecycle.{
  and_first, and_second, step-IsLive, blank-IsLive, read-SameLife,
}
use isales_telephony.AudioBridge.Bridge.{
  RtcSessions, Bridge, new_bridge, BridgeInput, join, leave, move, upstream_returns,
  downstream_returns, after_join, bridge_step, bridge_run, IsPaired, run-IsPaired, join_bridge,
  leave_bridge,
}

-- what the bridge's pumps and the drainer do to the session
pub data Move : Type 0 where
  drains : List RawFrame → Move
  reads_frame : Move
  pushes : Option ℕ → ℕ → List ℕ → Move

-- `channel`, `token`, `uid`, and what the binding answers
abbrev pub JoinArgs : Type 0
JoinArgs = Text × Text × Text × JoinEnv

unfoldable pub moved : Move → Session → Session
moved (drains raws) s = drain_turn raws s
moved reads_frame s = read_frame s
moved (pushes fails ts pcm) s = (push_audio fails ts pcm s).0

-- `join` of the session `s` has raised, and left it joined or not as it was, or has joined it
abbrev pub Answered : Session → Session × Option SessionError → Type 0
Answered s r =
    (r.1 ≡ none → (s.joined ≡ false) × (r.0.joined ≡ true))
    × ((e : SessionError) → r.1 ≡ some e → r.0.joined ≡ s.joined)

await_join-Answered :
    (callbacks : List Callback) (s : Session)
    → s.joined ≡ false
    → Answered s (await_join callbacks s)
unfolding await_join started teardown_partial
await_join-Answered [] s o = (λ n. cc, λ _ _. refl)
await_join-Answered (task_cancelled ∷ _) s o = (λ n. cc, λ _ _. refl)
await_join-Answered (on_error code ∷ _) s o = (λ n. cc, λ _ _. refl)
await_join-Answered (on_join zero ∷ _) s o = (λ _. (o, refl), λ e q. cc)
await_join-Answered (on_join (suc code) ∷ _) s o = (λ n. cc, λ _ _. refl)

set_up-Answered :
    (callbacks : List Callback) (s : Session) (r : List SdkCall × Bool)
    → s.joined ≡ false
    → Answered s (set_up callbacks s r)
set_up-Answered callbacks s (calls, true) o = (λ n. cc, λ _ _. refl)
set_up-Answered callbacks s (calls, false) o = await_join-Answered callbacks _ o

pub join_session-Answered :
    (channel token uid : Text) (rate : ℕ) (env : JoinEnv) (s : Session)
    → Answered s (join_session channel token uid rate 1 env s)
unfolding join_session
join_session-Answered channel token uid rate env s =
    if-cases (Answered s) s.joined (λ _. (λ n. cc, λ _ _. refl))
      (λ o.
        if-cases (Answered s) s.closed (λ _. (λ n. cc, λ _ _. refl))
          (λ _.
            let asked : Session = record s { send_sample_rate = rate; send_channels = 1 } in
            set_up-Answered env.callbacks asked
              (made env.fails (setup_calls channel token uid asked)) o))

pub leave_session-joined : (s : Session) → (leave_session s).joined ≡ false
unfolding leave_session
leave_session-joined s =
    if-cases (λ (t : Session). t.joined ≡ false) (not s.joined && s.closed) (λ q. ground (arith, q))
      (λ _. refl)

drain_frames-joined : (raws : List RawFrame) (s : Session) → (drain_frames raws s).joined ≡ s.joined
unfolding drain_frames
drain_frames-joined [] s = refl
drain_frames-joined (raw ∷ raws) s = drain_frames-joined raws _

pushed-joined : (s : Session) (r : List SdkCall × Bool) → (pushed s r).0.joined ≡ s.joined
pushed-joined s (calls, true) = refl
pushed-joined s (calls, false) = refl

pub moved-joined : (m : Move) (s : Session) → (moved m s).joined ≡ s.joined
unfolding moved drain_turn read_frame push_audio push_frames
moved-joined (drains raws) s =
    if-cases Same s.drainer_task (λ _. drain_frames-joined raws s) (λ _. refl)
  where
    Same : Session → Type 0
    Same t = t.joined ≡ s.joined
moved-joined reads_frame s = (read-SameLife s.reader s).5
moved-joined (pushes fails ts pcm) s =
    if-cases Same (not (s.joined && s.engine)) (λ _. refl)
      (λ _.
        if-cases Same (s.send_sample_rate == 0 || s.send_channels == 0) (λ _. refl)
          (λ _.
            if-cases Same (is_nil pcm) (λ _. refl)
              (λ _.
                if-cases Same (frame_size s.send_sample_rate s.send_channels == 0) (λ _. refl)
                  (λ _. pushed-joined s (
                    made fails (
                      frames_of (length pcm) (frame_size s.send_sample_rate s.send_channels)
                        s.send_sample_rate s.send_channels ts pcm))))))
  where
    Same : Session × Option SessionError → Type 0
    Same r = r.0.joined ≡ s.joined

-- `WindowsDingRtcSession` is a session for the bridge.
unfoldable pub windows_sessions : ℕ → RtcSessions JoinArgs Move Session SessionError
windows_sessions rtc_rate = record {
  rtc_join = λ a s. join_session (a.0) (a.1) (a.2) rtc_rate 1 (a.3) s;
  rtc_leave = leave_session;
  rtc_move = moved;
  is_joined = λ s. s.joined;
  joins = λ a s. (join_session-Answered (a.0) (a.1) (a.2) rtc_rate (a.3) s).0;
  refuses = λ a s. (join_session-Answered (a.0) (a.1) (a.2) rtc_rate (a.3) s).1;
  leaves = leave_session-joined;
  moves = moved-joined;
}

-- No join of this is cancelled while it waits.
abbrev pub is_calm : BridgeInput JoinArgs Move → Bool
is_calm (join (channel, token, uid, env)) = not (wait_cancelled env.callbacks)
is_calm leave = true
is_calm (move m) = true
is_calm upstream_returns = true
is_calm downstream_returns = true

unfoldable pub all_calm : List (BridgeInput JoinArgs Move) → Bool
all_calm [] = true
all_calm (i ∷ is) = is_calm i && all_calm is

-- the session of a bridge, whatever the bridge does with it
bridge_step-IsLive :
    (rtc_rate : ℕ) (b : Bridge Session) (i : BridgeInput JoinArgs Move)
    → is_calm i ≡ true
    → IsLive b.rtc
    → IsLive (bridge_step (windows_sessions rtc_rate) b i).rtc
unfolding bridge_step join_bridge leave_bridge windows_sessions moved step
bridge_step-IsLive rtc_rate b (join (channel, token, uid, env)) k h =
    joined (join_session channel token uid rtc_rate 1 env b.rtc)
      (step-IsLive b.rtc (Audio.join channel token uid rtc_rate 1 env) k h)
  where
    joined :
        (r : Session × Option SessionError)
        → IsLive (r.0)
        → IsLive (after_join (windows_sessions rtc_rate) b r).0.rtc
    joined (s, none) l = l
    joined (s, some e) l = l
bridge_step-IsLive rtc_rate b leave k h =
    if-cases IsLive b.rtc.joined (λ _. step-IsLive b.rtc Audio.leave refl h) (λ _. h)
bridge_step-IsLive rtc_rate b (move (drains raws)) k h = step-IsLive b.rtc (Audio.drain raws) refl h
bridge_step-IsLive rtc_rate b (move reads_frame) k h = step-IsLive b.rtc Audio.read refl h
bridge_step-IsLive rtc_rate b (move (pushes fails ts pcm)) k h =
    step-IsLive b.rtc (Audio.push fails ts pcm) refl h
bridge_step-IsLive rtc_rate b upstream_returns k h = h
bridge_step-IsLive rtc_rate b downstream_returns k h = h

bridge_run-IsLive :
    (rtc_rate : ℕ) (b : Bridge Session) (is : List (BridgeInput JoinArgs Move))
    → all_calm is ≡ true
    → IsLive b.rtc
    → IsLive (bridge_run (windows_sessions rtc_rate) b is).rtc
unfolding bridge_run all_calm
bridge_run-IsLive rtc_rate b [] k h = h
bridge_run-IsLive rtc_rate b (i ∷ is) k h =
    bridge_run-IsLive rtc_rate (bridge_step (windows_sessions rtc_rate) b i) is
      (and_second (is_calm i) (all_calm is) k)
      (bridge_step-IsLive rtc_rate b i (and_first (is_calm i) (all_calm is) k) h)

-- A bridge over a new Windows session, whatever it is asked, one call after the other, and whatever
-- the binding raises and calls back, as long as no join is cancelled while it waits: it has its two
-- tasks just while the session is joined, and forgets none that runs; and an engine of the binding is
-- in a channel just then, and else there is none.
pub bridge_run-IsPaired :
    (rtc_rate : ℕ) (app_id gslb_server : Text) (inbound_capacity : ℕ)
    (is : List (BridgeInput JoinArgs Move))
    → all_calm is ≡ true
    → IsPaired (windows_sessions rtc_rate) (
        bridge_run
          (windows_sessions rtc_rate)
          (new_bridge (blank app_id gslb_server inbound_capacity))
          is)
      × IsLive
          (bridge_run
            (windows_sessions rtc_rate)
            (new_bridge (blank app_id gslb_server inbound_capacity))
            is).rtc
unfolding new_bridge blank windows_sessions
bridge_run-IsPaired rtc_rate app_id gslb_server inbound_capacity is k = (
  run-IsPaired (windows_sessions rtc_rate) (new_bridge (blank app_id gslb_server inbound_capacity))
      is (record { upstream = refl; downstream = refl; no_orphan = refl }),
  bridge_run-IsLive rtc_rate (new_bridge (blank app_id gslb_server inbound_capacity)) is k
      (blank-IsLive app_id gslb_server inbound_capacity),
)
