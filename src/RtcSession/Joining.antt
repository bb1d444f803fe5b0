-- ===== src/RtcSession/Joining.antt =====
-- What windows_dingrtc_session.py asks of the binding's engine, and in which order.
use isales_telephony.Base.{
  ℕ, zero, suc, ◌≡◌, refl, sym, ap, ◌∙◌, Bool, true, false, Option, none, some, List, [], ◌∷◌, ◌++◌,
  ltb, length, take, Text, Bool-cases, inl, inr, clash, All, if-cases, ◌⊎◌,
}
use isales_telephony.RtcSession.{
  SdkCall, set_event_listener, register_audio_observer, enable_audio_frame_observer,
  enable_custom_audio_capture, set_external_audio_source, publish_local_audio_stream,
  publish_local_video_stream, subscribe_all_remote_audio_streams, new_engine, create, leave_channel,
  unregister_audio_observer, destroy, clear_callbacks, push_external_audio, join_channel, Session,
  SessionError, teardown_partial, made, setup_calls, started, await_join, Callback, on_join,
  on_error, task_cancelled, set_up, JoinEnv, join_session,
}
use isales_telephony.RtcSession.Audio.{wait_cancelled}

-- The engine of the binding: none, one that is set up, or one that joins a channel or is in it.
pub data Engine : Type 0 where
  absent built in_channel : Engine

-- Each call of the setup needs an engine that is not in a channel yet; leaving, pushing and
-- unregistering need one that is; an engine is made only where there is none; and the listener is
-- cleared when there is none any more.
unfoldable pub engine_step : Engine → SdkCall → Option Engine
engine_step absent new_engine = some built
engine_step absent clear_callbacks = some absent
engine_step absent _ = none
engine_step built new_engine = none
engine_step built leave_channel = none
engine_step built unregister_audio_observer = none
engine_step built clear_callbacks = none
engine_step built (push_external_audio _ _ _ _) = none
engine_step built (join_channel _ _ _ _ _) = some in_channel
engine_step built destroy = some absent
engine_step built _ = some built
engine_step in_channel leave_channel = some in_channel
engine_step in_channel unregister_audio_observer = some in_channel
engine_step in_channel (push_external_audio _ _ _ _) = some in_channel
engine_step in_channel destroy = some absent
engine_step in_channel _ = none

abbrev pub then_engine : (Engine → Option Engine) → Option Engine → Option Engine
then_engine f none = none
then_engine f (some e) = f e

unfoldable pub replay : Engine → List SdkCall → Option Engine
replay e [] = some e
replay e (c ∷ cs) = then_engine (λ f. replay f cs) (engine_step e c)

some_inj : {a b : Engine} → some a ≡ some b → a ≡ b
some_inj e = cc

append_then :
    (xs ys : List SdkCall) (o : Option Engine) (g : Engine)
    → ((f : Engine) → replay f xs ≡ some g → replay f (xs ++ ys) ≡ replay g ys)
    → then_engine (λ f. replay f xs) o ≡ some g
    → then_engine (λ f. replay f (xs ++ ys)) o ≡ replay g ys
append_then xs ys none g ih q = cc
append_then xs ys (some f) g ih q = ih f q

pub replay-append :
    (xs ys : List SdkCall) (e g : Engine) → replay e xs ≡ some g → replay e (xs ++ ys) ≡ replay g ys
unfolding replay
replay-append [] ys e g p = ap (λ f. replay f ys) (some_inj p)
replay-append (x ∷ xs) ys e g p =
    append_then xs ys (engine_step e x) g (λ f. replay-append xs ys f g) p

abbrev pub engine_of : Bool → Engine
engine_of true = in_channel
engine_of false = absent

-- The log is allowed and leaves an engine in a channel just while the session is joined; what the
-- session keeps of it is then set, and else not; and a closed session is not joined.
pub record IsLive (s : Session) : Type 0 where
  pub replayed : replay absent s.log ≡ some (engine_of s.joined)
  pub engine : s.engine ≡ s.joined
  pub listener : s.listener ≡ s.joined
  pub buffer : s.buffer ≡ s.joined
  pub drainer : s.drainer_task ≡ s.joined
  pub closed : s.closed ≡ true → s.joined ≡ false

-- what `_teardown_partial` does of an engine in a channel, if there is one
pub teardown-replayed :
    (b : Bool) (s : Session)
    → s.engine ≡ b
    → s.listener ≡ b
    → replay absent s.log ≡ some (engine_of b)
    → replay absent (teardown_partial s).log ≡ some absent
unfolding teardown_partial replay engine_step
teardown-replayed true s e l h = rw (e, l) (replay-append s.log _ absent in_channel h)
teardown-replayed false s e l h = rw (e, l) (replay-append s.log _ absent absent h)

teardown-IsLive :
    (b : Bool) (s : Session)
    → s.joined ≡ false
    → s.engine ≡ b
    → s.listener ≡ b
    → replay absent s.log ≡ some (engine_of b)
    → IsLive (teardown_partial s)
unfolding teardown_partial
teardown-IsLive b s out e l h = record {
  replayed = teardown-replayed b s e l h ∙ ap (λ j. some (engine_of j)) (sym out);
  engine = sym out;
  listener = sym out;
  buffer = sym out;
  drainer = sym out;
  closed = λ _. out;
}

-- a call that leaves an engine set up
abbrev IsPlain : SdkCall → Type 0
IsPlain c = engine_step built c ≡ some built

abbrev plain_calls : Session → List SdkCall
plain_calls s =
    create
    ∷ set_event_listener
    ∷ register_audio_observer
    ∷ enable_audio_frame_observer
    ∷ enable_custom_audio_capture
    ∷ set_external_audio_source s.send_sample_rate s.send_channels
    ∷ publish_local_audio_stream
    ∷ publish_local_video_stream
    ∷ subscribe_all_remote_audio_streams
    ∷ []

-- whichever call of the setup was the last, the engine can be destroyed
setup_torn :
    (k : ℕ) (xs : List SdkCall) (channel uid app_id token gslb : Text)
    → All IsPlain xs
    → replay built (take k (xs ++ join_channel channel uid app_id token gslb ∷ []) ++ destroy ∷ [])
      ≡ some absent
unfolding replay engine_step
setup_torn zero xs c u a t g h = refl
setup_torn (suc zero) [] c u a t g h = refl
setup_torn (suc (suc k)) [] c u a t g h = refl
setup_torn (suc k) (x ∷ xs) c u a t g h = rw (h.0) (setup_torn k xs c u a t g (h.1))

pub made-cases :
    (fails : Option ℕ) (calls : List SdkCall)
    → (made fails calls ≡ (calls, false))
      ⊎ ((k : ℕ) × (made fails calls ≡ (take (suc k) calls, true)))
unfolding made
made-cases none calls = inl refl
made-cases (some k) calls = elim (Bool-cases (ltb k (length calls))) [
  | inl o ↦ inr (k, rw o refl)
  | inr o ↦ inl (rw o refl)
]

-- the session is not joined, and its engine has been asked to join
await_join-IsLive :
    (callbacks : List Callback) (s : Session)
    → s.joined ≡ false
    → s.closed ≡ false
    → s.engine ≡ true
    → s.listener ≡ true
    → s.buffer ≡ true
    → replay absent s.log ≡ some in_channel
    → wait_cancelled callbacks ≡ false
    → IsLive (await_join callbacks s).0
unfolding await_join started
await_join-IsLive [] s out o e l b h k = teardown-IsLive true s out e l h
await_join-IsLive (task_cancelled ∷ _) s out o e l b h k = cc
await_join-IsLive (on_error code ∷ _) s out o e l b h k = teardown-IsLive true s out e l h
await_join-IsLive (on_join zero ∷ _) s out o e l b h k = record {
  replayed = h;
  engine = e;
  listener = l;
  buffer = b;
  drainer = refl;
  closed = λ q. absurd (clash s.closed q o);
}
await_join-IsLive (on_join (suc code) ∷ _) s out o e l b h k = teardown-IsLive true s out e l h

absent_of : (s : Session) → IsLive s → s.joined ≡ false → replay absent s.log ≡ some absent
absent_of s h out = h.replayed ∙ ap (λ b. some (engine_of b)) out

set_up-IsLive :
    (channel token uid : Text) (env : JoinEnv) (s : Session)
    → IsLive s
    → s.joined ≡ false
    → s.closed ≡ false
    → wait_cancelled env.callbacks ≡ false
    → IsLive (set_up env.callbacks s (made env.fails (setup_calls channel token uid s))).0
unfolding setup_calls replay engine_step
set_up-IsLive channel token uid env s h out o k =
    elim (made-cases env.fails (setup_calls channel token uid s)) [
      | inl q ↦ rw q (
          await_join-IsLive env.callbacks _ out o refl refl refl
            (replay-append s.log _ absent absent (absent_of s h out)) k)
      | inr (j, q) ↦ rw q (record {
        replayed =
            replay-append s.log _ absent absent (absent_of s h out)
            ∙ setup_torn (suc j) (plain_calls s) channel uid s.app_id token s.gslb_server
                (refl, (refl, (refl, (refl, (refl, (refl, (refl, (refl, (refl, tt)))))))))
            ∙ ap (λ b. some (engine_of b)) (sym out);
        engine = h.engine;
        listener = h.listener;
        buffer = h.buffer;
        drainer = h.drainer;
        closed = h.closed;
      })
    ]

pub join-IsLive :
    (channel token uid : Text) (rate channels : ℕ) (env : JoinEnv) (s : Session)
    → IsLive s
    → wait_cancelled env.callbacks ≡ false
    → IsLive (join_session channel token uid rate channels env s).0
unfolding join_session
join-IsLive channel token uid rate channels env s h k =
    if-cases (λ (r : Session × Option SessionError). IsLive (r.0)) s.joined (λ _. h)
      (λ q.
        if-cases (λ (r : Session × Option SessionError). IsLive (r.0)) s.closed (λ _. h)
          (λ o.
            set_up-IsLive channel token uid env
              (record s { send_sample_rate = rate; send_channels = channels }) same q o k))
  where
    same : IsLive (record s { send_sample_rate = rate; send_channels = channels })
    same = record {
      replayed = h.replayed;
      engine = h.engine;
      listener = h.listener;
      buffer = h.buffer;
      drainer = h.drainer;
      closed = h.closed;
    }
