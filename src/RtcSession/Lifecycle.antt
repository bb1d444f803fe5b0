-- ===== src/RtcSession/Lifecycle.antt =====
-- A session of windows_dingrtc_session.py over any sequence of calls: its engine.
use isales_telephony.Base.{
  ℕ, zero, suc, ◌≡◌, refl, sym, ap, ◌∙◌, Bool, true, false, Option, none, some, List, [], ◌∷◌, ◌++◌,
  ◌==◌, not, ◌&&◌, ◌||◌, length, take, drop, ◌+◌, Text, inl, inr, arith, if-cases,
}
use isales_telephony.RtcSession.{
  SdkCall, leave_channel, Session, SessionError, blank, teardown_partial, leave_session, Item,
  audio, drainer_sentinel, Reader, fresh, reading, finished, said,
}
use isales_telephony.RtcSession.Audio.{
  RawFrame, drain_frames, drain_turn, take_frame, read_frame, read_as, has_queue, frames_of,
  push_frames, push_audio, frame_size, is_nil, Input, join, leave, drain, read, push, is_calm, step,
}
use isales_telephony.RtcSession.Joining.{
  engine_step, absent, in_channel, replay, replay-append, engine_of, IsLive, teardown-replayed,
  made-cases, join-IsLive,
}

-- the session once its channel is left
abbrev gone : Session → Session
gone s = record s { log = s.log ++ said s.engine (leave_channel ∷ []) }

gone-torn :
    (b : Bool) (s : Session)
    → s.engine ≡ b
    → s.listener ≡ b
    → replay absent s.log ≡ some (engine_of b)
    → replay absent (teardown_partial (gone s)).log ≡ some absent
unfolding replay engine_step
gone-torn true s e l r =
    teardown-replayed true (gone s) e l
      (rw e (replay-append s.log (leave_channel ∷ []) absent in_channel r))
gone-torn false s e l r =
    teardown-replayed false (gone s) e l (rw e (replay-append s.log [] absent absent r))

leave-IsLive : (s : Session) → IsLive s → IsLive (leave_session s)
unfolding leave_session teardown_partial
leave-IsLive s h =
    if-cases IsLive (not s.joined && s.closed) (λ _. h)
      (λ _. record {
        replayed = gone-torn s.joined s h.engine h.listener h.replayed;
        engine = refl;
        listener = refl;
        buffer = refl;
        drainer = refl;
        closed = λ _. refl;
      })

drain-IsLive : (raws : List RawFrame) (s : Session) → IsLive s → IsLive (drain_frames raws s)
unfolding drain_frames
drain-IsLive [] s h = h
drain-IsLive (raw ∷ raws) s h = drain-IsLive raws _ (record {
  replayed = h.replayed;
  engine = h.engine;
  listener = h.listener;
  buffer = h.buffer;
  drainer = h.drainer;
  closed = h.closed;
})

-- the fields that `IsLive` reads are those of `s`
abbrev pub SameLife : Session → Session → Type 0
SameLife s t =
    (t.log ≡ s.log)
    × (t.engine ≡ s.engine)
    × (t.listener ≡ s.listener)
    × (t.buffer ≡ s.buffer)
    × (t.drainer_task ≡ s.drainer_task)
    × (t.joined ≡ s.joined)
    × (t.closed ≡ s.closed)

kept-IsLive : (s t : Session) → SameLife s t → IsLive s → IsLive t
kept-IsLive s t (l, e, i, b, d, j, c) h = record {
  replayed = ap (replay absent) l ∙ h.replayed ∙ ap (λ x. some (engine_of x)) (sym j);
  engine = e ∙ h.engine ∙ sym j;
  listener = i ∙ h.listener ∙ sym j;
  buffer = b ∙ h.buffer ∙ sym j;
  drainer = d ∙ h.drainer ∙ sym j;
  closed = λ q. j ∙ h.closed (sym c ∙ q);
}

take_frame-SameLife : (q : Option (List Item)) (s : Session) → SameLife s (take_frame q s)
unfolding take_frame
take_frame-SameLife none s = (refl, refl, refl, refl, refl, refl, refl)
take_frame-SameLife (some []) s = (refl, refl, refl, refl, refl, refl, refl)
take_frame-SameLife (some (drainer_sentinel ∷ q)) s = (refl, refl, refl, refl, refl, refl, refl)
take_frame-SameLife (some (audio f ∷ q)) s = (refl, refl, refl, refl, refl, refl, refl)

pub read-SameLife : (r : Reader) (s : Session) → SameLife s (read_as r s)
read-SameLife fresh s =
    if-cases (SameLife s) (s.joined && has_queue s.frame_queue)
      (λ _. take_frame-SameLife s.frame_queue s) (λ _. (refl, refl, refl, refl, refl, refl, refl))
read-SameLife reading s = take_frame-SameLife s.frame_queue s
read-SameLife finished s = (refl, refl, refl, refl, refl, refl, refl)

-- the first `k` pushes of a chunk
pushes_replay :
    (k fuel size rate channels ts : ℕ) (pcm : List ℕ)
    → replay in_channel (take k (frames_of fuel size rate channels ts pcm)) ≡ some in_channel
unfolding replay engine_step frames_of
pushes_replay zero fuel size rate channels ts pcm = refl
pushes_replay (suc k) zero size rate channels ts pcm = refl
pushes_replay (suc k) (suc fuel) size rate channels ts [] = refl
pushes_replay (suc k) (suc fuel) size rate channels ts (b ∷ pcm) =
    pushes_replay k fuel size rate channels (ts + 10) (drop size (b ∷ pcm))

all_pushes_replay :
    (fuel size rate channels ts : ℕ) (pcm : List ℕ)
    → replay in_channel (frames_of fuel size rate channels ts pcm) ≡ some in_channel
unfolding replay engine_step frames_of
all_pushes_replay zero size rate channels ts pcm = refl
all_pushes_replay (suc fuel) size rate channels ts [] = refl
all_pushes_replay (suc fuel) size rate channels ts (b ∷ pcm) =
    all_pushes_replay fuel size rate channels (ts + 10) (drop size (b ∷ pcm))

-- pushes in a channel
logged-IsLive :
    (s : Session) (calls : List SdkCall)
    → IsLive s
    → s.joined ≡ true
    → replay in_channel calls ≡ some in_channel
    → IsLive (record s { log = s.log ++ calls })
logged-IsLive s calls h o r = record {
  replayed =
      replay-append s.log calls absent in_channel (h.replayed ∙ ap (λ b. some (engine_of b)) o)
      ∙ r
      ∙ ap (λ b. some (engine_of b)) (sym o);
  engine = h.engine;
  listener = h.listener;
  buffer = h.buffer;
  drainer = h.drainer;
  closed = h.closed;
}

push_frames-IsLive :
    (fails : Option ℕ) (ts : ℕ) (pcm : List ℕ) (s : Session)
    → IsLive s
    → s.joined ≡ true
    → IsLive (push_frames fails ts pcm s).0
unfolding push_frames
push_frames-IsLive fails ts pcm s h o =
    let size = frame_size s.send_sample_rate s.send_channels in
    let calls = frames_of (length pcm) size s.send_sample_rate s.send_channels ts pcm in
    if-cases (λ (r : Session × Option SessionError). IsLive (r.0)) (size == 0) (λ _. h)
      (λ _. elim (made-cases fails calls) [
        | inl q ↦ rw q (logged-IsLive s calls h o (all_pushes_replay (length pcm) size _ _ ts pcm))
        | inr (k, q) ↦ rw q (
            logged-IsLive s (take (suc k) calls) h o
              (pushes_replay (suc k) (length pcm) size _ _ ts pcm))
      ])

joined_of : (s : Session) → not (s.joined && s.engine) ≡ false → s.joined ≡ true
joined_of s q = ground (arith, q)

push-IsLive :
    (fails : Option ℕ) (ts : ℕ) (pcm : List ℕ) (s : Session)
    → IsLive s
    → IsLive (push_audio fails ts pcm s).0
unfolding push_audio
push-IsLive fails ts pcm s h =
    if-cases Live (not (s.joined && s.engine)) (λ _. h)
      (λ q.
        if-cases Live (s.send_sample_rate == 0 || s.send_channels == 0) (λ _. h)
          (λ _.
            if-cases Live (is_nil pcm) (λ _. h)
              (λ _. push_frames-IsLive fails ts pcm s h (joined_of s q))))
  where
    Live : Session × Option SessionError → Type 0
    Live r = IsLive (r.0)

pub step-IsLive : (s : Session) (i : Input) → is_calm i ≡ true → IsLive s → IsLive (step s i)
unfolding step drain_turn read_frame
step-IsLive s (join channel token uid rate channels env) k h =
    join-IsLive channel token uid rate channels env s h (ground (arith, k))
step-IsLive s leave k h = leave-IsLive s h
step-IsLive s (drain raws) k h =
    if-cases IsLive s.drainer_task (λ _. drain-IsLive raws s h) (λ _. h)
step-IsLive s read k h = kept-IsLive s (read_as s.reader s) (read-SameLife s.reader s) h
step-IsLive s (push fails ts pcm) k h = push-IsLive fails ts pcm s h

pub and_first : (a b : Bool) → (a && b) ≡ true → a ≡ true
and_first a b h = ground (arith, h)

pub and_second : (a b : Bool) → (a && b) ≡ true → b ≡ true
and_second a b h = ground (arith, h)

pub blank-IsLive :
    (app_id gslb_server : Text) (inbound_capacity : ℕ)
    → IsLive (blank app_id gslb_server inbound_capacity)
unfolding blank replay
blank-IsLive app_id gslb_server inbound_capacity = record {
  replayed = refl;
  engine = refl;
  listener = refl;
  buffer = refl;
  drainer = refl;
  closed = λ _. refl;
}
