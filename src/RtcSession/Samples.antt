-- ===== src/RtcSession/Samples.antt =====
-- Sessions of windows_dingrtc_session.py on small inputs.
use isales_telephony.Base.{ℕ, ◌≡◌, refl, true, none, some, List, [], ◌∷◌, arith, codes}
use isales_telephony.RtcSession.{
  Session, blank, on_join, on_error, JoinEnv, join_session, made, setup_calls, started, await_join,
  teardown_partial, woken, leave_session,
}
use isales_telephony.RtcSession.Audio.{
  RawFrame, pcm_frame, drain_frames, drain_turn, take_frame, put_newest, read_frame, padded,
  frames_of, frame_size, push_frames, push_audio, Input, join, leave, drain, read, push, step, run,
}
use isales_telephony.RtcSession.Slicing.{IsPushed, push_audio-IsPushed}
use isales_telephony.RtcSession.Queueing.{IsInbound}
use isales_telephony.RtcSession.Inbound.{run-IsInbound}
use isales_telephony.RtcSession.Ending.{IsEnded, leave_session-IsEnded, with_frames}

abbrev raw : ℕ → RawFrame
raw n = record {
  remote_uid = none;
  pcm = some (n ∷ []);
  sample_rate = some 0;
  channels = none;
  timestamp = some n;
}

abbrev joins : JoinEnv → Input
joins env = join (codes "room") (codes "token") (codes "edge") 100 1 env

abbrev refused : JoinEnv
refused = record { fails = some 4; callbacks = [] }

abbrev kicked : JoinEnv
kicked = record { fails = none; callbacks = on_error 7 ∷ on_join 0 ∷ [] }

abbrev accepted : JoinEnv
accepted = record { fails = none; callbacks = on_join 0 ∷ on_error 7 ∷ [] }

abbrev inputs : List Input
inputs =
    joins refused
    ∷ joins kicked
    ∷ joins accepted
    ∷ drain (raw 1 ∷ raw 2 ∷ raw 3 ∷ [])
    ∷ read
    ∷ push none 5 (9 ∷ 8 ∷ 7 ∷ [])
    ∷ leave
    ∷ joins accepted
    ∷ read
    ∷ read
    ∷ []

abbrev fresh_session : Session
fresh_session = blank (codes "app") (codes "gslb") 1

run-IsInbound_example : IsInbound (run (blank (codes "app") (codes "gslb") 1) inputs)
run-IsInbound_example = run-IsInbound (codes "app") (codes "gslb") 1 inputs

-- the oldest of three frames is gone, as two fit
yielded : (run fresh_session inputs).received ≡ pcm_frame (raw 2) ∷ pcm_frame (raw 3) ∷ []
unfolding run step blank join_session made setup_calls started await_join teardown_partial woken
    leave_session drain_turn drain_frames put_newest pcm_frame read_frame take_frame push_audio
    push_frames frames_of frame_size padded
yielded = refl

abbrev joined_session : Session
joined_session = run fresh_session (joins accepted ∷ [])

push_audio-IsPushed_example : IsPushed (some 1) 5 (9 ∷ 8 ∷ 7 ∷ []) joined_session
unfolding run step blank join_session made setup_calls started await_join
push_audio-IsPushed_example =
    push_audio-IsPushed (some 1) 5 (9 ∷ 8 ∷ 7 ∷ []) joined_session refl refl (omega arith)
      (omega arith)

-- two frames fill the queue, and the generator waits for ever
leave_session-IsEnded_example :
    IsEnded true
      (pcm_frame (raw 1) ∷ pcm_frame (raw 2) ∷ [])
      []
      (leave_session (with_frames (pcm_frame (raw 1) ∷ pcm_frame (raw 2) ∷ []) joined_session))
unfolding run step blank join_session made setup_calls started await_join
leave_session-IsEnded_example =
    leave_session-IsEnded (pcm_frame (raw 1) ∷ pcm_frame (raw 2) ∷ []) joined_session refl
