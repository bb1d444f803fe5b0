-- ===== src/RtcSession/Inbound.antt =====
-- The frames that `audio_frames` of windows_dingrtc_session.py yields, over any sequence of calls.
use isales_telephony.Base.{
  ℕ, ◌≡◌, refl, sym, ap, ◌∙◌, subst, Bool, true, false, Option, none, some, List, [], ◌∷◌, ◌++◌,
  not, ◌&&◌, ◌||◌, ◌==◌, length, Text, if-cases, Thinned, done, append_assoc, arith,
}
use isales_telephony.RtcSession.{
  Item, audio, drainer_sentinel, SdkCall, Session, Reader, fresh, reading, finished, blank,
  queue_size, made,
}
use isales_telephony.RtcSession.Audio.{
  RawFrame, pcm_frame, drain_frames, drain_turn, take_frame, read_as, has_queue, read_frame, pushed,
  push_frames, push_audio, is_nil, frame_size, frames_of, Input, join, leave, drain, read, push,
  step, run,
}
use isales_telephony.RtcSession.Queueing.{
  frames_in, waiting, Within, IsInbound, After, kept-IsInbound, join-IsInbound, leave-IsInbound,
  put_frame-waiting,
}

drain-IsInbound :
    (raws : List RawFrame) (s : Session) → IsInbound s → IsInbound (drain_frames raws s)
unfolding drain_frames
drain-IsInbound [] s h = h
drain-IsInbound (raw ∷ raws) s h =
    let put =
      put_frame-waiting (queue_size s) (pcm_frame raw) s.frame_queue s.received s.drained h.in_order
        h.newest h.within in
    drain-IsInbound raws _ (record { in_order = put.0; newest = put.1; within = put.2 })

taken-IsInbound :
    (q : Option (List Item)) (s : Session)
    → s.frame_queue ≡ q
    → IsInbound s
    → IsInbound (take_frame q s)
unfolding take_frame
taken-IsInbound none s e h = h
taken-IsInbound (some []) s e h = kept-IsInbound s _ (refl, refl, refl, refl) h
taken-IsInbound (some (drainer_sentinel ∷ q)) s e h =
    let same : waiting s.frame_queue ≡ frames_in q = ap waiting e in
    let room : Within (queue_size s) (some (drainer_sentinel ∷ q)) =
      subst (Within (queue_size s)) e h.within in
    record {
      in_order = subst (λ l. Thinned (s.received ++ l) s.drained) same h.in_order;
      newest = (h.newest.0, ap (λ l. h.newest.0 ++ l) (sym same) ∙ h.newest.1);
      within = λ p. omega (arith, room p);
    }
taken-IsInbound (some (audio f ∷ q)) s e h =
    let same : waiting s.frame_queue ≡ f ∷ frames_in q = ap waiting e in
    let room : Within (queue_size s) (some (audio f ∷ q)) =
      subst (Within (queue_size s)) e h.within in
    record {
      in_order =
          subst (λ l. Thinned l s.drained)
            (ap (λ l. s.received ++ l) same ∙ sym (append_assoc s.received (f ∷ []) (frames_in q)))
            h.in_order;
      newest = (
        h.newest.0 ++ f ∷ [],
        append_assoc (h.newest.0) (f ∷ []) (frames_in q)
            ∙ ap (λ l. h.newest.0 ++ l) (sym same)
            ∙ h.newest.1,
      );
      within = λ p. omega (arith, room p);
    }

read-IsInbound : (r : Reader) (s : Session) → IsInbound s → IsInbound (read_as r s)
read-IsInbound fresh s h =
    if-cases IsInbound (s.joined && has_queue s.frame_queue)
      (λ _. taken-IsInbound s.frame_queue s refl h)
      (λ _. kept-IsInbound s _ (refl, refl, refl, refl) h)
read-IsInbound reading s h = taken-IsInbound s.frame_queue s refl h
read-IsInbound finished s h = h

pushed-IsInbound : (s : Session) (r : List SdkCall × Bool) → IsInbound s → After (pushed s r)
pushed-IsInbound s (calls, true) h = kept-IsInbound s _ (refl, refl, refl, refl) h
pushed-IsInbound s (calls, false) h = kept-IsInbound s _ (refl, refl, refl, refl) h

push-IsInbound :
    (fails : Option ℕ) (ts : ℕ) (pcm : List ℕ) (s : Session)
    → IsInbound s
    → After (push_audio fails ts pcm s)
unfolding push_audio push_frames
push-IsInbound fails ts pcm s h =
    let size = frame_size s.send_sample_rate s.send_channels in
    if-cases After (not (s.joined && s.engine)) (λ _. h)
      (λ _.
        if-cases After (s.send_sample_rate == 0 || s.send_channels == 0) (λ _. h)
          (λ _.
            if-cases After (is_nil pcm) (λ _. h)
              (λ _.
                if-cases After (size == 0) (λ _. h)
                  (λ _.
                    pushed-IsInbound s
                      (made fails
                        (frames_of (length pcm) size s.send_sample_rate s.send_channels ts pcm))
                      h))))

step-IsInbound : (s : Session) (i : Input) → IsInbound s → IsInbound (step s i)
unfolding step drain_turn read_frame
step-IsInbound s (join channel token uid rate channels env) h =
    join-IsInbound channel token uid rate channels env s h
step-IsInbound s leave h = leave-IsInbound s h
step-IsInbound s (drain raws) h =
    if-cases IsInbound s.drainer_task (λ _. drain-IsInbound raws s h) (λ _. h)
step-IsInbound s read h = read-IsInbound s.reader s h
step-IsInbound s (push fails ts pcm) h = push-IsInbound fails ts pcm s h

run-IsInbound_from : (s : Session) (is : List Input) → IsInbound s → IsInbound (run s is)
unfolding run
run-IsInbound_from s [] h = h
run-IsInbound_from s (i ∷ is) h = run-IsInbound_from (step s i) is (step-IsInbound s i h)

-- From a new session, whatever is called and drained: the frames yielded by `audio_frames` and those
-- that wait in its queue are of those that the drainer took, each once and in order; those that
-- wait are the last that it took; and where the capacity is not 0, there are at most twice as many.
pub run-IsInbound :
    (app_id gslb_server : Text) (inbound_capacity : ℕ) (is : List Input)
    → IsInbound (run (blank app_id gslb_server inbound_capacity) is)
unfolding blank
run-IsInbound app_id gslb_server inbound_capacity is =
    run-IsInbound_from (blank app_id gslb_server inbound_capacity) is
      (record { in_order = done; newest = ([], refl); within = tt })
