-- ===== src/AudioBridge/Relaying.antt =====
-- What the upstream pump of bridge.py does with the chunks of the modem.
use isales_telephony.Base.{
  ℕ, ◌+◌, ◌≡◌, refl, ap, sym, ◌∙◌, Option, none, some, List, [], ◌∷◌, ◌++◌, append-nil,
  append_assoc, ◌≤◌, length, length-append, length-join_snoc, join, arith, Bool-cases, inl, inr,
  Outcome, ok, err, ==_iff,
}
use isales_telephony.RingBuffer.{Bytes, Ring, RingError, put, Got, get, got, stop_iteration, waits}
use isales_telephony.Recorder.{CallTracks, Recorder, find, append_user}
use isales_telephony.Recorder.Tracks.{find-assign}
use isales_telephony.AudioBridge.{
  Phase, polling, pushing, exited, Upstream, PushAnswer, accepted, backpressure, not_joined,
  other_error, UpInput, modem_put, resume, set_stop, cancel, answer, held, exit, on_resampled,
  is_empty, on_got, tap_user, pushed, on_answer, on_resume, upstream_step, upstream_loop, with_ring,
}

abbrev pub user_chunks_of : Option CallTracks → Option (List Bytes)
user_chunks_of none = none
user_chunks_of (some t) = some t.user_chunks

-- The chunks that the call's recorder holds of the user; none without a recording of the call.
abbrev pub user_track : Option (ℕ × Recorder) → Option (List Bytes)
user_track none = none
user_track (some (call_id, r)) = user_chunks_of (find call_id r.tracks)

-- The track has grown by the chunks, where there is one.
abbrev pub grown : Option (List Bytes) → List Bytes → Option (List Bytes)
grown none chunks = none
grown (some old) chunks = some (old ++ chunks)

-- What holds of the pump, whose recording held `track` at its start: the chunks resampled are those
-- that the session took, in order, then one in hand at most; and the counters and the recording are
-- of the chunks that the session took.
pub record IsRelayed (track : Option (List Bytes)) (u : Upstream) : Type 0 where
  pub relayed : u.taken ≡ u.sent ++ held u.phase
  pub one_lost : length (held u.phase) ≤ 1
  pub chunks : u.stats.upstream_chunks ≡ length u.sent
  pub bytes : u.stats.upstream_bytes ≡ length (join u.sent)
  pub recorded : user_track u.recorder ≡ grown track u.sent

exit-IsRelayed :
    (track : Option (List Bytes)) (u : Upstream) → IsRelayed track u → IsRelayed track (exit u)
unfolding exit
exit-IsRelayed track u h = record {
  relayed = h.relayed;
  one_lost = h.one_lost;
  chunks = h.chunks;
  bytes = h.bytes;
  recorded = h.recorded;
}

with_ring-IsRelayed :
    (track : Option (List Bytes)) (u : Upstream) (o : Outcome RingError Ring)
    → IsRelayed track u
    → IsRelayed track (with_ring u o)
with_ring-IsRelayed track u (ok ring) h = record {
  relayed = h.relayed;
  one_lost = h.one_lost;
  chunks = h.chunks;
  bytes = h.bytes;
  recorded = h.recorded;
}
with_ring-IsRelayed track u (err e) h = h

on_got-IsRelayed :
    (track : Option (List Bytes)) (up_resampler : Bytes → Option Bytes) (u : Upstream) (g : Got)
    → u.phase ≡ polling
    → IsRelayed track u
    → IsRelayed track (on_got up_resampler u g)
on_got-IsRelayed track up_resampler u waits p h = h
on_got-IsRelayed track up_resampler u stop_iteration p h = exit-IsRelayed track u h
on_got-IsRelayed track up_resampler u (got chunk ring) p h = elim (Bool-cases (is_empty chunk)) [
  | inl o ↦ rw o (with_ring-IsRelayed track u (ok ring) h)
  | inr o ↦ rw o (resampled (up_resampler chunk))
]
  where
    resampled :
        (o : Option Bytes) → IsRelayed track (on_resampled (record u { modem_upstream = ring }) o)
    resampled none = exit-IsRelayed track _ (with_ring-IsRelayed track u (ok ring) h)
    resampled (some pcm) = record {
      relayed = ap (λ l. l ++ pcm ∷ []) (h.relayed ∙ ap (λ q. u.sent ++ held q) p ∙ append-nil _);
      one_lost = omega arith;
      chunks = h.chunks;
      bytes = h.bytes;
      recorded = h.recorded;
    }

user_track-tap :
    (pcm : Bytes) (r : Option (ℕ × Recorder))
    → user_track (tap_user pcm r) ≡ grown (user_track r) (pcm ∷ [])
unfolding append_user
user_track-tap pcm none = refl
user_track-tap pcm (some (id, r)) = with_found (find id r.tracks) refl
  where
    with_found :
        (o : Option CallTracks)
        → find id r.tracks ≡ o
        → user_chunks_of (find id (append_user id pcm r).tracks)
          ≡ grown (user_chunks_of (find id r.tracks)) (pcm ∷ [])
    with_found none e = rw (e, e) refl
    with_found (some t) e =
        rw
          (
            e,
            find-assign id id (record t { user_chunks = t.user_chunks ++ pcm ∷ [] }) r,
            (==_iff id id).1 refl,
          )
          refl

pub grown-grown :
    (track : Option (List Bytes)) (xs ys : List Bytes)
    → grown (grown track xs) ys ≡ grown track (xs ++ ys)
grown-grown none xs ys = refl
grown-grown (some old) xs ys = ap some (append_assoc old xs ys)

length-snoc : (xs : List Bytes) (x : Bytes) → length (xs ++ x ∷ []) ≡ length xs + 1
length-snoc xs x = length-append xs (x ∷ [])

pushed-IsRelayed :
    (track : Option (List Bytes)) (u : Upstream) (pcm : Bytes)
    → u.phase ≡ pushing pcm
    → IsRelayed track u
    → IsRelayed track (pushed pcm u)
unfolding pushed
pushed-IsRelayed track u pcm p h = record {
  relayed = h.relayed ∙ ap (λ q. u.sent ++ held q) p ∙ sym (append-nil _);
  one_lost = omega arith;
  chunks = ap (λ n. n + 1) h.chunks ∙ sym (length-snoc u.sent pcm);
  bytes = ap (λ n. n + length pcm) h.bytes ∙ sym (length-join_snoc u.sent pcm);
  recorded =
      user_track-tap pcm u.recorder
      ∙ ap (λ o. grown o (pcm ∷ [])) h.recorded
      ∙ grown-grown track u.sent (pcm ∷ []);
}

on_answer-IsRelayed :
    (track : Option (List Bytes)) (a : PushAnswer) (q : Phase) (u : Upstream)
    → u.phase ≡ q
    → IsRelayed track u
    → IsRelayed track (on_answer a q u)
unfolding on_answer
on_answer-IsRelayed track a polling u p h = h
on_answer-IsRelayed track a (exited lost) u p h = h
on_answer-IsRelayed track accepted (pushing pcm) u p h = pushed-IsRelayed track u pcm p h
on_answer-IsRelayed track not_joined (pushing pcm) u p h = exit-IsRelayed track u h
on_answer-IsRelayed track other_error (pushing pcm) u p h = exit-IsRelayed track u h
on_answer-IsRelayed track backpressure (pushing pcm) u p h = record {
  relayed = h.relayed;
  one_lost = h.one_lost;
  chunks = h.chunks;
  bytes = h.bytes;
  recorded = h.recorded;
}

on_resume-IsRelayed :
    (track : Option (List Bytes)) (up_resampler : Bytes → Option Bytes) (q : Phase) (u : Upstream)
    → u.phase ≡ q
    → IsRelayed track u
    → IsRelayed track (on_resume up_resampler q u)
unfolding on_resume
on_resume-IsRelayed track up_resampler (pushing pcm) u p h = h
on_resume-IsRelayed track up_resampler (exited lost) u p h = h
on_resume-IsRelayed track up_resampler polling u p h = elim (Bool-cases u.stop_event) [
  | inl o ↦ simp o (exit-IsRelayed track u h)
  | inr o ↦ simp o (on_got-IsRelayed track up_resampler u (get u.modem_upstream) p h)
]

upstream_step-IsRelayed :
    (track : Option (List Bytes)) (up_resampler : Bytes → Option Bytes) (i : UpInput) (u : Upstream)
    → IsRelayed track u
    → IsRelayed track (upstream_step up_resampler i u)
unfolding upstream_step
upstream_step-IsRelayed track f (modem_put chunk) u h =
    with_ring-IsRelayed track u (put chunk u.modem_upstream) h
upstream_step-IsRelayed track f resume u h = on_resume-IsRelayed track f u.phase u refl h
upstream_step-IsRelayed track f set_stop u h = record {
  relayed = h.relayed;
  one_lost = h.one_lost;
  chunks = h.chunks;
  bytes = h.bytes;
  recorded = h.recorded;
}
upstream_step-IsRelayed track f cancel u h = exit-IsRelayed track u h
upstream_step-IsRelayed track f (answer a) u h = on_answer-IsRelayed track a u.phase u refl h

-- However the modem, the RTC session and the tasks that stop the pump interleave with it: every
-- resampled chunk was accepted by the session, once and in order, but for one in hand at most, which
-- is also all that is lost where the pump has returned; the counters of chunks and bytes are of what
-- was accepted; and the user's track of the call's recording has grown by just that.
pub upstream_loop-IsRelayed :
    (track : Option (List Bytes)) (up_resampler : Bytes → Option Bytes) (is : List UpInput)
    (u : Upstream)
    → IsRelayed track u
    → IsRelayed track (upstream_loop up_resampler is u)
unfolding upstream_loop
upstream_loop-IsRelayed track f [] u h = h
upstream_loop-IsRelayed track f (i ∷ is) u h =
    upstream_loop-IsRelayed track f is (upstream_step f i u) (upstream_step-IsRelayed track f i u h)
