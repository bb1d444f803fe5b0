-- ===== src/RtcSession/Queueing.antt =====
-- What `audio_frames` of windows_dingrtc_session.py yields of the frames that its drainer takes.
use isales_telephony.Base.{
  ℕ, zero, suc, ◌≤◌, ◌≡◌, refl, sym, ap, ◌∙◌, subst, Bool, true, false, Option, none, some, List,
  [], ◌∷◌, ◌++◌, not, ◌&&◌, length, drop, Text, if-cases, Thinned, leave_last, take_last,
  Thinned-trans, Thinned-drop, Thinned-refl, append_assoc, append-nil, length-append, length-drop,
  arith, Bool-cases, inl, inr,
}
use isales_telephony.RtcSession.{
  PcmFrame, Item, audio, drainer_sentinel, SdkCall, SessionError, Session, is_full, queue_size,
  woken, teardown_partial, Callback, on_join, on_error, task_cancelled, JoinEnv, made, setup_calls,
  started, await_join, set_up, join_session, leave_session,
}
use isales_telephony.RtcSession.Audio.{put_newest, put_frame}

-- the frames that wait in a queue
abbrev pub frames_in : List Item → List PcmFrame
frames_in [] = []
frames_in (audio f ∷ q) = f ∷ frames_in q
frames_in (drainer_sentinel ∷ q) = frames_in q

abbrev pub waiting : Option (List Item) → List PcmFrame
waiting none = []
waiting (some q) = frames_in q

abbrev pub Within : ℕ → Option (List Item) → Type 0
Within size none = Unit
Within size (some q) = 1 ≤ size → length q ≤ size

-- The frames yielded and those that wait are of those drained, in order, some left out; what waits
-- are the last drained; and there is room for them.
pub record IsInbound (s : Session) : Type 0 where
  pub in_order : Thinned (s.received ++ waiting s.frame_queue) s.drained
  pub newest : (old : List PcmFrame) × (old ++ waiting s.frame_queue ≡ s.drained)
  pub within : Within (queue_size s) s.frame_queue

-- the frames that wait, and those yielded and drained, are those of `s`
abbrev SameFrames : Session → Session → Type 0
SameFrames s t =
    (t.frame_queue ≡ s.frame_queue)
    × (t.received ≡ s.received)
    × (t.drained ≡ s.drained)
    × (t.inbound_capacity ≡ s.inbound_capacity)

pub kept-IsInbound : (s t : Session) → SameFrames s t → IsInbound s → IsInbound t
kept-IsInbound s t (q, r, d, c) h = record {
  in_order = rw (q, r, d) h.in_order;
  newest = (h.newest.0, rw (q, d) (h.newest.1));
  within = rw (q, c) h.within;
}

frames_in-append : (p q : List Item) → frames_in (p ++ q) ≡ frames_in p ++ frames_in q
frames_in-append [] q = refl
frames_in-append (audio f ∷ p) q = ap (λ l. f ∷ l) (frames_in-append p q)
frames_in-append (drainer_sentinel ∷ p) q = frames_in-append p q

-- the sentinel is no frame
woken-waiting : (size : ℕ) (q : Option (List Item)) → waiting (woken size q) ≡ waiting q
unfolding woken
woken-waiting size none = refl
woken-waiting size (some q) = elim (Bool-cases (is_full size q)) [
  | inl o ↦ rw o refl
  | inr o ↦ rw o (frames_in-append q (drainer_sentinel ∷ []) ∙ append-nil (frames_in q))
]

woken-Within : (size : ℕ) (q : Option (List Item)) → Within size q → Within size (woken size q)
unfolding woken
woken-Within size none w = tt
woken-Within size (some q) w = elim (Bool-cases (is_full size q)) [
  | inl o ↦ rw o w
  | inr o ↦ rw o (λ p. ground (arith, o, w p, p, length-append q (drainer_sentinel ∷ [])))
]

teardown-IsInbound : (s : Session) → IsInbound s → IsInbound (teardown_partial s)
unfolding teardown_partial
teardown-IsInbound s h =
    let same = woken-waiting (queue_size s) s.frame_queue in
    record {
      in_order = rw same h.in_order;
      newest = (h.newest.0, ap (λ l. h.newest.0 ++ l) same ∙ h.newest.1);
      within = woken-Within (queue_size s) s.frame_queue h.within;
    }

drop_all : (l : List PcmFrame) → drop (length l) l ≡ []
drop_all [] = refl
drop_all (x ∷ l) = drop_all l

await_join-IsInbound :
    (callbacks : List Callback) (s : Session) → IsInbound s → IsInbound (await_join callbacks s).0
unfolding await_join started
await_join-IsInbound [] s h = teardown-IsInbound s h
await_join-IsInbound (task_cancelled ∷ _) s h = h
await_join-IsInbound (on_error code ∷ _) s h = teardown-IsInbound s h
await_join-IsInbound (on_join (suc code) ∷ _) s h = teardown-IsInbound s h
await_join-IsInbound (on_join zero ∷ _) s h =
    let w = waiting s.frame_queue in
    record {
      in_order =
          Thinned-trans
            (subst (λ l. Thinned (s.received ++ l) (s.received ++ w)) (drop_all w)
              (Thinned-drop (length w) s.received w))
            h.in_order;
      newest = (s.drained, append-nil s.drained);
      within = λ p. omega arith;
    }

set_up-IsInbound :
    (callbacks : List Callback) (s : Session) (r : List SdkCall × Bool)
    → IsInbound s
    → IsInbound (set_up callbacks s r).0
set_up-IsInbound callbacks s (calls, true) h = kept-IsInbound s _ (refl, refl, refl, refl) h
set_up-IsInbound callbacks s (calls, false) h =
    await_join-IsInbound callbacks _ (kept-IsInbound s _ (refl, refl, refl, refl) h)

abbrev pub After : Session × Option SessionError → Type 0
After r = IsInbound (r.0)

pub join-IsInbound :
    (channel token uid : Text) (rate channels : ℕ) (env : JoinEnv) (s : Session)
    → IsInbound s
    → After (join_session channel token uid rate channels env s)
unfolding join_session
join-IsInbound channel token uid rate channels env s h =
    if-cases After s.joined (λ _. h)
      (λ _.
        if-cases After s.closed (λ _. h)
          (λ _.
            let asked = record s { send_sample_rate = rate; send_channels = channels } in
            set_up-IsInbound env.callbacks asked
              (made env.fails (setup_calls channel token uid asked))
              (kept-IsInbound s asked (refl, refl, refl, refl) h)))

pub leave-IsInbound : (s : Session) → IsInbound s → IsInbound (leave_session s)
unfolding leave_session
leave-IsInbound s h =
    if-cases IsInbound (not s.joined && s.closed) (λ _. h)
      (λ _.
        kept-IsInbound _ _ (refl, refl, refl, refl)
          (teardown-IsInbound _ (kept-IsInbound s _ (refl, refl, refl, refl) h)))

-- the oldest item goes, if it is a frame
drop-Thinned :
    (xs : List PcmFrame) (q : List Item) → Thinned (xs ++ frames_in (drop 1 q)) (xs ++ frames_in q)
drop-Thinned xs [] = Thinned-refl _
drop-Thinned xs (drainer_sentinel ∷ q) = Thinned-refl _
drop-Thinned xs (audio f ∷ q) = Thinned-drop 1 xs (f ∷ frames_in q)

drop-newest :
    (old : List PcmFrame) (q : List Item)
    → (pre : List PcmFrame) × (pre ++ frames_in (drop 1 q) ≡ old ++ frames_in q)
drop-newest old [] = (old, refl)
drop-newest old (drainer_sentinel ∷ q) = (old, refl)
drop-newest old (audio f ∷ q) = (old ++ f ∷ [], append_assoc old (f ∷ []) (frames_in q))

-- what is put is put behind a part of what waits
record IsPut (size : ℕ) (f : PcmFrame) (q r : List Item) : Type 0 where
  rest : List Item
  put_so : r ≡ rest ++ audio f ∷ []
  thinner : (xs : List PcmFrame) → Thinned (xs ++ frames_in rest) (xs ++ frames_in q)
  later :
      (old : List PcmFrame) → (pre : List PcmFrame) × (pre ++ frames_in rest ≡ old ++ frames_in q)
  room : (1 ≤ size → length q ≤ size) → 1 ≤ size → length r ≤ size

put_newest-IsPut :
    (size : ℕ) (f : PcmFrame) (q : List Item) → IsPut size f q (put_newest size (audio f) q)
unfolding put_newest
put_newest-IsPut size f q = elim (Bool-cases (is_full size q)) [
  | inl o ↦ rw o (record {
    rest = drop 1 q;
    put_so = refl;
    thinner = λ xs. drop-Thinned xs q;
    later = λ old. drop-newest old q;
    room = λ w p. omega (arith, w p, length-append (drop 1 q) (audio f ∷ []), length-drop 1 q);
  })
  | inr o ↦ rw o (record {
    rest = q;
    put_so = refl;
    thinner = λ xs. Thinned-refl _;
    later = λ old. (old, refl);
    room = λ w p. ground (arith, o, w p, p, length-append q (audio f ∷ []));
  })
]

pub put_frame-waiting :
    (size : ℕ) (f : PcmFrame) (q : Option (List Item)) (xs ys : List PcmFrame)
    → Thinned (xs ++ waiting q) ys
    → (old : List PcmFrame) × (old ++ waiting q ≡ ys)
    → Within size q
    → Thinned (xs ++ waiting (put_frame size f q)) (ys ++ f ∷ [])
      × ((old : List PcmFrame) × (old ++ waiting (put_frame size f q) ≡ ys ++ f ∷ []))
      × Within size (put_frame size f q)
put_frame-waiting size f none xs ys h n w =
    (leave_last f h, (ys ++ f ∷ [], append-nil (ys ++ f ∷ [])), tt)
put_frame-waiting size f (some q) xs ys h (old, e) w =
    let p = put_newest-IsPut size f q in
    let l = p.later old in
    let behind : frames_in (put_newest size (audio f) q) ≡ frames_in p.rest ++ f ∷ [] =
      ap frames_in p.put_so ∙ frames_in-append p.rest (audio f ∷ []) in
    (
      rw (behind, ← append_assoc) (take_last f (Thinned-trans (p.thinner xs) h)),
      (
        l.0,
        ap (λ r. l.0 ++ r) behind
            ∙ sym (append_assoc (l.0) (frames_in p.rest) (f ∷ []))
            ∙ ap (λ r. r ++ f ∷ []) (l.1 ∙ e),
      ),
      p.room w,
    )
