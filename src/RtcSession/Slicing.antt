-- ===== src/RtcSession/Slicing.antt =====
-- What `push_audio` of windows_dingrtc_session.py gives to the binding.
use isales_telephony.Base.{
  ℕ, suc, ◌*◌, ◌/◌, ◌≤◌, ◌<◌, ◌≡◌, refl, sym, ap, ◌∙◌, true, false, Option, none, some, List, [],
  ◌∷◌, ◌++◌, ltb, ◌==◌, not, ◌&&◌, ◌||◌, length, take, arith, append-nil, lt→ltb, if-cases,
}
use isales_telephony.RtcSession.{Bytes, SdkCall, SessionError, push_failed, Session, made}
use isales_telephony.RtcSession.Audio.{
  frames_of, push_frames, push_audio, frame_size, is_nil, pushed,
}
use isales_telephony.RtcSession.Cutting.{
  stamped, length-stamped, IsCut, cut, frames_of-stamped, cut-IsCut,
}

-- What `push_audio` does to a session that can push: it pushes the chunk cut into frames, or as
-- many of them as there are up to the one whose push raises.
pub record IsPushed (fails : Option ℕ) (ts : ℕ) (pcm : Bytes) (s : Session) : Type 0 where
  pub frames : List Bytes
  pub cut_so : IsCut (s.send_sample_rate / 100 * s.send_channels * 2) pcm frames
  pub all_pushed :
      fails ≡ none
      → push_audio fails ts pcm s
        ≡ (record s { log = s.log ++ stamped s.send_sample_rate s.send_channels ts frames }, none)
  pub one_raised :
      (k : ℕ)
      → fails ≡ some k
      → k < length frames
      → push_audio fails ts pcm s ≡ (
        record s {
          log = s.log ++ take (suc k) (stamped s.send_sample_rate s.send_channels ts frames);
        },
        some push_failed,
      )

times-positive : (a b : ℕ) → 1 ≤ a → 1 ≤ b → 1 ≤ a * b * 2
times-positive a b p q = grind arith

positive : (rate channels : ℕ) → 100 ≤ rate → 1 ≤ channels → 1 ≤ rate / 100 * channels * 2
positive rate channels r c = times-positive (rate / 100) channels (omega arith) c

none_before : (k : ℕ) → ltb k 0 ≡ false
none_before k = ground arith

made-some :
    (k : ℕ) (calls : List SdkCall)
    → k < length calls
    → made (some k) calls ≡ (take (suc k) calls, true)
unfolding made
made-some k calls lt = rw (lt→ltb k (length calls) lt) refl

-- `push_audio` where nothing refuses the chunk
allowed_push :
    (fails : Option ℕ) (ts : ℕ) (pcm : Bytes) (s : Session)
    → s.joined ≡ true
    → s.engine ≡ true
    → 100 ≤ s.send_sample_rate
    → 1 ≤ s.send_channels
    → push_audio fails ts pcm s
      ≡ pushed s (
          made fails (
            frames_of
              (length pcm)
              (frame_size s.send_sample_rate s.send_channels)
              s.send_sample_rate
              s.send_channels
              ts
              pcm))
unfolding push_audio push_frames frame_size made frames_of
allowed_push fails ts pcm s j e r c =
    if-cases IsTarget (not (s.joined && s.engine)) (λ q. absurd (ground (arith, j, e, q)))
      (λ _.
        if-cases IsTarget (s.send_sample_rate == 0 || s.send_channels == 0)
          (λ q. absurd (ground (arith, r, c, q)))
          (λ _.
            if-cases IsTarget (is_nil pcm) (empty fails pcm)
              (λ _. if-cases IsTarget (size == 0) (λ q. absurd (some_left q)) (λ _. refl))))
  where
    size : ℕ
    size = s.send_sample_rate / 100 * s.send_channels * 2

    IsTarget : Session × Option SessionError → Type 0
    IsTarget x =
        x
        ≡ pushed s
            (made fails (frames_of (length pcm) size s.send_sample_rate s.send_channels ts pcm))

    some_left : size == 0 ≡ true → ⊥
    some_left q = ground (arith, positive s.send_sample_rate s.send_channels r c, q)

    empty :
        (f : Option ℕ) (bs : Bytes)
        → is_nil bs ≡ true
        → (s, none)
          ≡ pushed s (made f (frames_of (length bs) size s.send_sample_rate s.send_channels ts bs))
    empty none [] q = ap (λ l. (record s { log = l }, none)) (sym (append-nil s.log))
    empty (some k) [] q =
        rw (none_before k) (ap (λ l. (record s { log = l }, none)) (sym (append-nil s.log)))
    empty f (b ∷ bs) q = absurd (ground (arith, q))

-- A chunk given to `push_audio` of a session that is joined, with a rate of 100 or more and a
-- channel: it is cut into frames of 10 ms, the last one filled up with zeros, whose bytes are the
-- chunk's in order; each is pushed once, at times 10 ms apart; and where the push of one raises, so
-- does `push_audio`, behind it and before the next.
pub push_audio-IsPushed :
    (fails : Option ℕ) (ts : ℕ) (pcm : Bytes) (s : Session)
    → s.joined ≡ true
    → s.engine ≡ true
    → 100 ≤ s.send_sample_rate
    → 1 ≤ s.send_channels
    → IsPushed fails ts pcm s
unfolding made frame_size
push_audio-IsPushed fails ts pcm s j e r c =
    let rate = s.send_sample_rate in
    let size = rate / 100 * s.send_channels * 2 in
    let frames = cut (length pcm) size pcm in
    let calls = frames_of (length pcm) size rate s.send_channels ts pcm in
    let said = allowed_push fails ts pcm s j e r c in
    let same : calls ≡ stamped rate s.send_channels ts frames =
      frames_of-stamped (length pcm) size rate s.send_channels ts pcm in
    let count : length calls ≡ length frames =
      ap length same ∙ length-stamped rate s.send_channels ts frames in
    record {
      frames = frames;
      cut_so = cut-IsCut (length pcm) size pcm (positive rate s.send_channels r c) (omega arith);
      all_pushed = λ n.
          said
          ∙ ap (λ f. pushed s (made f calls)) n
          ∙ ap (λ l. (record s { log = s.log ++ l }, none)) same;
      one_raised = λ k n lt.
          said
          ∙ ap (λ f. pushed s (made f calls)) n
          ∙ ap (pushed s) (made-some k calls (omega (arith, count)))
          ∙ ap (λ l. (record s { log = s.log ++ take (suc k) l }, some push_failed)) same;
    }
