-- ===== src/AudioBridge/Serving.antt =====
-- What the downstream pump of bridge.py makes of the frames of the RTC session.
use isales_telephony.Base.{
  ℕ, ◌+◌, ◌≡◌, refl, ap, sym, ◌∙◌, subst, true, false, Option, none, some, List, [], ◌∷◌, ◌++◌,
  append-nil, append_assoc, length, if◌then◌else◌, arith, Bool-cases, inl, inr, ==_iff, ◌≢◌, ◌⊎◌,
  ◌*◌, suc, map, All, not, ◌&&◌, ◌==◌,
}
use isales_telephony.RingBuffer.{Bytes}
use isales_telephony.Recorder.{CallTracks, Recorder, find, append_ai}
use isales_telephony.RingBuffer.Opening.{put-open}
use isales_telephony.Recorder.Tracks.{find-assign}
use isales_telephony.AudioBridge.Downstream.{
  Frame, convert, tobytes, Down, tap_ai, is_foreign, on_frame, downstream_loop,
}
use isales_telephony.AudioBridge.Sampling.{flat, AreSamples, IsResampled, convert-IsResampled}
use isales_telephony.AudioBridge.Relaying.{grown, grown-grown}

abbrev pub ai_chunks_of : Option CallTracks → Option (List Bytes)
ai_chunks_of none = none
ai_chunks_of (some t) = some t.ai_chunks

-- The chunks that the call's recorder holds of the AI; none without a recording of the call.
abbrev pub ai_track : Option (ℕ × Recorder) → Option (List Bytes)
ai_track none = none
ai_track (some (call_id, r)) = ai_chunks_of (find call_id r.tracks)

-- the frames of the peer, by their bytes
abbrev pub spoken : ℕ → List Frame → List Bytes
spoken peer [] = []
spoken peer (f ∷ frames) =
    let rest = spoken peer frames in if is_foreign peer f then rest else f.pcm ∷ rest

abbrev pub listed : Option Bytes → List Bytes → List Bytes
listed none rest = rest
listed (some pcm) rest = pcm ∷ rest

-- the frames of the peer, as converted for the modem
abbrev pub outputs : (ℕ → List ℕ → List ℕ) → ℕ → List Frame → List Bytes
outputs interp peer [] = []
outputs interp peer (f ∷ frames) =
    let rest = outputs interp peer frames in
    if is_foreign peer f then rest else listed (convert interp f) rest

-- Each frame of the peer is converted without an exception.
abbrev pub AllConvertible : (ℕ → List ℕ → List ℕ) → ℕ → List Frame → Type 0
AllConvertible interp peer [] = Unit
AllConvertible interp peer (f ∷ frames) =
    (is_foreign peer f ≡ false → (pcm : Bytes) × (convert interp f ≡ some pcm))
    × AllConvertible interp peer frames

-- The pump has served the frames, and goes on.
record IsPumped (interp : ℕ → List ℕ → List ℕ) (frames : List Frame) (d t : Down) : Type 0 where
  pub running : t.running ≡ true
  pub ring_open : t.modem_downstream.closed ≡ false
  pub played : t.played ≡ d.played ++ outputs interp d.peer_uid frames
  pub counted :
      t.stats.downstream_chunks + t.stats.downstream_uid_filtered
      ≡ d.stats.downstream_chunks + d.stats.downstream_uid_filtered + length frames
  pub recorded : ai_track t.recorder ≡ grown (ai_track d.recorder) (spoken d.peer_uid frames)

ai_track-tap :
    (pcm : Bytes) (r : Option (ℕ × Recorder))
    → ai_track (tap_ai pcm r) ≡ grown (ai_track r) (pcm ∷ [])
unfolding append_ai
ai_track-tap pcm none = refl
ai_track-tap pcm (some (id, r)) = with_found (find id r.tracks) refl
  where
    with_found :
        (o : Option CallTracks)
        → find id r.tracks ≡ o
        → ai_chunks_of (find id (append_ai id pcm r).tracks)
          ≡ grown (ai_chunks_of (find id r.tracks)) (pcm ∷ [])
    with_found none e = rw (e, e) refl
    with_found (some t) e =
        rw
          (
            e,
            find-assign id id (record t { ai_chunks = t.ai_chunks ++ pcm ∷ [] }) r,
            (==_iff id id).1 refl,
          )
          refl

-- one frame: the pump goes on, with what the frame adds
pub record IsStep (interp : ℕ → List ℕ → List ℕ) (f : Frame) (d t : Down) : Type 0 where
  pub running : t.running ≡ true
  pub ring_open : t.modem_downstream.closed ≡ false
  pub peer : t.peer_uid ≡ d.peer_uid
  pub played : t.played ≡ d.played ++ outputs interp d.peer_uid (f ∷ [])
  pub counted :
      t.stats.downstream_chunks + t.stats.downstream_uid_filtered
      ≡ d.stats.downstream_chunks + d.stats.downstream_uid_filtered + 1
  pub recorded : ai_track t.recorder ≡ grown (ai_track d.recorder) (spoken d.peer_uid (f ∷ []))

grown-nil : (o : Option (List Bytes)) → grown o [] ≡ o
grown-nil none = refl
grown-nil (some l) = ap some (append-nil l)

on_frame-IsStep :
    (interp : ℕ → List ℕ → List ℕ) (f : Frame) (d : Down)
    → d.running ≡ true
    → d.modem_downstream.closed ≡ false
    → (is_foreign d.peer_uid f ≡ false → (pcm : Bytes) × (convert interp f ≡ some pcm))
    → IsStep interp f d (on_frame interp f d)
unfolding on_frame
on_frame-IsStep interp f d run o c = elim (Bool-cases (is_foreign d.peer_uid f)) [
  | inl q ↦ rw q (record {
    running = run;
    ring_open = o;
    peer = refl;
    played = rw q (sym (append-nil d.played));
    counted = omega arith;
    recorded = rw q (sym (grown-nil (ai_track d.recorder)));
  })
  | inr q ↦
      let pcm = c q in
      let s = put-open pcm.0 d.modem_downstream o in
      rw (q, pcm.1, s.1)
        (record {
          running = run;
          ring_open = s.2;
          peer = refl;
          played = rw (q, pcm.1) refl;
          counted = omega arith;
          recorded = rw q (ai_track-tap f.pcm d.recorder);
        })
]

outputs-cons :
    (interp : ℕ → List ℕ → List ℕ) (peer : ℕ) (f : Frame) (frames : List Frame)
    → outputs interp peer (f ∷ []) ++ outputs interp peer frames ≡ outputs interp peer (f ∷ frames)
outputs-cons interp peer f frames = elim (Bool-cases (is_foreign peer f)) [
  | inl q ↦ rw q refl
  | inr q ↦ rw q (one (convert interp f))
]
  where
    one :
        (o : Option Bytes)
        → listed o [] ++ outputs interp peer frames ≡ listed o (outputs interp peer frames)
    one none = refl
    one (some pcm) = refl

spoken-cons :
    (peer : ℕ) (f : Frame) (frames : List Frame)
    → spoken peer (f ∷ []) ++ spoken peer frames ≡ spoken peer (f ∷ frames)
spoken-cons peer f frames = elim (Bool-cases (is_foreign peer f)) [
  | inl q ↦ rw q refl
  | inr q ↦ rw q refl
]

step-IsPumped :
    (interp : ℕ → List ℕ → List ℕ) (f : Frame) (frames : List Frame) (d t u : Down)
    → IsStep interp f d t
    → IsPumped interp frames t u
    → IsPumped interp (f ∷ frames) d u
step-IsPumped interp f frames d t u s h = record {
  running = h.running;
  ring_open = h.ring_open;
  played =
      h.played
      ∙ ap (λ p. t.played ++ outputs interp p frames) s.peer
      ∙ ap (λ l. l ++ outputs interp d.peer_uid frames) s.played
      ∙ append_assoc d.played (outputs interp d.peer_uid (f ∷ []))
          (outputs interp d.peer_uid frames)
      ∙ ap (λ l. d.played ++ l) (outputs-cons interp d.peer_uid f frames);
  counted = omega (arith, h.counted, s.counted);
  recorded =
      h.recorded
      ∙ ap (λ p. grown (ai_track t.recorder) (spoken p frames)) s.peer
      ∙ ap (λ o. grown o (spoken d.peer_uid frames)) s.recorded
      ∙ grown-grown (ai_track d.recorder) (spoken d.peer_uid (f ∷ [])) (spoken d.peer_uid frames)
      ∙ ap (grown (ai_track d.recorder)) (spoken-cons d.peer_uid f frames);
}

downstream_loop-IsPumped :
    (interp : ℕ → List ℕ → List ℕ) (frames : List Frame) (d : Down)
    → d.running ≡ true
    → d.modem_downstream.closed ≡ false
    → AllConvertible interp d.peer_uid frames
    → IsPumped interp frames d (downstream_loop interp frames d)
unfolding downstream_loop
downstream_loop-IsPumped interp [] d run o c = record {
  running = run;
  ring_open = o;
  played = sym (append-nil d.played);
  counted = omega arith;
  recorded = sym (grown-nil (ai_track d.recorder));
}
downstream_loop-IsPumped interp (f ∷ frames) d run o (c, cs) =
    let s : IsStep interp f d (on_frame interp f d) = on_frame-IsStep interp f d run o c in
    let rest =
      downstream_loop-IsPumped interp frames (on_frame interp f d) s.running s.ring_open
        (subst (λ p. AllConvertible interp p frames) (sym s.peer) cs) in
    subst
      (λ b.
        IsPumped interp (f ∷ frames) d
          (if b then downstream_loop interp frames (on_frame interp f d) else d))
      (sym run)
      (step-IsPumped interp f frames d (on_frame interp f d)
        (downstream_loop interp frames (on_frame interp f d)) s rest)

-- A stereo frame by its pairs of samples; its rate is 8000 * (step + 1).
pub record Stereo : Type 0 where
  pub uid : ℕ
  pub step : ℕ
  pub pairs : List (ℕ × ℕ)

abbrev pub frame_of : Stereo → Frame
frame_of s = record {
  sender_uid = s.uid;
  pcm = tobytes (flat s.pairs);
  sample_rate = 8000 * suc s.step;
  channels = 2;
}

-- What is put into the ring for the frames, and what is recorded of them: nothing of a frame whose
-- uid is neither empty nor the peer's; of any other one, the mean of left and right at each moment
-- that is played, and its own bytes.
pub data Serves (peer : ℕ) : List Stereo → List Bytes → List Bytes → Type 0 where
  ended : Serves peer [] [] []
  filters :
      {s : Stereo} {frames : List Stereo} {out said : List Bytes}
      → s.uid ≢ 0
      → s.uid ≢ peer
      → Serves peer frames out said
      → Serves peer (s ∷ frames) out said
  plays :
      {s : Stereo} {frames : List Stereo} {out said : List Bytes} {pcm : Bytes}
      → (s.uid ≡ 0) ⊎ (s.uid ≡ peer)
      → IsResampled s.step s.pairs (some pcm)
      → Serves peer frames out said
      → Serves peer (s ∷ frames) (pcm ∷ out) (tobytes (flat s.pairs) ∷ said)

-- The pump goes on, has put `out` into the ring and added `said` to the AI's track.
pub record IsServed (frames : List Stereo) (d t : Down) : Type 0 where
  pub out : List Bytes
  pub said : List Bytes
  pub serves : Serves d.peer_uid frames out said
  pub running : t.running ≡ true
  pub played : t.played ≡ d.played ++ out
  pub recorded : ai_track t.recorder ≡ grown (ai_track d.recorder) said
  pub counted :
      t.stats.downstream_chunks + t.stats.downstream_uid_filtered
      ≡ d.stats.downstream_chunks + d.stats.downstream_uid_filtered + length frames

abbrev pub AllSamples : List Stereo → Type 0
AllSamples frames = All (λ s. AreSamples s.pairs) frames

length-frames : (frames : List Stereo) → length (map frame_of frames) ≡ length frames
length-frames [] = refl
length-frames (s ∷ frames) = omega (arith, length-frames frames)

heard_of : (uid peer : ℕ) → not (uid == 0) && not (uid == peer) ≡ false → (uid ≡ 0) ⊎ (uid ≡ peer)
heard_of uid peer q = elim (Bool-cases (uid == 0)) [
  | inl e ↦ inl ((==_iff uid 0).0 e)
  | inr e ↦ inr (ground (arith, q, e))
]

convertible :
    (interp : ℕ → List ℕ → List ℕ) (peer : ℕ) (frames : List Stereo)
    → AllSamples frames
    → AllConvertible interp peer (map frame_of frames)
convertible interp peer [] h = tt
convertible interp peer (s ∷ frames) (a, h) =
    let r = convert-IsResampled interp s.step s.uid s.pairs a in
    ((λ _. (tobytes r.samples, r.bytes)), convertible interp peer frames h)

outputs-Serves :
    (interp : ℕ → List ℕ → List ℕ) (peer : ℕ) (frames : List Stereo)
    → AllSamples frames
    → Serves peer frames
        (outputs interp peer (map frame_of frames))
        (spoken peer (map frame_of frames))
outputs-Serves interp peer [] h = ended
outputs-Serves interp peer (s ∷ frames) (a, h) = elim (Bool-cases (is_foreign peer (frame_of s))) [
  | inl q ↦
      rw q (filters (ground (arith, q)) (ground (arith, q)) (outputs-Serves interp peer frames h))
  | inr q ↦
      let r = convert-IsResampled interp s.step s.uid s.pairs a in
      rw (q, r.bytes)
        (plays (heard_of s.uid peer q) (record { samples = r.samples; bytes = refl; each = r.each })
          (outputs-Serves interp peer frames h))
]

-- While the ring of the modem is open, and on stereo frames of 16-bit samples at rates that are
-- positive multiples of 8000, the pump never stops. It drops the frames whose uid is neither empty nor
-- the peer's; of each other one it puts into the ring, in order, the means of left and right at every
-- (rate / 8000)-th moment, and adds its bytes as they came to the AI's track of the recording; nothing
-- else is put or added; and it counts each frame, either as a chunk or as filtered.
pub downstream_loop-IsServed :
    (interp : ℕ → List ℕ → List ℕ) (frames : List Stereo) (d : Down)
    → d.running ≡ true
    → d.modem_downstream.closed ≡ false
    → AllSamples frames
    → IsServed frames d (downstream_loop interp (map frame_of frames) d)
downstream_loop-IsServed interp frames d run o h =
    let p =
      downstream_loop-IsPumped interp (map frame_of frames) d run o
        (convertible interp d.peer_uid frames h) in
    record {
      out = outputs interp d.peer_uid (map frame_of frames);
      said = spoken d.peer_uid (map frame_of frames);
      serves = outputs-Serves interp d.peer_uid frames h;
      running = p.running;
      played = p.played;
      recorded = p.recorded;
      counted = omega (arith, p.counted, length-frames frames);
    }
