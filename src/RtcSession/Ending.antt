-- ===== src/RtcSession/Ending.antt =====
-- How `audio_frames` of windows_dingrtc_session.py ends once the session is left.
use isales_telephony.Base.{
  ℕ, zero, suc, ◌≡◌, refl, sym, ap, ◌∙◌, Bool, true, false, some, List, [], ◌∷◌, ◌++◌, length,
  if◌then◌else◌, map, append-nil, append_assoc, if-cases, not, ◌&&◌, arith, clash,
}
use isales_telephony.RtcSession.{
  PcmFrame, Item, audio, drainer_sentinel, Session, reading, finished, is_full, queue_size, woken,
  teardown_partial, leave_session, said, leave_channel,
}
use isales_telephony.RtcSession.Audio.{take_frame, read_frame}

-- `n` turns of the generator
unfoldable pub reads : ℕ → Session → Session
reads zero s = s
reads (suc n) s = reads n (read_frame s)

-- a session whose generator runs, and for which these items wait
abbrev pub with_items : List Item → Session → Session
with_items q s = record s { frame_queue = some q; reader = reading }

abbrev pub with_frames : List PcmFrame → Session → Session
with_frames fs s = with_items (map audio fs) s

reads_yield :
    (fs : List PcmFrame) (rest : List Item) (s : Session)
    → reads (length fs) (with_items (map audio fs ++ rest) s)
      ≡ with_items rest (record s { received = s.received ++ fs })
unfolding reads read_frame take_frame
reads_yield [] rest s =
    ap (λ r. with_items rest (record s { received = r })) (sym (append-nil s.received))
reads_yield (f ∷ fs) rest s =
    reads_yield fs rest (record s { received = s.received ++ f ∷ [] })
    ∙ ap (λ r. with_items rest (record s { received = r })) (append_assoc s.received (f ∷ []) fs)

reads_end :
    (fs : List PcmFrame) (s : Session)
    → (reads (suc (length fs)) (with_items (map audio fs ++ drainer_sentinel ∷ []) s)).reader
      ≡ finished
unfolding reads read_frame take_frame
reads_end [] s = refl
reads_end (f ∷ fs) s = reads_end fs (record s { received = s.received ++ f ∷ [] })

-- with no sentinel behind the frames the generator waits for ever
reads_wait :
    (n : ℕ) (fs : List PcmFrame) (s : Session) → (reads n (with_frames fs s)).reader ≡ reading
unfolding reads read_frame take_frame
reads_wait zero fs s = refl
reads_wait (suc n) [] s = reads_wait n [] s
reads_wait (suc n) (f ∷ fs) s = reads_wait n fs (record s { received = s.received ++ f ∷ [] })

-- The generator still yields what waits; then it ends where the queue was not full, and where it was
-- full, it waits for ever.
pub record IsEnded (full : Bool) (fs received : List PcmFrame) (s : Session) : Type 0 where
  pub yielded : (reads (length fs) s).received ≡ received ++ fs
  pub ends : full ≡ false → (reads (suc (length fs)) s).reader ≡ finished
  pub waits : full ≡ true → (n : ℕ) → (reads n s).reader ≡ reading

woken-IsEnded :
    (full : Bool) (fs : List PcmFrame) (s : Session)
    → IsEnded full fs s.received
        (with_items (if full then map audio fs else map audio fs ++ drainer_sentinel ∷ []) s)
woken-IsEnded true fs s = record {
  yielded =
      ap (λ q. (reads (length fs) (with_items q s)).received) (sym (append-nil (map audio fs)))
      ∙ ap (λ (t : Session). t.received) (reads_yield fs [] s);
  ends = λ q. absurd (clash true refl q);
  waits = λ _ n. reads_wait n fs s;
}
woken-IsEnded false fs s = record {
  yielded = ap (λ (t : Session). t.received) (reads_yield fs (drainer_sentinel ∷ []) s);
  ends = λ _. reads_end fs s;
  waits = λ q. absurd (clash false q refl);
}

abbrev left : List PcmFrame → Session → Session
left fs s =
    let gone = record (with_frames fs s) { log = s.log ++ said s.engine (leave_channel ∷ []) } in
    record (teardown_partial gone) { joined = false; closed = true }

-- `leave` on a session that is joined, with a generator that runs and frames that wait for it: the
-- generator yields them all, in order; then it ends, if the queue was not full, and if it was full,
-- it never ends, as the sentinel was dropped.
pub leave_session-IsEnded :
    (fs : List PcmFrame) (s : Session)
    → s.joined ≡ true
    → IsEnded
        (is_full (queue_size s) (map audio fs))
        fs
        s.received
        (leave_session (with_frames fs s))
unfolding leave_session teardown_partial woken
leave_session-IsEnded fs s j =
    if-cases (IsEnded (is_full (queue_size s) (map audio fs)) fs s.received)
      (not s.joined && s.closed) (λ q. absurd (clash s.joined j (unjoined q)))
      (λ _. woken-IsEnded (is_full (queue_size s) (map audio fs)) fs (left fs s))
  where
    unjoined : not s.joined && s.closed ≡ true → s.joined ≡ false
    unjoined q = ground (arith, q)
