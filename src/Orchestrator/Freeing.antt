-- ===== src/Orchestrator/Freeing.antt =====
-- What `_CallContext.teardown` of orchestrator.py leaves of the log's machine.
use isales_telephony.Base.{
  ℕ, ◌≡◌, refl, sym, append_assoc, ◌∙◌, Bool, true, false, some, List, [], ◌∷◌, ◌&&◌, arith,
  Bool-cases, inl, inr,
}
use isales_telephony.Orchestrator.{
  Ctx, Task, Effect, cpcmreg_off, bridge_leave, rtc_leave, finalize_recording, prune_recordings,
  close_rings, cancelled, is_pump, stop_tasks, leave_bridge, finish_recording, leave_rtc,
  disable_pcm, drop_rings, teardown,
}
use isales_telephony.Orchestrator.Protocol.{
  Held, held_step, replay, hangups, Reached, replayed_then, counted_then,
}

module _ {n : ℕ} {z c : Ctx} where
  leave_bridge-Reached :
      {p b r t : Bool} → Reached p b r t n z c → Reached p false r t n z (leave_bridge c)
  unfolding leave_bridge replay held_step hangups
  leave_bridge-Reached {b = false} h = simp (h.bridge) h
  leave_bridge-Reached {b = true} h = simp (h.bridge) (record {
    replayed = replayed_then h (bridge_leave ∷ []);
    counted = omega (arith, counted_then h (bridge_leave ∷ []));
    pcm = h.pcm;
    bridge = refl;
    recording = h.recording;
    rtc = h.rtc;
    frame = h.frame;
  })

  finish_recording-Reached :
      {p r t : Bool} → Reached p false r t n z c → Reached p false false t n z (finish_recording c)
  unfolding finish_recording replay held_step hangups
  finish_recording-Reached {r = false} h = simp (h.recording) h
  finish_recording-Reached {r = true} h =
      let done : List Effect = finalize_recording ∷ prune_recordings c.max_recordings ∷ [] in
      simp (h.recording) (record {
        replayed = rw append_assoc (replayed_then h done);
        counted = rw append_assoc (omega (arith, counted_then h done));
        pcm = h.pcm;
        bridge = h.bridge;
        recording = refl;
        rtc = h.rtc;
        frame = h.frame;
      })

  leave_rtc-Reached :
      {p t : Bool} → Reached p false false t n z c → Reached p false false false n z (leave_rtc c)
  unfolding leave_rtc replay held_step hangups
  leave_rtc-Reached {t = false} h = simp (h.rtc) h
  leave_rtc-Reached {t = true} h = simp (h.rtc) (record {
    replayed = replayed_then h (rtc_leave ∷ []);
    counted = omega (arith, counted_then h (rtc_leave ∷ []));
    pcm = h.pcm;
    bridge = h.bridge;
    recording = h.recording;
    rtc = refl;
    frame = h.frame;
  })

  disable_pcm-Reached :
      {p : Bool}
      → (p ≡ true → c.has_at ≡ true)
      → Reached p false false false n z c
      → Reached false false false false n z (disable_pcm c)
  unfolding disable_pcm replay held_step hangups
  disable_pcm-Reached {p = false} a h = simp (h.pcm) h
  disable_pcm-Reached {p = true} a h =
      simp (h.pcm, a refl)
        (record {
          replayed = replayed_then h (cpcmreg_off ∷ []);
          counted = omega (arith, counted_then h (cpcmreg_off ∷ []));
          pcm = refl;
          bridge = h.bridge;
          recording = h.recording;
          rtc = h.rtc;
          frame = (h.frame.0, sym (a refl) ∙ h.frame.1, h.frame.2, h.frame.3, h.frame.4);
        })

  drop_rings-Reached : {p b r t : Bool} → Reached p b r t n z c → Reached p b r t n z (drop_rings c)
  unfolding drop_rings replay held_step hangups
  drop_rings-Reached h = elim (Bool-cases c.rings) [
    | inr o ↦ simp o h
    | inl o ↦ simp o (record {
      replayed = replayed_then h (close_rings ∷ []);
      counted = omega (arith, counted_then h (close_rings ∷ []));
      pcm = h.pcm;
      bridge = h.bridge;
      recording = h.recording;
      rtc = h.rtc;
      frame = h.frame;
    })
  ]

replay-cancelled : (k : Bool) (ts : List Task) (h : Held) → replay h (cancelled k ts) ≡ some h
unfolding replay held_step
replay-cancelled k [] h = refl
replay-cancelled k (t ∷ ts) h = elim (Bool-cases (k && is_pump t)) [
  | inl o ↦ rw o (replay-cancelled k ts h)
  | inr o ↦ rw o (replay-cancelled k ts h)
]

hangups-cancelled : (k : Bool) (ts : List Task) → hangups (cancelled k ts) ≡ 0
unfolding hangups
hangups-cancelled k [] = refl
hangups-cancelled k (t ∷ ts) = elim (Bool-cases (k && is_pump t)) [
  | inl o ↦ rw o (hangups-cancelled k ts)
  | inr o ↦ rw o (hangups-cancelled k ts)
]

stop_tasks-Reached :
    {p b r t : Bool} {n : ℕ} {z : Ctx} (k : Bool) (c : Ctx)
    → Reached p b r t n z c
    → Reached p b r t n (stop_tasks k c) (stop_tasks k c)
unfolding stop_tasks
stop_tasks-Reached k c h = record {
  replayed = replayed_then h (cancelled k c.tasks) ∙ replay-cancelled k c.tasks _;
  counted = omega (arith, counted_then h (cancelled k c.tasks), hangups-cancelled k c.tasks);
  pcm = h.pcm;
  bridge = h.bridge;
  recording = h.recording;
  rtc = h.rtc;
  frame = (refl, refl, refl, refl, refl);
}

-- `teardown` frees all
pub teardown-Reached :
    {p b r t : Bool} {n : ℕ} {z : Ctx} (k : Bool) (c : Ctx)
    → (p ≡ true → c.has_at ≡ true)
    → Reached p b r t n z c
    → Reached false false false false n (stop_tasks k c) (teardown k c)
unfolding teardown stop_tasks
teardown-Reached k c a h =
    let left = finish_recording-Reached (leave_bridge-Reached (stop_tasks-Reached k c h)) in
    let quiet = leave_rtc-Reached left in
    drop_rings-Reached (disable_pcm-Reached (λ q. quiet.frame.1 ∙ a q) quiet)
