-- ===== src/Orchestrator/Connecting.antt =====
-- What `_handle_connected` of orchestrator.py keeps true of its call.
use isales_telephony.Base.{
  ℕ, ◌+◌, ◌≡◌, refl, sym, ap, ◌∙◌, Bool, true, false, Option, none, some, [], ◌∷◌, ◌&&◌, ◌||◌,
  arith, Bool-cases, inl, inr, ltb,
}
use isales_telephony.Orchestrator.{
  Ctx, Env, emit, cpcmreg_on, bridge_join, begin_recording, connected_event, pcm_alert,
  start_recording, join_bridge, build_audio, pcm_failed, PcmAnswer, pcm_enabled, pcm_enable_error,
  pcm_other_error, handle_connected, after_pcm, network_error,
}
use isales_telephony.Orchestrator.Protocol.{
  Held, held_of, nothing_held, held_step, replay, hangups, Reached, replayed_then, counted_then,
}
use isales_telephony.Orchestrator.Soundness.{
  clash, expected, reached, hangup-IsSettled, add_tasks-IsSettled, at_hangup-IsSettled,
  open-IsSettled, IsSettled,
}

pub start_recording-Reached :
    {p b t : Bool} {n : ℕ} {z : Ctx} (disk_free : Bool) (recorder : Option ℕ) (c : Ctx)
    → p || t ≡ true
    → Reached p b false t n z c
    → (r : Bool) × Reached p b r t n z (start_recording disk_free recorder c)
unfolding start_recording replay held_step hangups
start_recording-Reached disk_free none c o h = (false, h)
start_recording-Reached disk_free (some kept) c o h = elim (Bool-cases (ltb 0 kept && disk_free)) [
  | inr q ↦ rw q (false, h)
  | inl q ↦ rw q (
    true,
    record {
      replayed = replayed_then h (begin_recording ∷ []) ∙ rw o refl;
      counted = omega (arith, counted_then h (begin_recording ∷ []));
      pcm = h.pcm;
      bridge = h.bridge;
      recording = refl;
      rtc = h.rtc;
      frame = h.frame;
    },
  )
]

join-IsSettled :
    {r : Bool} {z : Ctx} (env : Env) (c : Ctx)
    → z.terminated ≡ false
    → z.has_at ≡ true
    → Reached true false r false 0 z c
    → IsSettled z.connected_seen (join_bridge env c).0
unfolding join_bridge replay held_step hangups
join-IsSettled {z = z} env c o a h =
    let tried : Ctx = emit bridge_join (record c { bridge = true; rings = true }) in
    let running : IsSettled z.connected_seen tried =
      open-IsSettled {z = z}
        (record {
          replayed = replayed_then h (bridge_join ∷ []);
          counted = omega (arith, counted_then h (bridge_join ∷ []));
          pcm = h.pcm;
          bridge = refl;
          recording = h.recording;
          rtc = h.rtc;
          frame = h.frame;
        })
        o (λ _. a) in
    elim (Bool-cases env.joined) [
      | inl q ↦ simp q (add_tasks-IsSettled _ tried (h.frame.0 ∙ o) running)
      | inr q ↦ simp q (hangup-IsSettled true network_error tried running)
    ]

build-IsSettled :
    {z : Ctx} (recorder : Option ℕ) (env : Env) (c : Ctx)
    → z.terminated ≡ false
    → z.has_at ≡ true
    → Reached true false false false 0 z c
    → IsSettled z.connected_seen (build_audio recorder env c).0
unfolding build_audio
build-IsSettled recorder env c o a h =
    let begun = start_recording-Reached env.disk_free recorder c refl h in
    elim (Bool-cases env.bridge_built) [
      | inl q ↦ simp q (join-IsSettled env (start_recording env.disk_free recorder c) o a begun.1)
      | inr q ↦ simp q (open-IsSettled begun.1 o (λ _. a))
    ]

pcm_failed-IsSettled :
    {z : Ctx} (env : Env) (c : Ctx)
    → z.terminated ≡ false
    → Reached false false false false 0 z c
    → IsSettled z.connected_seen (pcm_failed env c).0
unfolding pcm_failed replay held_step hangups
pcm_failed-IsSettled {z = z} env c o h =
    let alerted : IsSettled z.connected_seen (emit pcm_alert c) =
      open-IsSettled {z = z}
        (record {
          replayed = replayed_then h (pcm_alert ∷ []);
          counted = omega (arith, counted_then h (pcm_alert ∷ []));
          pcm = h.pcm;
          bridge = h.bridge;
          recording = h.recording;
          rtc = h.rtc;
          frame = h.frame;
        })
        o (λ q. clash (sym q)) in
    let ended = hangup-IsSettled true network_error (emit pcm_alert c) alerted in
    elim (Bool-cases env.stream_up) [
      | inl q ↦ simp q (at_hangup-IsSettled _ ended)
      | inr q ↦ simp q (open-IsSettled h o (λ q. clash (sym q)))
    ]

pub handle_connected-IsSettled :
    {seen : Bool} (recorder : Option ℕ) (env : Env) (c : Ctx)
    → IsSettled seen c
    → c.terminated ≡ false
    → c.has_at ≡ true
    → held_of c ≡ nothing_held
    → IsSettled seen (handle_connected recorder env c).0
unfolding handle_connected replay held_step hangups
handle_connected-IsSettled recorder env c h o a e = rw (← h.seen_so) (answered env.pcm)
  where
    begun : Reached false false false false 0 c (emit connected_event c)
    begun = record {
      replayed = replayed_then (reached c h) (connected_event ∷ []) ∙ ap some e;
      counted = counted_then (reached c h) (connected_event ∷ []) ∙ ap (λ b. expected b + 0) o;
      pcm = ap (λ (g : Held). g.pcm) e;
      bridge = ap (λ (g : Held). g.bridge) e;
      recording = ap (λ (g : Held). g.recording) e;
      rtc = ap (λ (g : Held). g.rtc) e;
      frame = (refl, refl, refl, refl, refl);
    }

    switched_on :
        Reached true false false false 0 c
          (emit cpcmreg_on (record (emit connected_event c) { cpcmreg_enabled = true }))
    switched_on = record {
      replayed = replayed_then begun (cpcmreg_on ∷ []);
      counted = omega (arith, counted_then begun (cpcmreg_on ∷ []));
      pcm = refl;
      bridge = begun.bridge;
      recording = begun.recording;
      rtc = begun.rtc;
      frame = begun.frame;
    }

    answered :
        (p : PcmAnswer)
        → IsSettled c.connected_seen (after_pcm recorder env p (emit connected_event c)).0
    answered pcm_enabled = build-IsSettled recorder env _ o a switched_on
    answered pcm_enable_error = pcm_failed-IsSettled env (emit connected_event c) o begun
    answered pcm_other_error = open-IsSettled begun o (λ q. clash (sym q))
