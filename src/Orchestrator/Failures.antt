-- ===== src/Orchestrator/Failures.antt =====
-- What orchestrator.py tells the modem when a call that the modem has connected cannot be served.
use isales_telephony.Base.{
  ℕ, ◌+◌, ◌≡◌, refl, ap, ◌∙◌, Bool, true, false, Option, [], ◌∷◌, arith, if◌then◌else◌, Bool-cases,
  inl, inr,
}
use isales_telephony.Orchestrator.{
  Ctx, Env, unlisted, raised, emit, at_hangup, connected_event, pcm_alert, cpcmreg_on,
  handle_remote_hangup, pcm_failed, pcm_enabled, pcm_enable_error, handle_connected, build_audio,
  join_bridge, start_recording, network_error,
}
use isales_telephony.Orchestrator.Protocol.{held_of, nothing_held, hangups}
use isales_telephony.Orchestrator.Soundness.{IsSettled}
use isales_telephony.Orchestrator.Connecting.{handle_connected-IsSettled}
use isales_telephony.Orchestrator.Silence.{
  at_hangups, at_hangups-append, emit_silent, hangup_silent, start_recording_silent,
  failed_join_silent, hangup_terminated, failed_join_terminated,
}

pcm_failed-eq :
    (env : Env) (c : Ctx)
    → c.terminated ≡ false
    → ((pcm_failed env c).1 ≡ (if env.stream_up then unlisted else raised))
      × ((pcm_failed env c).0.terminated ≡ env.stream_up)
      × (at_hangups (pcm_failed env c).0.log ≡ at_hangups c.log + (if env.stream_up then 1 else 0))
unfolding pcm_failed at_hangups
pcm_failed-eq env c running = elim (Bool-cases env.stream_up) [
  | inr o ↦ simp o (refl, running, omega arith)
  | inl o ↦
      let warned = emit pcm_alert c in
      let left = handle_remote_hangup true network_error warned in
      simp o (
        refl,
        hangup_terminated true network_error warned,
        at_hangups-append left.log (at_hangup ∷ [])
            ∙ ap (λ k. k + 1)
                (hangup_silent true network_error warned ∙ emit_silent c pcm_alert refl),
      )
]

module _ {seen : Bool} (recorder : Option ℕ) (env : Env) (c : Ctx) (h : IsSettled seen c)
    (running : c.terminated ≡ false) (modem : c.has_at ≡ true)
    (unused : held_of c ≡ nothing_held) where
  abbrev switched_on : Ctx
  switched_on = emit cpcmreg_on (record (emit connected_event c) { cpcmreg_enabled = true })

  to_join :
      env.pcm ≡ pcm_enabled
      → env.bridge_built ≡ true
      → handle_connected recorder env c
        ≡ join_bridge env (start_recording env.disk_free recorder switched_on)
  unfolding handle_connected build_audio
  to_join p b = simp (p, b) refl

  silent_begin :
      at_hangups (start_recording env.disk_free recorder switched_on).log ≡ at_hangups c.log
  silent_begin =
      start_recording_silent env.disk_free recorder switched_on
      ∙ emit_silent (emit connected_event c) cpcmreg_on refl
      ∙ emit_silent c connected_event refl

  to_failed :
      env.pcm ≡ pcm_enable_error
      → handle_connected recorder env c ≡ pcm_failed env (emit connected_event c)
  unfolding handle_connected
  to_failed p = simp p refl

  one_hangup :
      (handle_connected recorder env c).0.terminated ≡ true
      → hangups (handle_connected recorder env c).0.log ≡ 1
  one_hangup ended =
      (handle_connected-IsSettled recorder env c h running modem unused).once
      ∙ ap (λ b. if b then 1 else 0) ended

  -- When the bridge of a connected modem call cannot be joined, the call is terminated and unlisted,
  -- and the cloud is told of one hangup, but the modem gets no hangup command for it.
  pub failed_join :
      env.pcm ≡ pcm_enabled
      → env.bridge_built ≡ true
      → env.joined ≡ false
      → ((handle_connected recorder env c).1 ≡ unlisted)
        × ((handle_connected recorder env c).0.terminated ≡ true)
        × (hangups (handle_connected recorder env c).0.log ≡ 1)
        × (at_hangups (handle_connected recorder env c).0.log ≡ at_hangups c.log)
  failed_join p b j =
      let e = to_join p b in
      let began = start_recording env.disk_free recorder switched_on in
      let left = failed_join_silent env began j in
      let ended = ap (λ r. r.0.terminated) e ∙ failed_join_terminated env began j in
      (
        ap (λ r. r.1) e ∙ left.0,
        ended,
        one_hangup ended,
        ap (λ r. at_hangups r.0.log) e ∙ left.1 ∙ silent_begin,
      )

  -- When the modem's audio cannot be switched on for a connected call: with the cloud stream up, the
  -- cloud is told of one hangup and the modem is hung up once; with the stream down, the handler
  -- raises, the call is not terminated, the cloud is told of no hangup and the modem is not hung up.
  pub failed_pcm :
      env.pcm ≡ pcm_enable_error
      → ((handle_connected recorder env c).1 ≡ (if env.stream_up then unlisted else raised))
        × ((handle_connected recorder env c).0.terminated ≡ env.stream_up)
        × (hangups (handle_connected recorder env c).0.log ≡ (if env.stream_up then 1 else 0))
        × (at_hangups (handle_connected recorder env c).0.log
            ≡ at_hangups c.log + (if env.stream_up then 1 else 0))
  unfolding at_hangups
  failed_pcm p =
      let told = pcm_failed-eq env (emit connected_event c) running in
      let e = to_failed p in
      let ended = ap (λ r. r.0.terminated) e ∙ told.1 in
      (
        ap (λ r. r.1) e ∙ told.0,
        ended,
        (handle_connected-IsSettled recorder env c h running modem unused).once
            ∙ ap (λ b. if b then 1 else 0) ended,
        ap (λ r. at_hangups r.0.log) e
            ∙ told.2
            ∙ ap (λ k. k + (if env.stream_up then 1 else 0)) (emit_silent c connected_event refl),
      )
