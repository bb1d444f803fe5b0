-- ===== src/Orchestrator/Silence.antt =====
-- Which effects of orchestrator.py hang up the modem.
use Prim.Native.String.{String}
use isales_telephony.Base.{
  ℕ, ◌+◌, ◌≡◌, refl, ap, ◌∙◌, Bool, true, false, Option, none, some, List, [], ◌∷◌, ◌++◌, ◌&&◌,
  arith, length, keep, keep-append, length-append, append_assoc, ltb, Bool-cases, inl, inr,
}
use isales_telephony.Orchestrator.{
  Ctx, Env, unlisted, Task, Effect, at_hangup, cancelled, is_pump, stop_tasks, leave_bridge,
  finish_recording, leave_rtc, disable_pcm, drop_rings, teardown, handle_remote_hangup, join_bridge,
  start_recording, network_error,
}

abbrev is_at_hangup : Effect → Bool
is_at_hangup at_hangup = true
is_at_hangup _ = false

-- the `at.hangup` commands of a log
unfoldable pub at_hangups : List Effect → ℕ
at_hangups es = length (keep is_at_hangup es)

pub at_hangups-append :
    (xs ys : List Effect) → at_hangups (xs ++ ys) ≡ at_hangups xs + at_hangups ys
unfolding at_hangups
at_hangups-append xs ys =
    ap length (keep-append is_at_hangup xs ys)
    ∙ length-append (keep is_at_hangup xs) (keep is_at_hangup ys)

at_hangups-cancelled : (k : Bool) (ts : List Task) → at_hangups (cancelled k ts) ≡ 0
unfolding at_hangups
at_hangups-cancelled k [] = refl
at_hangups-cancelled k (t ∷ ts) = elim (Bool-cases (k && is_pump t)) [
  | inl o ↦ rw o (at_hangups-cancelled k ts)
  | inr o ↦ rw o (at_hangups-cancelled k ts)
]

module _ (c : Ctx) where
  stop_tasks_silent : (k : Bool) → at_hangups (stop_tasks k c).log ≡ at_hangups c.log
  unfolding stop_tasks
  stop_tasks_silent k =
      omega (arith, at_hangups-append c.log (cancelled k c.tasks), at_hangups-cancelled k c.tasks)

  pub emit_silent :
      (e : Effect) → is_at_hangup e ≡ false → at_hangups (c.log ++ e ∷ []) ≡ at_hangups c.log
  unfolding at_hangups
  emit_silent e o = at_hangups-append c.log (e ∷ []) ∙ rw o (omega arith)

  leave_bridge_silent : at_hangups (leave_bridge c).log ≡ at_hangups c.log
  unfolding leave_bridge
  leave_bridge_silent = elim (Bool-cases c.bridge) [
    | inl o ↦ simp o (emit_silent _ refl)
    | inr o ↦ simp o refl
  ]

  finish_recording_silent : at_hangups (finish_recording c).log ≡ at_hangups c.log
  unfolding finish_recording at_hangups
  finish_recording_silent = elim (Bool-cases c.recording) [
    | inl o ↦ simp o (rw append_assoc (omega (arith, at_hangups-append c.log _)))
    | inr o ↦ simp o refl
  ]

  leave_rtc_silent : at_hangups (leave_rtc c).log ≡ at_hangups c.log
  unfolding leave_rtc
  leave_rtc_silent = elim (Bool-cases c.rtc_session) [
    | inl o ↦ simp o (emit_silent _ refl)
    | inr o ↦ simp o refl
  ]

  disable_pcm_silent : at_hangups (disable_pcm c).log ≡ at_hangups c.log
  unfolding disable_pcm
  disable_pcm_silent = elim (Bool-cases (c.cpcmreg_enabled && c.has_at)) [
    | inl o ↦ simp o (emit_silent _ refl)
    | inr o ↦ simp o refl
  ]

  drop_rings_silent : at_hangups (drop_rings c).log ≡ at_hangups c.log
  unfolding drop_rings
  drop_rings_silent = elim (Bool-cases c.rings) [
    | inl o ↦ simp o (emit_silent _ refl)
    | inr o ↦ simp o refl
  ]

teardown_silent : (k : Bool) (c : Ctx) → at_hangups (teardown k c).log ≡ at_hangups c.log
unfolding teardown
teardown_silent k c =
    drop_rings_silent _
    ∙ disable_pcm_silent _
    ∙ leave_rtc_silent _
    ∙ finish_recording_silent _
    ∙ leave_bridge_silent _
    ∙ stop_tasks_silent c k

pub hangup_silent :
    (k : Bool) (cause : String) (c : Ctx)
    → at_hangups (handle_remote_hangup k cause c).log ≡ at_hangups c.log
unfolding handle_remote_hangup
hangup_silent k cause c = elim (Bool-cases c.terminated) [
  | inl o ↦ simp o refl
  | inr o ↦ simp o (teardown_silent k _ ∙ emit_silent c _ refl)
]

pub start_recording_silent :
    (disk_free : Bool) (recorder : Option ℕ) (c : Ctx)
    → at_hangups (start_recording disk_free recorder c).log ≡ at_hangups c.log
unfolding start_recording
start_recording_silent disk_free none c = refl
start_recording_silent disk_free (some kept) c = elim (Bool-cases (ltb 0 kept && disk_free)) [
  | inl o ↦ rw o (emit_silent c _ refl)
  | inr o ↦ rw o refl
]

pub failed_join_silent :
    (env : Env) (c : Ctx)
    → env.joined ≡ false
    → ((join_bridge env c).1 ≡ unlisted) × (at_hangups (join_bridge env c).0.log ≡ at_hangups c.log)
unfolding join_bridge
failed_join_silent env c o =
    simp o (refl, hangup_silent true network_error _ ∙ emit_silent c _ refl)

module _ (c : Ctx) where
  stop_tasks_terminated : (k : Bool) → (stop_tasks k c).terminated ≡ c.terminated
  unfolding stop_tasks
  stop_tasks_terminated k = refl

  leave_bridge_terminated : (leave_bridge c).terminated ≡ c.terminated
  unfolding leave_bridge
  leave_bridge_terminated = ground arith

  finish_recording_terminated : (finish_recording c).terminated ≡ c.terminated
  unfolding finish_recording
  finish_recording_terminated = ground arith

  leave_rtc_terminated : (leave_rtc c).terminated ≡ c.terminated
  unfolding leave_rtc
  leave_rtc_terminated = ground arith

  disable_pcm_terminated : (disable_pcm c).terminated ≡ c.terminated
  unfolding disable_pcm
  disable_pcm_terminated = ground arith

  drop_rings_terminated : (drop_rings c).terminated ≡ c.terminated
  unfolding drop_rings
  drop_rings_terminated = ground arith

pub hangup_terminated :
    (k : Bool) (cause : String) (c : Ctx) → (handle_remote_hangup k cause c).terminated ≡ true
unfolding handle_remote_hangup teardown
hangup_terminated k cause c = elim (Bool-cases c.terminated) [
  | inl o ↦ simp o refl
  | inr o ↦ simp o (
      drop_rings_terminated _
      ∙ disable_pcm_terminated _
      ∙ leave_rtc_terminated _
      ∙ finish_recording_terminated _
      ∙ leave_bridge_terminated _
      ∙ stop_tasks_terminated _ k)
]

pub failed_join_terminated :
    (env : Env) (c : Ctx) → env.joined ≡ false → (join_bridge env c).0.terminated ≡ true
unfolding join_bridge
failed_join_terminated env c o = simp o (hangup_terminated true network_error _)
