-- ===== src/Orchestrator/Soundness.antt =====
-- What every handler of orchestrator.py keeps true of a call's context.
use Prim.Native.String.{String}
use isales_telephony.Base.{
  ℕ, ◌+◌, ◌≡◌, refl, sym, ap, ◌∙◌, Bool, true, false, some, List, [], ◌∷◌, ◌++◌, ◌&&◌, arith,
  if◌then◌else◌, Bool-cases, inl, inr,
}
use isales_telephony.Orchestrator.{
  Ctx, Task, emit, hangup_event, to_proto, at_hangup, start_task, stop_tasks, teardown,
  handle_remote_hangup, add_tasks,
}
use isales_telephony.Orchestrator.Freeing.{teardown-Reached}
use isales_telephony.Orchestrator.Protocol.{
  held_of, nothing_held, held_step, replay, hangups, Reached, replayed_then, counted_then,
}

pub clash : {A : Type 0} → true ≡ false → A
clash e = ground arith

abbrev pub expected : Bool → ℕ
expected terminated = if terminated then 1 else 0

-- The log of a call is allowed and says what the call holds; it has one hangup event if the call is
-- terminated, else none; and a terminated call holds nothing and lists no task.
pub record IsSettled (seen : Bool) (c : Ctx) : Type 0 where
  pub replayed : replay nothing_held c.log ≡ some (held_of c)
  pub once : hangups c.log ≡ expected c.terminated
  pub modem : c.cpcmreg_enabled ≡ true → c.has_at ≡ true
  pub freed : c.terminated ≡ true → (held_of c ≡ nothing_held) × (c.tasks ≡ [])
  pub seen_so : c.connected_seen ≡ seen

pub reached :
    {seen : Bool} (c : Ctx)
    → IsSettled seen c
    → Reached c.cpcmreg_enabled c.bridge c.recording c.rtc_session (expected c.terminated) c c
reached c h = record {
  replayed = h.replayed;
  counted = h.once;
  pcm = refl;
  bridge = refl;
  recording = refl;
  rtc = refl;
  frame = (refl, refl, refl, refl, refl);
}

pub held-eq :
    {p b r t : Bool} {n : ℕ} {z c : Ctx}
    → Reached p b r t n z c
    → held_of c ≡ record { pcm = p; bridge = b; recording = r; rtc = t }
held-eq h = rw (h.pcm, h.bridge, h.recording, h.rtc) refl

-- a context that holds nothing and lists no task
free-IsSettled :
    {n : ℕ} {z c : Ctx}
    → Reached false false false false n z c
    → n ≡ expected z.terminated
    → z.tasks ≡ []
    → IsSettled z.connected_seen c
free-IsSettled h e none_left = record {
  replayed = h.replayed ∙ ap some (sym (held-eq h));
  once = h.counted ∙ e ∙ ap expected (sym (h.frame.0));
  modem = λ q. clash (sym q ∙ h.pcm);
  freed = λ q. (held-eq h, h.frame.4 ∙ none_left);
  seen_so = h.frame.2;
}

pub teardown-IsSettled :
    {seen : Bool} (k : Bool) (c : Ctx) → IsSettled seen c → IsSettled seen (teardown k c)
unfolding stop_tasks
teardown-IsSettled k c h =
    rw (← h.seen_so) (free-IsSettled (teardown-Reached k c h.modem (reached c h)) refl refl)

abbrev pub ended : String → Ctx → Ctx
ended cause c = emit (hangup_event (to_proto cause) cause) (record c { terminated = true })

ended-Reached :
    {seen : Bool} (cause : String) (c : Ctx)
    → IsSettled seen c
    → c.terminated ≡ false
    → Reached c.cpcmreg_enabled c.bridge c.recording c.rtc_session 1 (ended cause c) (ended cause c)
unfolding replay held_step hangups
ended-Reached cause c h o =
    let e = hangup_event (to_proto cause) cause in
    record {
      replayed = replayed_then (reached c h) (e ∷ []);
      counted = counted_then (reached c h) (e ∷ []) ∙ ap (λ b. expected b + 1) o;
      pcm = refl;
      bridge = refl;
      recording = refl;
      rtc = refl;
      frame = (refl, refl, refl, refl, refl);
    }

pub hangup-IsSettled :
    {seen : Bool} (k : Bool) (cause : String) (c : Ctx)
    → IsSettled seen c
    → IsSettled seen (handle_remote_hangup k cause c)
unfolding handle_remote_hangup stop_tasks
hangup-IsSettled k cause c h = elim (Bool-cases c.terminated) [
  | inl o ↦ simp o h
  | inr o ↦
      let left = teardown-Reached k (ended cause c) h.modem (ended-Reached cause c h o) in
      simp o (rw (← h.seen_so) (free-IsSettled left refl refl))
]

-- the hangup of a call that is not terminated: its tasks are stopped, the pump too, save inside it
pub hangup_pump :
    {seen : Bool} (k : Bool) (cause : String) (c : Ctx)
    → IsSettled seen c
    → c.terminated ≡ false
    → (handle_remote_hangup k cause c).pump_alive ≡ c.pump_alive && k
unfolding handle_remote_hangup stop_tasks
hangup_pump k cause c h o =
    simp o ((teardown-Reached k (ended cause c) h.modem (ended-Reached cause c h o)).frame.3)

pub add_tasks-IsSettled :
    {seen : Bool} (ts : List Task) (c : Ctx)
    → c.terminated ≡ false
    → IsSettled seen c
    → IsSettled seen (add_tasks ts c)
unfolding add_tasks replay held_step hangups
add_tasks-IsSettled [] c o h = h
add_tasks-IsSettled (t ∷ ts) c o h =
    let more : Ctx = emit (start_task t) (record c { tasks = c.tasks ++ t ∷ [] }) in
    add_tasks-IsSettled ts more o (record {
      replayed = replayed_then (reached c h) (start_task t ∷ []);
      once = omega (arith, counted_then (reached c h) (start_task t ∷ []));
      modem = h.modem;
      freed = λ q. clash (sym q ∙ o);
      seen_so = h.seen_so;
    })

pub at_hangup-IsSettled :
    {seen : Bool} (c : Ctx) → IsSettled seen c → IsSettled seen (emit at_hangup c)
unfolding replay held_step hangups
at_hangup-IsSettled c h = record {
  replayed = replayed_then (reached c h) (at_hangup ∷ []);
  once = omega (arith, counted_then (reached c h) (at_hangup ∷ []));
  modem = h.modem;
  freed = h.freed;
  seen_so = h.seen_so;
}

-- a context that is not terminated
pub open-IsSettled :
    {p b r t : Bool} {z c : Ctx}
    → Reached p b r t 0 z c
    → z.terminated ≡ false
    → (p ≡ true → z.has_at ≡ true)
    → IsSettled z.connected_seen c
open-IsSettled h o a =
    let running = h.frame.0 ∙ o in
    record {
      replayed = h.replayed ∙ ap some (sym (held-eq h));
      once = h.counted ∙ ap expected (sym running);
      modem = λ q. h.frame.1 ∙ a (sym h.pcm ∙ q);
      freed = λ q. clash (sym q ∙ running);
      seen_so = h.frame.2;
    }
