-- ===== src/Orchestrator/Runs.antt =====
-- What holds of every call after any sequence of inputs to the orchestrator.
use Prim.Native.String.{String}
use isales_telephony.Base.{
  All-snoc, ℕ, ◌≡◌, refl, ◌∙◌, Bool, true, false, Option, none, some, List, [], ◌∷◌, Bool-cases,
  inl, inr, All,
}
use isales_telephony.Orchestrator.{
  Ctx, Env, Flow, listed, unlisted, raised, emit, at_hangup, teardown, handle_remote_hangup,
  handle_connected,
}
use isales_telephony.Orchestrator.Soundness.{
  IsSettled, teardown-IsSettled, hangup-IsSettled, hangup_pump, at_hangup-IsSettled,
}
use isales_telephony.Orchestrator.Connecting.{handle_connected-IsSettled}
use isales_telephony.Orchestrator.Calls.{
  Orch, get, is_listed, lookup, pop, modem_call, dial_dev, dial_new, on_dial, hang_up, on_cancel,
  AtEvent, connected, remote_hangup, other, stream_end, pump_finally, on_event, pump_step,
  stop_call, for_calls, stop, dev_terminate_active_calls, Input, dial, cancel, ignored, at_event,
  dev_terminate, shut_down, step, run, new, dial_known, dialled_call, listed_as, cancel_listed,
  cancel_found, after_connected, pump_found, with_found,
}
use isales_telephony.Orchestrator.Sound.{
  IsSound, dead-IsSound, seen-IsSound, pump_off-IsSound, and_false, teardown-IsSound, All-get,
  All-modify, AllSound,
}
use isales_telephony.Orchestrator.Dials.{modem_call-IsSound, dial_dev-IsSound}

pub hang_up-AllSound :
    (cause : String) (h : ℕ) (c : Ctx) (o : Orch)
    → IsSound c
    → AllSound o
    → AllSound (hang_up false cause h c o)
unfolding hang_up
hang_up-AllSound cause h c o s a = elim (Bool-cases c.terminated) [
  | inl q ↦ simp q a
  | inr q ↦ simp q (All-modify h o.store _ (ended q) a)
]
  where
    ended : c.terminated ≡ false → IsSound (handle_remote_hangup false cause c)
    ended q =
        dead-IsSound (handle_remote_hangup false cause c) (hangup-IsSettled false cause c s.settled)
          (hangup_pump false cause c s.settled q ∙ and_false c.pump_alive)

pump_finally-AllSound :
    {s : Bool} (h : ℕ) (c : Ctx) (o : Orch)
    → IsSettled s c
    → AllSound o
    → AllSound (pump_finally h c o)
unfolding pump_finally
pump_finally-AllSound h c o s a = elim (Bool-cases (is_listed (lookup c.call_id o.calls))) [
  | inl q ↦
      rw q (
        All-modify h o.store _ (pump_off-IsSound (teardown true c) (teardown-IsSettled true c s)) a)
  | inr q ↦ rw q (All-modify h o.store _ (pump_off-IsSound c s) a)
]

on_event-AllSound :
    (e : AtEvent) (h : ℕ) (c : Ctx) (o : Orch)
    → c.pump_alive ≡ true
    → IsSound c
    → AllSound o
    → AllSound (on_event e h c o)
unfolding on_event
on_event-AllSound (connected env) h c o live s a = elim (Bool-cases c.connected_seen) [
  | inl q ↦ simp q a
  | inr q ↦
      let early = s.fresh live q in
      let marked = record c { connected_seen = true } in
      simp q (
        flowed (handle_connected o.recorder env marked) (
          handle_connected-IsSettled o.recorder env marked (mark s.settled) (early.0) (early.1)
            (early.2)))
]
  where
    mark : {s : Bool} → IsSettled s c → IsSettled true (record c { connected_seen = true })
    mark t = record {
      replayed = t.replayed;
      once = t.once;
      modem = t.modem;
      freed = t.freed;
      seen_so = refl;
    }

    flowed : (r : Ctx × Flow) → IsSettled true (r.0) → AllSound (after_connected h o r)
    flowed (d, listed) t = All-modify h o.store d (seen-IsSound d t) a
    flowed (d, unlisted) t = All-modify h o.store d (seen-IsSound d t) a
    flowed (d, raised) t = pump_finally-AllSound h d o t a
on_event-AllSound (remote_hangup cause) h c o live s a = elim (Bool-cases c.terminated) [
  | inl q ↦ simp q (pump_finally-AllSound h c o s.settled a)
  | inr q ↦ simp q (
      pump_finally-AllSound h (handle_remote_hangup true cause c)
        (record o { calls = pop c.call_id o.calls }) (hangup-IsSettled true cause c s.settled) a)
]
on_event-AllSound other h c o live s a = a
on_event-AllSound stream_end h c o live s a = pump_finally-AllSound h c o s.settled a

pump_step-AllSound : (e : AtEvent) (h : ℕ) (o : Orch) → AllSound o → AllSound (pump_step e h o)
unfolding pump_step
pump_step-AllSound e h o a = found (get h o.store) refl
  where
    found : (q : Option Ctx) → get h o.store ≡ q → AllSound (pump_found e h o q)
    found none p = a
    found (some c) p = elim (Bool-cases c.pump_alive) [
      | inl q ↦ simp q (on_event-AllSound e h c o q (All-get h o.store a p) a)
      | inr q ↦ simp q a
    ]

for_calls-AllSound :
    (f : ℕ → Ctx → Orch → Orch)
    → ((h : ℕ) (c : Ctx) (o : Orch) → IsSound c → AllSound o → AllSound (f h c o))
    → (calls : List (ℕ × ℕ)) (o : Orch) → AllSound o
    → AllSound (for_calls f calls o)
unfolding for_calls
for_calls-AllSound f keeps [] o a = a
for_calls-AllSound f keeps ((id, h) ∷ rest) o a =
    for_calls-AllSound f keeps rest _ (found (get h o.store) refl)
  where
    found : (q : Option Ctx) → get h o.store ≡ q → AllSound (with_found f h o q)
    found none p = a
    found (some c) p = keeps h c o (All-get h o.store a p) a

pub stop_call-AllSound :
    (h : ℕ) (c : Ctx) (o : Orch) → IsSound c → AllSound o → AllSound (stop_call h c o)
unfolding stop_call
stop_call-AllSound h c o s a = All-modify h o.store _ (teardown-IsSound c s.settled) a

on_cancel-AllSound : (id : ℕ) (o : Orch) → AllSound o → AllSound (on_cancel id o)
unfolding on_cancel
on_cancel-AllSound id o a = named (lookup id o.calls)
  where
    rung : (c : Ctx) → IsSound c → IsSound (emit at_hangup c)
    rung c s = record { settled = at_hangup-IsSettled c s.settled; fresh = s.fresh }

    found : (h : ℕ) (q : Option Ctx) → get h o.store ≡ q → AllSound (cancel_found h o q)
    found h none p = a
    found h (some c) p =
        let s = All-get h o.store a p in
        elim (Bool-cases o.dev_no_modem) [
          | inl q ↦ simp q (hang_up-AllSound "manual_hangup" h c o s a)
          | inr q ↦ simp q (All-modify h o.store (emit at_hangup c) (rung c s) a)
        ]

    named : (q : Option ℕ) → AllSound (cancel_listed o q)
    named none = a
    named (some h) = found h (get h o.store) refl

listed_as-AllSound :
    (id : ℕ) (o : Orch) (r : Ctx × Flow) → IsSound (r.0) → AllSound o → AllSound (listed_as id o r)
listed_as-AllSound id o (c, listed) s a = All-snoc IsSound o.store c a s
listed_as-AllSound id o (c, unlisted) s a = All-snoc IsSound o.store c a s
listed_as-AllSound id o (c, raised) s a = All-snoc IsSound o.store c a s

dialled-AllSound : (id : ℕ) (o : Orch) (m : Option ℕ) → AllSound o → AllSound (dialled_call id o m)
dialled-AllSound id o none a = a
dialled-AllSound id o (some m) a =
    All-snoc IsSound o.store (modem_call id m) a (modem_call-IsSound id m)

dial_new-AllSound : (env : Env) (id : ℕ) (o : Orch) → AllSound o → AllSound (dial_new env id o)
unfolding dial_new
dial_new-AllSound env id o a = elim (Bool-cases o.dev_no_modem) [
  | inl q ↦
      simp q (
        listed_as-AllSound id o (dial_dev o.recorder env id) (dial_dev-IsSound o.recorder env id) a)
  | inr q ↦ simp q (dialled-AllSound id o env.dialled a)
]

on_dial-AllSound : (env : Env) (id : ℕ) (o : Orch) → AllSound o → AllSound (on_dial env id o)
unfolding on_dial
on_dial-AllSound env id o a = known (lookup id o.calls)
  where
    known : (q : Option ℕ) → AllSound (dial_known env id o q)
    known (some h) = a
    known none = dial_new-AllSound env id o a

pub step-AllSound : (o : Orch) (i : Input) → AllSound o → AllSound (step o i)
unfolding step stop dev_terminate_active_calls
step-AllSound o (dial env id) a = on_dial-AllSound env id o a
step-AllSound o (cancel id) a = on_cancel-AllSound id o a
step-AllSound o ignored a = a
step-AllSound o (at_event e h) a = pump_step-AllSound e h o a
step-AllSound o dev_terminate a =
    for_calls-AllSound (hang_up false "dev_terminate") (hang_up-AllSound "dev_terminate") o.calls o
      a
step-AllSound o shut_down a = for_calls-AllSound stop_call stop_call-AllSound o.calls o a

pub run-AllSound_from : (o : Orch) (is : List Input) → AllSound o → AllSound (run o is)
unfolding run
run-AllSound_from o [] a = a
run-AllSound_from o (i ∷ is) a = run-AllSound_from (step o i) is (step-AllSound o i a)

-- From a new orchestrator, whatever the cloud, the modem and the audio do: for every call ever
-- begun, its log acquires and releases in the allowed order and says what the call holds, it has
-- exactly one hangup event if the call is terminated and none if not, and a terminated call has
-- released all and its task list is empty.
pub run-AllSound :
    (dev_no_modem : Bool) (recorder : Option ℕ) (is : List Input)
    → All IsSound (run (new dev_no_modem recorder) is).store
unfolding new
run-AllSound dev_no_modem recorder is = run-AllSound_from (new dev_no_modem recorder) is tt
