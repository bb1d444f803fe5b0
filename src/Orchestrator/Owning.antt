-- ===== src/Orchestrator/Owning.antt =====
-- Every call that orchestrator.py has ever begun is in `_calls` or holds nothing.
use isales_telephony.Base.{
  ℕ, ◌≡◌, refl, sym, ap, ◌∙◌, Bool, true, false, Option, none, some, List, [], ◌∷◌, ◌&&◌, ◌||◌, not,
  if◌then◌else◌, Bool-cases, inl, inr, arith,
}
use isales_telephony.Orchestrator.{Ctx, Env, Flow, listed, unlisted, raised, emit, at_hangup}
use isales_telephony.Orchestrator.Dials.{dial_dev_id, dial_dev-IsFree}
use isales_telephony.Orchestrator.Calls.{
  Orch, get, is_listed, lookup, modem_call, dial_dev, dial_new, on_dial, on_cancel, AtEvent,
  connected, remote_hangup, other, stream_end, on_event, pump_step, stop_call, for_calls, stop,
  hang_up, dev_terminate_active_calls, Input, dial, cancel, ignored, at_event, dev_terminate,
  shut_down, step, run, new, dial_known, dialled_call, listed_as, cancel_listed, cancel_found,
  pump_found, with_found, new_ctx,
}
use isales_telephony.Orchestrator.Sound.{IsSound, All-get, AllSound}
use isales_telephony.Orchestrator.Runs.{step-AllSound, hang_up-AllSound, stop_call-AllSound}
use isales_telephony.Orchestrator.Ownership.{IsFree, IsOwned, put-IsOwned, none≢some}
use isales_telephony.Orchestrator.Begun.{used, list-IsOwned, forget-IsOwned}
use isales_telephony.Orchestrator.Leaks.{
  hang_up-IsOwned, stop_call-IsOwned, pump_finally-IsOwned, connected-IsOwned, hung_up-IsOwned,
}

on_event-IsOwned :
    (e : AtEvent) (h : ℕ) (c : Ctx) (o : Orch)
    → get h o.store ≡ some c
    → c.pump_alive ≡ true
    → IsSound c
    → IsOwned o
    → IsOwned (on_event e h c o)
unfolding on_event
on_event-IsOwned (connected env) h c o at live s own = elim (Bool-cases c.connected_seen) [
  | inl q ↦ simp q own
  | inr q ↦ simp q (connected-IsOwned env h c o at live q s own)
]
on_event-IsOwned (remote_hangup cause) h c o at live s own = elim (Bool-cases c.terminated) [
  | inl q ↦ simp q (pump_finally-IsOwned h c c o at refl own s.settled (λ f. f))
  | inr q ↦ simp q (hung_up-IsOwned cause h c o at s own)
]
on_event-IsOwned other h c o at live s own = own
on_event-IsOwned stream_end h c o at live s own =
    pump_finally-IsOwned h c c o at refl own s.settled (λ f. f)

pump_step-IsOwned :
    (e : AtEvent) (h : ℕ) (o : Orch) → AllSound o → IsOwned o → IsOwned (pump_step e h o)
unfolding pump_step
pump_step-IsOwned e h o a own = found (get h o.store) refl
  where
    found : (q : Option Ctx) → get h o.store ≡ q → IsOwned (pump_found e h o q)
    found none p = own
    found (some c) p = elim (Bool-cases c.pump_alive) [
      | inl q ↦ simp q (on_event-IsOwned e h c o p q (All-get h o.store a p) own)
      | inr q ↦ simp q own
    ]

either-IsOwned : (b : Bool) {x y : Orch} → IsOwned x → IsOwned y → IsOwned (if b then x else y)
either-IsOwned true p q = p
either-IsOwned false p q = q

on_cancel-IsOwned : (id : ℕ) (o : Orch) → AllSound o → IsOwned o → IsOwned (on_cancel id o)
unfolding on_cancel
on_cancel-IsOwned id o a own = named (lookup id o.calls)
  where
    rung : {c : Ctx} → IsFree c → IsFree (emit at_hangup c)
    rung f = record { held = f.held; tasks = f.tasks; rests = f.rests }

    found : (h : ℕ) (q : Option Ctx) → get h o.store ≡ q → IsOwned (cancel_found h o q)
    found h none p = own
    found h (some c) p =
        either-IsOwned o.dev_no_modem
          (hang_up-IsOwned "manual_hangup" h c o p (All-get h o.store a p) own)
          (put-IsOwned o h c (emit at_hangup c) p refl own rung)

    named : (q : Option ℕ) → IsOwned (cancel_listed o q)
    named none = own
    named (some h) = found h (get h o.store) refl

listed_as-IsOwned :
    (id : ℕ) (o : Orch) (r : Ctx × Flow)
    → r.0.call_id ≡ id
    → (r.1 ≡ unlisted → IsFree (r.0))
    → lookup id o.calls ≡ none
    → used id o.store ≡ false
    → IsOwned o
    → IsOwned (listed_as id o r)
listed_as-IsOwned id o (c, listed) i f gone new own = list-IsOwned id c o i new own gone
listed_as-IsOwned id o (c, unlisted) i f gone new own = forget-IsOwned id c o i new own (f refl)
listed_as-IsOwned id o (c, raised) i f gone new own = list-IsOwned id c o i new own gone

dial_new-IsOwned :
    (env : Env) (id : ℕ) (o : Orch)
    → lookup id o.calls ≡ none
    → used id o.store ≡ false
    → IsOwned o
    → IsOwned (dial_new env id o)
unfolding dial_new modem_call new_ctx
dial_new-IsOwned env id o gone new own = elim (Bool-cases o.dev_no_modem) [
  | inl q ↦ simp q (
      listed_as-IsOwned id o (dial_dev o.recorder env id) (dial_dev_id o.recorder env id)
        (dial_dev-IsFree o.recorder env id) gone new own)
  | inr q ↦ simp q (dialled env.dialled)
]
  where
    dialled : (m : Option ℕ) → IsOwned (dialled_call id o m)
    dialled none = record { owned = own.owned; listing = own.listing; distinct = own.distinct }
    dialled (some m) = list-IsOwned id (modem_call id m) o refl new own gone

-- a dial is a repetition of one that is listed, or of a new id
abbrev pub fresh_dial : Orch → Input → Bool
fresh_dial o (dial env id) = is_listed (lookup id o.calls) || not (used id o.store)
fresh_dial o _ = true

-- No call id is dialled again after its call has gone.
abbrev pub fresh_dials : Orch → List Input → Bool
fresh_dials o [] = true
fresh_dials o (i ∷ is) = fresh_dial o i && fresh_dials (step o i) is

on_dial-IsOwned :
    (env : Env) (id : ℕ) (o : Orch)
    → fresh_dial o (dial env id) ≡ true
    → IsOwned o
    → IsOwned (on_dial env id o)
unfolding on_dial
on_dial-IsOwned env id o fresh own = known (lookup id o.calls) refl
  where
    known : (q : Option ℕ) → lookup id o.calls ≡ q → IsOwned (dial_known env id o q)
    known (some h) e = record { owned = own.owned; listing = own.listing; distinct = own.distinct }
    known none e =
        let new : is_listed none || not (used id o.store) ≡ true =
          ap (λ q. is_listed q || not (used id o.store)) (sym e) ∙ fresh in
        dial_new-IsOwned env id o e (ground (arith, new)) own

-- sound contexts, of which none is lost
abbrev pub Kept : Orch → Type 0
Kept o = AllSound o × IsOwned o

for_calls-Kept :
    (f : ℕ → Ctx → Orch → Orch)
    → ((h : ℕ) (c : Ctx) (o : Orch) → get h o.store ≡ some c → Kept o → Kept (f h c o))
    → (calls : List (ℕ × ℕ)) (o : Orch) → Kept o
    → Kept (for_calls f calls o)
unfolding for_calls
for_calls-Kept f keeps [] o k = k
for_calls-Kept f keeps ((id, h) ∷ rest) o k =
    for_calls-Kept f keeps rest _ (found (get h o.store) refl)
  where
    found : (q : Option Ctx) → get h o.store ≡ q → Kept (with_found f h o q)
    found none p = k
    found (some c) p = keeps h c o p k

pub stop_call-Kept :
    (h : ℕ) (c : Ctx) (o : Orch) → get h o.store ≡ some c → Kept o → Kept (stop_call h c o)
stop_call-Kept h c o at (a, own) =
    let s = All-get h o.store a at in
    (stop_call-AllSound h c o s a, stop_call-IsOwned h c o at s own)

step-IsOwned : (o : Orch) (i : Input) → fresh_dial o i ≡ true → Kept o → IsOwned (step o i)
unfolding step stop dev_terminate_active_calls
step-IsOwned o (dial env id) f (a, own) = on_dial-IsOwned env id o f own
step-IsOwned o (cancel id) f (a, own) = on_cancel-IsOwned id o a own
step-IsOwned o ignored f (a, own) = own
step-IsOwned o (at_event e h) f (a, own) = pump_step-IsOwned e h o a own
step-IsOwned o dev_terminate f k =
    (for_calls-Kept (hang_up false "dev_terminate") ended o.calls o k).1
  where
    ended :
        (h : ℕ) (c : Ctx) (o : Orch)
        → get h o.store ≡ some c
        → Kept o
        → Kept (hang_up false "dev_terminate" h c o)
    ended h c o at (a, own) =
        let s = All-get h o.store a at in
        (hang_up-AllSound "dev_terminate" h c o s a, hang_up-IsOwned "dev_terminate" h c o at s own)
step-IsOwned o shut_down f k = (for_calls-Kept stop_call stop_call-Kept o.calls o k).1

pub run-Kept : (o : Orch) (is : List Input) → fresh_dials o is ≡ true → Kept o → Kept (run o is)
unfolding run
run-Kept o [] f k = k
run-Kept o (i ∷ is) f k =
    run-Kept (step o i) is (ground (arith, f))
      (step-AllSound o i (k.0), step-IsOwned o i (ground (arith, f)) k)

pub new-Kept : (dev_no_modem : Bool) (recorder : Option ℕ) → Kept (new dev_no_modem recorder)
unfolding new lookup get
new-Kept dev_no_modem recorder = (
  tt,
  record {
    owned = λ h c e. absurd (none≢some e);
    listing = λ id h e. absurd (none≢some e);
    distinct = λ h k c d e. absurd (none≢some e);
  },
)

-- From a new orchestrator, whatever the cloud, the modem and the audio do, if no call id is dialled
-- again after its call has gone: every call ever begun is in `_calls` under its id, or holds no
-- modem audio, bridge, recording or RTC session and its task list is empty (its AT event pump may
-- read on), and what `_calls` names is there under its own id.
pub run-IsOwned :
    (dev_no_modem : Bool) (recorder : Option ℕ) (is : List Input)
    → fresh_dials (new dev_no_modem recorder) is ≡ true
    → IsOwned (run (new dev_no_modem recorder) is)
run-IsOwned dev_no_modem recorder is f =
    (run-Kept (new dev_no_modem recorder) is f (new-Kept dev_no_modem recorder)).1
