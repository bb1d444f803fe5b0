-- ===== src/Orchestrator/Leaks.antt =====
-- No handler of orchestrator.py loses a call that still holds something.
use Prim.Native.String.{String}
use isales_telephony.Base.{
  ℕ, ◌≡◌, refl, sym, ap, ◌∙◌, subst, Bool, true, false, Option, none, some, ==_iff, Bool-cases, inl,
  inr, if◌then◌else◌,
}
use isales_telephony.Orchestrator.{
  Ctx, Env, Flow, listed, unlisted, raised, teardown, handle_remote_hangup, handle_connected,
  stop_tasks,
}
use isales_telephony.Orchestrator.Soundness.{
  clash, IsSettled, hangup-IsSettled, hangup_pump, reached,
}
use isales_telephony.Orchestrator.Freeing.{teardown-Reached}
use isales_telephony.Orchestrator.Connecting.{handle_connected-IsSettled}
use isales_telephony.Orchestrator.Silence.{hangup_terminated}
use isales_telephony.Orchestrator.Calls.{
  Orch, get, is_listed, lookup, pop, modify, hang_up, pump_finally, stop_call, after_connected,
}
use isales_telephony.Orchestrator.Sound.{IsSound, and_false}
use isales_telephony.Orchestrator.Ids.{
  teardown_id, hangup_id, handle_connected_id, connected-EndsUnlisted, ended-IsFree, off-IsFree,
  teardown-IsFree, pump_off-IsFree,
}
use isales_telephony.Orchestrator.Ownership.{IsFree, IsOwned, lookup-pop, put-IsOwned, pop-IsOwned}

pub hang_up-IsOwned :
    (cause : String) (h : ℕ) (c : Ctx) (o : Orch)
    → get h o.store ≡ some c
    → IsSound c
    → IsOwned o
    → IsOwned (hang_up false cause h c o)
unfolding hang_up
hang_up-IsOwned cause h c o at s own = elim (Bool-cases c.terminated) [
  | inl q ↦ simp q own
  | inr q ↦ simp q (
      pop-IsOwned o h c (handle_remote_hangup false cause c) at (hangup_id false cause c) own
        (ended q))
]
  where
    ended : c.terminated ≡ false → IsFree (handle_remote_hangup false cause c)
    ended q =
        ended-IsFree _ (hangup-IsSettled false cause c s.settled) (hangup_terminated false cause c)
          (λ p. clash (sym p ∙ hangup_pump false cause c s.settled q ∙ and_false c.pump_alive))

pub stopped-IsFree : (c : Ctx) → IsSound c → IsFree (teardown false c)
unfolding stop_tasks
stopped-IsFree c s =
    off-IsFree (teardown false c)
      ((teardown-Reached false c s.settled.modem (reached c s.settled)).frame.3
        ∙ and_false c.pump_alive)
      (teardown-IsFree false c s.settled)

pub stop_call-IsOwned :
    (h : ℕ) (c : Ctx) (o : Orch)
    → get h o.store ≡ some c
    → IsSound c
    → IsOwned o
    → IsOwned (stop_call h c o)
unfolding stop_call
stop_call-IsOwned h c o at s own =
    pop-IsOwned o h c (teardown false c) at (teardown_id false c) own (stopped-IsFree c s)

is_listed-some : {q : Option ℕ} {h : ℕ} → q ≡ some h → is_listed q ≡ true
is_listed-some e = ap is_listed e

-- The context at `h`, and what its handler has made of it when the pump ends.
module _ (h : ℕ) (c d : Ctx) (o : Orch) (at : get h o.store ≡ some c) (same : d.call_id ≡ c.call_id)
    (own : IsOwned o) where
  abbrev Popped : Ctx → Type 0
  Popped x = IsOwned (record o { calls = pop d.call_id o.calls; store = modify h (λ _. x) o.store })

  ends-IsOwned : (x : Ctx) → x.call_id ≡ c.call_id → IsFree x → Popped x
  ends-IsOwned x e free =
      subst (λ i. IsOwned (record o { calls = pop i o.calls; store = modify h (λ _. x) o.store }))
        (sym same) (pop-IsOwned o h c x at e own free)

  pub pump_finally-IsOwned :
      {s : Bool} → IsSettled s d → (IsFree c → IsFree d) → IsOwned (pump_finally h d o)
  unfolding pump_finally
  pump_finally-IsOwned t frees = elim (Bool-cases (is_listed (lookup d.call_id o.calls))) [
    | inl q ↦ rw q (
        ends-IsOwned (record (teardown true d) { pump_alive = false }) (teardown_id true d ∙ same)
          (teardown-IsFree true d t))
    | inr q ↦ rw q (
        put-IsOwned o h c (record d { pump_alive = false }) at same own
          (λ f. pump_off-IsFree (frees f)))
  ]

abbrev pub marked : Ctx → Ctx
marked c = record c { connected_seen = true }

-- the pump reads `connected`
pub connected-IsOwned :
    (env : Env) (h : ℕ) (c : Ctx) (o : Orch)
    → get h o.store ≡ some c
    → c.pump_alive ≡ true
    → c.connected_seen ≡ false
    → IsSound c
    → IsOwned o
    → IsOwned (after_connected h o (handle_connected o.recorder env (marked c)))
connected-IsOwned env h c o at live q s own =
    let early = s.fresh live q in
    flowed (handle_connected o.recorder env (marked c))
      (handle_connected-IsSettled o.recorder env (marked c) (mark s.settled) (early.0) (early.1)
        (early.2))
      (handle_connected_id o.recorder env (marked c))
      (connected-EndsUnlisted o.recorder env (marked c))
  where
    mark : {s : Bool} → IsSettled s c → IsSettled true (marked c)
    mark t = record {
      replayed = t.replayed;
      once = t.once;
      modem = t.modem;
      freed = t.freed;
      seen_so = refl;
    }

    awake : {d : Ctx} → IsFree c → IsFree d
    awake f = clash (sym (f.rests live) ∙ q)

    flowed :
        (r : Ctx × Flow)
        → IsSettled true (r.0)
        → r.0.call_id ≡ c.call_id
        → (r.1 ≡ unlisted → r.0.terminated ≡ true)
        → IsOwned (after_connected h o r)
    flowed (d, listed) t i u = put-IsOwned o h c d at i own awake
    flowed (d, unlisted) t i u =
        ends-IsOwned h c d o at i own d i (ended-IsFree d t (u refl) (λ _. t.seen_so))
    flowed (d, raised) t i u = pump_finally-IsOwned h c d o at i own t awake

-- the hangup in the pump
pub hung_up-IsOwned :
    (cause : String) (h : ℕ) (c : Ctx) (o : Orch)
    → get h o.store ≡ some c
    → IsSound c
    → IsOwned o
    → IsOwned (
        pump_finally h
          (handle_remote_hangup true cause c)
          (record o { calls = pop c.call_id o.calls }))
unfolding pump_finally
hung_up-IsOwned cause h c o at s own = rw gone (
    pop-IsOwned o h c (record (handle_remote_hangup true cause c) { pump_alive = false }) at same
      own free)
  where
    same : (handle_remote_hangup true cause c).call_id ≡ c.call_id
    same = hangup_id true cause c

    free : IsFree (record (handle_remote_hangup true cause c) { pump_alive = false })
    free =
        let t = hangup-IsSettled true cause c s.settled in
        let left = t.freed (hangup_terminated true cause c) in
        record { held = left.0; tasks = left.1; rests = λ q. clash (sym q) }

    gone :
        is_listed (lookup (handle_remote_hangup true cause c).call_id (pop c.call_id o.calls))
        ≡ false
    gone =
        ap (λ i. is_listed (lookup i (pop c.call_id o.calls))) same
        ∙ ap is_listed (lookup-pop c.call_id c.call_id o.calls)
        ∙ ap (λ b. is_listed (if b then none else lookup c.call_id o.calls))
            ((==_iff c.call_id c.call_id).1 refl)
