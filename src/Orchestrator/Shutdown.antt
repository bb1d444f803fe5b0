-- ===== src/Orchestrator/Shutdown.antt =====
-- What `stop` of orchestrator.py leaves.
use isales_telephony.Base.{
  ℕ, ◌≡◌, refl, sym, ap, ◌∙◌, Bool, true, false, Option, none, some, List, [], ◌∷◌, ◌==◌, ==_iff,
  if◌then◌else◌, Bool-cases, inl, inr, All, zero, suc, ◌≢◌,
}
use isales_telephony.Orchestrator.{Ctx}
use isales_telephony.Orchestrator.Soundness.{clash}
use isales_telephony.Orchestrator.Calls.{
  Orch, get, lookup, stop_call, for_calls, stop, with_found, Input, run, new,
}
use isales_telephony.Orchestrator.Ownership.{IsFree, IsOwned, lookup-pop, none≢some, some_inj}
use isales_telephony.Orchestrator.Owning.{Kept, stop_call-Kept, run-Kept, new-Kept, fresh_dials}

-- what is still in `_calls` is among the calls to come
abbrev Covers : List (ℕ × ℕ) → Orch → Type 0
Covers more o = (id h : ℕ) → lookup id o.calls ≡ some h → lookup id more ≡ some h

-- a call of the snapshot that is gone, or that is not this one, comes later
skip :
    (id j h k : ℕ) (more : List (ℕ × ℕ))
    → lookup id ((j, h) ∷ more) ≡ some k
    → (j ≡ id → h ≢ k)
    → lookup id more ≡ some k
unfolding lookup
skip id j h k more e n = elim (Bool-cases (j == id)) [
  | inl q ↦ absurd (
      n ((==_iff j id).0 q) (some_inj (ap (λ b. if b then some h else lookup id more) (sym q) ∙ e)))
  | inr q ↦ ap (λ b. if b then some h else lookup id more) (sym q) ∙ e
]

-- the call at a place that has none
missing-Covers :
    (j h : ℕ) (more : List (ℕ × ℕ)) (o : Orch)
    → get h o.store ≡ none
    → IsOwned o
    → Covers ((j, h) ∷ more) o
    → Covers more o
missing-Covers j h more o at own covers id k e =
    skip id j h k more (covers id k e)
      (λ _ p. none≢some (sym at ∙ ap (λ i. get i o.store) p ∙ (own.listing id k e).1))

stopped-Covers :
    (j h : ℕ) (c : Ctx) (more : List (ℕ × ℕ)) (o : Orch)
    → get h o.store ≡ some c
    → IsOwned o
    → Covers ((j, h) ∷ more) o
    → Covers more (stop_call h c o)
unfolding stop_call
stopped-Covers j h c more o at own covers id k e = elim (Bool-cases (c.call_id == id)) [
  | inl q ↦ absurd (none≢some (popped q))
  | inr q ↦
      let there = kept q in
      let l = own.listing id k there in
      skip id j h k more (covers id k there) (λ _ p.
        apart q
          (ap (λ (z : Ctx). z.call_id) (some_inj (sym at ∙ ap (λ i. get i o.store) p ∙ l.1)) ∙ l.2))
]
  where
    popped : c.call_id == id ≡ true → none ≡ some k
    popped q =
        ap (λ b. if b then none else lookup id o.calls) (sym q)
        ∙ sym (lookup-pop id c.call_id o.calls)
        ∙ e

    kept : c.call_id == id ≡ false → lookup id o.calls ≡ some k
    kept q =
        ap (λ b. if b then none else lookup id o.calls) (sym q)
        ∙ sym (lookup-pop id c.call_id o.calls)
        ∙ e

    apart : c.call_id == id ≡ false → c.call_id ≢ id
    apart q p = clash (sym ((==_iff c.call_id id).1 p) ∙ q)

lookup_none : (calls : List (ℕ × ℕ)) → ((id h : ℕ) → lookup id calls ≢ some h) → calls ≡ []
unfolding lookup
lookup_none [] n = refl
lookup_none ((j, h) ∷ calls) n =
    absurd (n j h (ap (λ b. if b then some h else lookup j calls) ((==_iff j j).1 refl)))

All-listed : (cs : List Ctx) → ((h : ℕ) (c : Ctx) → get h cs ≡ some c → IsFree c) → All IsFree cs
unfolding get
All-listed [] f = tt
All-listed (c ∷ cs) f = (f zero c refl, All-listed cs (λ h. f (suc h)))

abbrev pub Stopped : Orch → Type 0
Stopped o = (o.calls ≡ []) × All IsFree o.store

for_calls-Stopped :
    (more : List (ℕ × ℕ)) (o : Orch) → Kept o → Covers more o → Stopped (for_calls stop_call more o)
unfolding for_calls lookup
for_calls-Stopped [] o (a, own) covers = (
  lookup_none o.calls (λ id h e. none≢some (covers id h e)),
  All-listed o.store (λ h c e. elim (own.owned h c e) [
    | inl l ↦ absurd (none≢some (covers c.call_id h l))
    | inr f ↦ f
  ]),
)
for_calls-Stopped ((j, h) ∷ more) o k covers = found (for_calls-Stopped more) (get h o.store) refl
  where
    found :
        ((p : Orch) → Kept p → Covers more p → Stopped (for_calls stop_call more p))
        → (q : Option Ctx) → get h o.store ≡ q
        → Stopped (for_calls stop_call more (with_found stop_call h o q))
    found later none p = later o k (missing-Covers j h more o p k.1 covers)
    found later (some c) p =
        later (stop_call h c o) (stop_call-Kept h c o p k)
          (stopped-Covers j h c more o p k.1 covers)

-- From a new orchestrator, after any inputs in which no call id is dialled again after its call has
-- gone: `stop` leaves `_calls` empty, and every call ever begun, listed or not, holds no modem
-- audio, bridge, recording or RTC session, and its task list is empty. Its AT event pump, which is
-- no entry of that list where a join failed, may still read on.
pub stop-Stopped :
    (dev_no_modem : Bool) (recorder : Option ℕ) (is : List Input)
    → fresh_dials (new dev_no_modem recorder) is ≡ true
    → Stopped (stop (run (new dev_no_modem recorder) is))
unfolding stop
stop-Stopped dev_no_modem recorder is f =
    let o = run (new dev_no_modem recorder) is in
    for_calls-Stopped o.calls o
      (run-Kept (new dev_no_modem recorder) is f (new-Kept dev_no_modem recorder)) (λ id h e. e)
