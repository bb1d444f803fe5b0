-- ===== src/Orchestrator/Sound.antt =====
-- What holds of one call between two steps of orchestrator.py, and of a store of calls.
use isales_telephony.Base.{
  ℕ, zero, suc, ◌≡◌, refl, sym, ap, subst, ◌∙◌, Bool, true, false, none, some, List, [], ◌∷◌, ◌&&◌,
  arith, All,
}
use isales_telephony.Orchestrator.{Ctx, stop_tasks, teardown}
use isales_telephony.Orchestrator.Protocol.{held_of, nothing_held}
use isales_telephony.Orchestrator.Freeing.{teardown-Reached}
use isales_telephony.Orchestrator.Soundness.{IsSettled, teardown-IsSettled, reached, clash}
use isales_telephony.Orchestrator.Calls.{Orch, get, modify}

-- A call is settled, and before its AT stream says that it is connected it holds nothing.
pub record IsSound (c : Ctx) : Type 0 where
  pub settled : IsSettled c.connected_seen c
  pub fresh :
      c.pump_alive ≡ true
      → c.connected_seen ≡ false
      → (c.terminated ≡ false) × (c.has_at ≡ true) × (held_of c ≡ nothing_held)

pub dead-IsSound : {s : Bool} (c : Ctx) → IsSettled s c → c.pump_alive ≡ false → IsSound c
dead-IsSound c h o = record { settled = simp (h.seen_so) h; fresh = λ q. clash (sym q ∙ o) }

pub seen-IsSound : (c : Ctx) → IsSettled true c → IsSound c
seen-IsSound c h = record {
  settled = simp (h.seen_so) h;
  fresh = λ _ q. clash (sym (h.seen_so) ∙ q);
}

pub pump_off-IsSound :
    {s : Bool} (c : Ctx) → IsSettled s c → IsSound (record c { pump_alive = false })
pump_off-IsSound c h =
    dead-IsSound (record c { pump_alive = false })
      (record {
        replayed = h.replayed;
        once = h.once;
        modem = h.modem;
        freed = h.freed;
        seen_so = h.seen_so;
      })
      refl

pub and_false : (b : Bool) → b && false ≡ false
and_false true = refl
and_false false = refl

pub teardown-IsSound : {s : Bool} (c : Ctx) → IsSettled s c → IsSound (teardown false c)
unfolding stop_tasks
teardown-IsSound c h =
    dead-IsSound (teardown false c) (teardown-IsSettled false c h)
      ((teardown-Reached false c h.modem (reached c h)).frame.3 ∙ and_false c.pump_alive)

pub All-get : (h : ℕ) (cs : List Ctx) {c : Ctx} → All IsSound cs → get h cs ≡ some c → IsSound c
unfolding get
All-get h [] a e = absurd (ground arith)
All-get zero (x ∷ cs) a e = subst IsSound (ap (λ o. elim o [ none ↦ x | some y ↦ y ]) e) (a.0)
All-get (suc h) (x ∷ cs) a e = All-get h cs (a.1) e

pub All-modify :
    (h : ℕ) (cs : List Ctx) (d : Ctx)
    → IsSound d
    → All IsSound cs
    → All IsSound (modify h (λ _. d) cs)
unfolding modify
All-modify h [] d p a = a
All-modify zero (x ∷ cs) d p a = (p, a.1)
All-modify (suc h) (x ∷ cs) d p a = (a.0, All-modify h cs d p (a.1))

abbrev pub AllSound : Orch → Type 0
AllSound o = All IsSound o.store
