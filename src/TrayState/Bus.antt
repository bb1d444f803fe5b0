-- ===== src/TrayState/Bus.antt =====
-- What a subscriber of the bus of state.py is called with.
use isales_telephony.Base.{
  ℕ, ◌≡◌, refl, sym, ap, ◌∙◌, Bool, true, false, List, [], ◌∷◌, ◌++◌, map, ◌==◌, arith, length,
  keep, keep-append, Bool-cases, inl, inr, append_assoc, append-nil, replicate,
}
use isales_telephony.TrayState.{
  EdgeStatus, StateBus, subscribe, remove_first, unsubscribe, set, update,
}

pub data Op : Type 0 where
  subscribed unsubscribed : ℕ → Op
  was_set : EdgeStatus → Op
  updated : (EdgeStatus → EdgeStatus) → Op

unfoldable pub step : StateBus → Op → StateBus
step b (subscribed sub) = subscribe sub b
step b (unsubscribed sub) = unsubscribe sub b
step b (was_set status) = set status b
step b (updated changes) = update changes b

unfoldable pub run : StateBus → List Op → StateBus
run b [] = b
run b (o ∷ os) = run (step b o) os

abbrev picked : Bool → EdgeStatus → List EdgeStatus → List EdgeStatus
picked true s rest = s ∷ rest
picked false s rest = rest

-- The statuses that one subscriber was called with.
unfoldable pub received : ℕ → List (ℕ × EdgeStatus) → List EdgeStatus
received sub [] = []
received sub ((s, status) ∷ rest) = picked (s == sub) status (received sub rest)

-- The statuses published, one after the other, from one snapshot.
unfoldable pub published : EdgeStatus → List Op → List EdgeStatus
published status [] = []
published status (subscribed _ ∷ os) = published status os
published status (unsubscribed _ ∷ os) = published status os
published status (was_set next ∷ os) = next ∷ published next os
published status (updated changes ∷ os) = changes status ∷ published (changes status) os

-- no operation subscribes or unsubscribes it
abbrev IsLeftAlone : ℕ → List Op → Type 0
IsLeftAlone sub [] = Unit
IsLeftAlone sub (subscribed s ∷ os) = ((s == sub) ≡ false) × IsLeftAlone sub os
IsLeftAlone sub (unsubscribed s ∷ os) = ((s == sub) ≡ false) × IsLeftAlone sub os
IsLeftAlone sub (was_set _ ∷ os) = IsLeftAlone sub os
IsLeftAlone sub (updated _ ∷ os) = IsLeftAlone sub os

-- how often it is subscribed
unfoldable pub times : ℕ → List ℕ → ℕ
times sub subs = length (keep (λ s. s == sub) subs)

received-append :
    (sub : ℕ) (xs ys : List (ℕ × EdgeStatus))
    → received sub (xs ++ ys) ≡ received sub xs ++ received sub ys
unfolding received
received-append sub [] ys = refl
received-append sub ((s, status) ∷ xs) ys = elim (Bool-cases (s == sub)) [
  | inl o ↦ rw o (ap (λ l. status ∷ l) (received-append sub xs ys))
  | inr o ↦ rw o (received-append sub xs ys)
]

received-call :
    (sub : ℕ) (status : EdgeStatus) (subs : List ℕ)
    → received sub (map (λ s. (s, status)) subs) ≡ replicate (times sub subs) status
unfolding received times
received-call sub status [] = refl
received-call sub status (s ∷ subs) = elim (Bool-cases (s == sub)) [
  | inl o ↦ rw o (ap (λ l. status ∷ l) (received-call sub status subs))
  | inr o ↦ rw o (received-call sub status subs)
]

times-subscribe :
    (sub s : ℕ) (subs : List ℕ) → (s == sub) ≡ false → times sub (subs ++ s ∷ []) ≡ times sub subs
unfolding times
times-subscribe sub s subs h =
    ap length (keep-append (λ t. t == sub) subs (s ∷ []))
    ∙ rw h (ap length (append-nil (keep (λ t. t == sub) subs)))

times-remove :
    (sub s : ℕ) (subs : List ℕ)
    → (s == sub) ≡ false
    → times sub (remove_first s subs) ≡ times sub subs
unfolding times remove_first
times-remove sub s [] h = refl
times-remove sub s (t ∷ subs) h = ground (arith, times-remove sub s subs h)

called :
    (sub : ℕ) (b : StateBus) (status : EdgeStatus)
    → times sub b.subscribers ≡ 1
    → received sub (b.delivered ++ map (λ s. (s, status)) b.subscribers)
      ≡ received sub b.delivered ++ status ∷ []
called sub b status once =
    received-append sub b.delivered (map (λ s. (s, status)) b.subscribers)
    ∙ ap (λ l. received sub b.delivered ++ l)
        (received-call sub status b.subscribers ∙ rw once refl)

-- Where the calls of the bus come one after the other, each with its fan-out, and no subscriber
-- raises: a subscriber that is subscribed once and then left alone, whoever else subscribes,
-- unsubscribes or publishes, is called with every status published from then on, each once and in
-- order.
pub run-received :
    (sub : ℕ) (os : List Op) (b : StateBus)
    → times sub b.subscribers ≡ 1
    → IsLeftAlone sub os
    → received sub (run b os).delivered ≡ received sub b.delivered ++ published b.status os
unfolding run step published subscribe unsubscribe set update
run-received sub [] b once h = sym (append-nil (received sub b.delivered))
run-received sub (subscribed s ∷ os) b once h =
    run-received sub os (subscribe s b) (times-subscribe sub s b.subscribers (h.0) ∙ once) (h.1)
run-received sub (unsubscribed s ∷ os) b once h =
    run-received sub os (unsubscribe s b) (times-remove sub s b.subscribers (h.0) ∙ once) (h.1)
run-received sub (was_set next ∷ os) b once h =
    run-received sub os (set next b) once h
    ∙ ap (λ l. l ++ published next os) (called sub b next once)
    ∙ append_assoc (received sub b.delivered) (next ∷ []) (published next os)
run-received sub (updated changes ∷ os) b once h =
    let next = changes b.status in
    run-received sub os (update changes b) once h
    ∙ ap (λ l. l ++ published next os) (called sub b next once)
    ∙ append_assoc (received sub b.delivered) (next ∷ []) (published next os)
