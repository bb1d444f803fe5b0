-- ===== src/Orchestrator/Ownership.antt =====
-- Which contexts `_calls` of orchestrator.py lists, and what the others hold.
use isales_telephony.Base.{
  ℕ, zero, suc, ◌≡◌, ◌≢◌, refl, sym, ap, ◌∙◌, subst, true, false, none, some, List, [], ◌∷◌, ◌==◌,
  ==_iff, if◌then◌else◌, Bool-cases, inl, inr, ◌⊎◌, arith, clash,
}
use isales_telephony.Orchestrator.{Ctx}
use isales_telephony.Orchestrator.Protocol.{held_of, nothing_held}
use isales_telephony.Orchestrator.Calls.{Orch, lookup, pop, get, modify}

-- The context holds nothing and lists no task, and its AT event pump, where it runs, will not connect the call.
pub record IsFree (c : Ctx) : Type 0 where
  pub held : held_of c ≡ nothing_held
  pub tasks : c.tasks ≡ []
  pub rests : c.pump_alive ≡ true → c.connected_seen ≡ true

-- Each context is listed under its call id or free; what is listed is there, under its own id; and
-- no two contexts have one call id.
pub record IsOwned (o : Orch) : Type 0 where
  pub owned :
      (h : ℕ) (c : Ctx) → get h o.store ≡ some c → (lookup c.call_id o.calls ≡ some h) ⊎ IsFree c
  pub listing :
      (id h : ℕ)
      → lookup id o.calls ≡ some h
      → (c : Ctx) × (get h o.store ≡ some c) × (c.call_id ≡ id)
  pub distinct :
      (h k : ℕ) (c d : Ctx)
      → get h o.store ≡ some c
      → get k o.store ≡ some d
      → c.call_id ≡ d.call_id
      → h ≡ k

pub lookup-pop :
    (id j : ℕ) (calls : List (ℕ × ℕ))
    → lookup id (pop j calls) ≡ (if j == id then none else lookup id calls)
unfolding lookup pop
lookup-pop id j [] = ground arith
lookup-pop id j ((k, h) ∷ calls) = ground (arith, lookup-pop id j calls)

pub some_inj : {A : Type 0} {a b : A} → some a ≡ some b → a ≡ b
some_inj e = cc

pub none≢some : {A : Type 0} {a : A} → none ≡ some a → ⊥
none≢some e = cc

-- what stands at `k` once `d` is put at `h`
pub get-modify :
    (h k : ℕ) (d x : Ctx) (cs : List Ctx)
    → get k (modify h (λ _. d) cs) ≡ some x
    → ((h ≡ k) × (x ≡ d)) ⊎ ((h ≢ k) × (get k cs ≡ some x))
unfolding get modify
get-modify h k d x [] e = absurd (none≢some e)
get-modify zero zero d x (c ∷ cs) e = inl (refl, sym (some_inj e))
get-modify zero (suc k) d x (c ∷ cs) e = inr (ground arith, e)
get-modify (suc h) zero d x (c ∷ cs) e = inr (ground arith, e)
get-modify (suc h) (suc k) d x (c ∷ cs) e = later (get-modify h k d x cs e)
  where
    later :
        ((h ≡ k) × (x ≡ d)) ⊎ ((h ≢ k) × (get k cs ≡ some x))
        → ((suc h ≡ suc k) × (x ≡ d)) ⊎ ((suc h ≢ suc k) × (get k cs ≡ some x))
    later (inl (p, q)) = inl (ap suc p, q)
    later (inr (p, q)) = inr (ground arith, q)

-- `d` stands at `h`, if anything did
pub get-modify_same :
    (h : ℕ) (c d : Ctx) (cs : List Ctx) → get h cs ≡ some c → get h (modify h (λ _. d) cs) ≡ some d
unfolding get modify
get-modify_same h c d [] e = absurd (none≢some e)
get-modify_same zero c d (x ∷ cs) e = refl
get-modify_same (suc h) c d (x ∷ cs) e = get-modify_same h c d cs e

pub get-modify_other :
    (h k : ℕ) (d : Ctx) (cs : List Ctx) → h ≢ k → get k (modify h (λ _. d) cs) ≡ get k cs
unfolding get modify
get-modify_other h k d [] n = refl
get-modify_other zero zero d (c ∷ cs) n = absurd (n refl)
get-modify_other zero (suc k) d (c ∷ cs) n = refl
get-modify_other (suc h) zero d (c ∷ cs) n = refl
get-modify_other (suc h) (suc k) d (c ∷ cs) n = get-modify_other h k d cs (λ e. n (ap suc e))

-- The context at `h` gives way to `d`, which has its id.
module _ (o : Orch) (h : ℕ) (c d : Ctx) (at : get h o.store ≡ some c) (same : d.call_id ≡ c.call_id)
    (own : IsOwned o) where
  -- a context of the changed store stood at its place before, with its id
  before :
      (k : ℕ) (x : Ctx)
      → get k (modify h (λ _. d) o.store) ≡ some x
      → (y : Ctx) × (get k o.store ≡ some y) × (y.call_id ≡ x.call_id)
  before k x e = elim (get-modify h k d x o.store e) [
    | inl (p, q) ↦ (
      c,
      subst (λ i. get i o.store ≡ some c) p at,
      sym same ∙ ap (λ (z : Ctx). z.call_id) (sym q),
    )
    | inr (p, q) ↦ (x, q, refl)
  ]

  modify_distinct :
      (i k : ℕ) (x y : Ctx)
      → get i (modify h (λ _. d) o.store) ≡ some x
      → get k (modify h (λ _. d) o.store) ≡ some y
      → x.call_id ≡ y.call_id
      → i ≡ k
  modify_distinct i k x y p q e =
      let b = before i x p in
      let a = before k y q in own.distinct i k b.0 a.0 b.1 a.1 (b.2 ∙ e ∙ sym a.2)

  -- what is listed is still there
  modify_listing :
      (id k : ℕ)
      → lookup id o.calls ≡ some k
      → (x : Ctx) × (get k (modify h (λ _. d) o.store) ≡ some x) × (x.call_id ≡ id)
  modify_listing id k e =
      let l = own.listing id k e in
      elim (Bool-cases (h == k)) [
        | inl p ↦
            let i : h ≡ k = (==_iff h k).0 p in
            let was : l.0 ≡ c = some_inj (sym l.1 ∙ subst (λ j. get j o.store ≡ some c) i at) in
            (
              d,
              subst (λ j. get j (modify h (λ _. d) o.store) ≡ some d) i
                  (get-modify_same h c d o.store at),
              same ∙ ap (λ (z : Ctx). z.call_id) (sym was) ∙ l.2,
            )
        | inr p ↦ (
          l.0,
          get-modify_other h k d o.store (λ i. clash (h == k) ((==_iff h k).1 i) p) ∙ l.1,
          l.2,
        )
      ]

  -- put back, and listed or free as before
  pub put-IsOwned : (IsFree c → IsFree d) → IsOwned (record o { store = modify h (λ _. d) o.store })
  put-IsOwned frees = record {
    owned = λ k x e. elim (get-modify h k d x o.store e) [
      | inl (p, q) ↦ elim (own.owned h c at) [
        | inl l ↦ inl (
            ap (λ (z : Ctx). lookup z.call_id o.calls) q
            ∙ ap (λ i. lookup i o.calls) same
            ∙ l
            ∙ ap some p)
        | inr f ↦ inr (subst IsFree (sym q) (frees f))
      ]
      | inr (p, q) ↦ own.owned k x q
    ];
    listing = modify_listing;
    distinct = modify_distinct;
  }

  -- taken off the list, and free
  pub pop-IsOwned :
      IsFree d
      → IsOwned (record o { calls = pop c.call_id o.calls; store = modify h (λ _. d) o.store })
  pop-IsOwned free = record {
    owned = λ k x e. elim (get-modify h k d x o.store e) [
      | inl (p, q) ↦ inr (subst IsFree (sym q) free)
      | inr (p, q) ↦ elim (own.owned k x q) [
        | inr f ↦ inr f
        | inl l ↦ inl (
            lookup-pop x.call_id c.call_id o.calls
            ∙ rw (apart (λ i. p (own.distinct h k c x at q i))) l)
      ]
    ];
    listing = λ id k e. modify_listing id k (unpopped id k e);
    distinct = modify_distinct;
  }
    where
      apart : {a b : ℕ} → a ≢ b → (a == b) ≡ false
      apart {a = a} {b = b} n = elim (Bool-cases (a == b)) [
        | inl i ↦ absurd (n ((==_iff a b).0 i))
        | inr i ↦ i
      ]

      unpopped :
          (id k : ℕ) → lookup id (pop c.call_id o.calls) ≡ some k → lookup id o.calls ≡ some k
      unpopped id k e = elim (Bool-cases (c.call_id == id)) [
        | inl i ↦ absurd (
            none≢some (
              ap (λ b. if b then none else lookup id o.calls) (sym i)
              ∙ sym (lookup-pop id c.call_id o.calls)
              ∙ e))
        | inr i ↦
            ap (λ b. if b then none else lookup id o.calls) (sym i)
            ∙ sym (lookup-pop id c.call_id o.calls)
            ∙ e
      ]
