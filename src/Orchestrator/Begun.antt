-- ===== src/Orchestrator/Begun.antt =====
-- A new context in the store of orchestrator.py: whether it is listed, and what that keeps true.
use isales_telephony.Base.{
  ℕ, zero, suc, ◌≡◌, ◌≢◌, refl, sym, ap, ◌∙◌, subst, Bool, false, none, some, List, [], ◌∷◌, ◌++◌,
  ◌==◌, ◌||◌, inl, inr, ◌⊎◌, arith, length,
}
use isales_telephony.Orchestrator.{Ctx}
use isales_telephony.Orchestrator.Calls.{Orch, lookup, get, list_call, forget_call}
use isales_telephony.Orchestrator.Ownership.{IsFree, IsOwned, some_inj, none≢some}

-- some call begun had this id
abbrev pub used : ℕ → List Ctx → Bool
used id [] = false
used id (c ∷ cs) = (c.call_id == id) || used id cs

used-get :
    (id h : ℕ) (x : Ctx) (cs : List Ctx) → used id cs ≡ false → get h cs ≡ some x → x.call_id ≢ id
unfolding get
used-get id h x [] u e = absurd (none≢some e)
used-get id zero x (c ∷ cs) u e = λ i. differ (ap (λ (z : Ctx). z.call_id) (some_inj e) ∙ i)
  where
    differ : c.call_id ≡ id → ⊥
    differ i = ground (arith, u, i)
used-get id (suc h) x (c ∷ cs) u e = used-get id h x cs (ground (arith, u)) e

get-before : (h : ℕ) (x c : Ctx) (cs : List Ctx) → get h cs ≡ some x → get h (cs ++ c ∷ []) ≡ some x
unfolding get
get-before h x c [] e = absurd (none≢some e)
get-before zero x c (y ∷ cs) e = e
get-before (suc h) x c (y ∷ cs) e = get-before h x c cs e

get-last : (c : Ctx) (cs : List Ctx) → get (length cs) (cs ++ c ∷ []) ≡ some c
unfolding get
get-last c [] = refl
get-last c (y ∷ cs) = get-last c cs

get-snoc :
    (h : ℕ) (x c : Ctx) (cs : List Ctx)
    → get h (cs ++ c ∷ []) ≡ some x
    → (get h cs ≡ some x) ⊎ ((h ≡ length cs) × (x ≡ c))
unfolding get
get-snoc zero x c [] e = inr (refl, sym (some_inj e))
get-snoc (suc h) x c [] e = absurd (none≢some e)
get-snoc zero x c (y ∷ cs) e = inl e
get-snoc (suc h) x c (y ∷ cs) e = later (get-snoc h x c cs e)
  where
    later :
        (get h cs ≡ some x) ⊎ ((h ≡ length cs) × (x ≡ c))
        → (get h cs ≡ some x) ⊎ ((suc h ≡ suc (length cs)) × (x ≡ c))
    later (inl p) = inl p
    later (inr (p, q)) = inr (ap suc p, q)

lookup-before :
    (id j h k : ℕ) (calls : List (ℕ × ℕ))
    → lookup id calls ≡ some k
    → lookup id (calls ++ (j, h) ∷ []) ≡ some k
unfolding lookup
lookup-before id j h k [] e = absurd (none≢some e)
lookup-before id j h k ((i, g) ∷ calls) e = ground (arith, e, lookup-before id j h k calls)

lookup-last :
    (id h : ℕ) (calls : List (ℕ × ℕ))
    → lookup id calls ≡ none
    → lookup id (calls ++ (id, h) ∷ []) ≡ some h
unfolding lookup
lookup-last id h [] e = ground arith
lookup-last id h ((i, g) ∷ calls) e = ground (arith, e, lookup-last id h calls)

lookup-snoc :
    (id j h k : ℕ) (calls : List (ℕ × ℕ))
    → lookup id (calls ++ (j, h) ∷ []) ≡ some k
    → (lookup id calls ≡ some k) ⊎ ((j ≡ id) × (h ≡ k))
unfolding lookup
lookup-snoc id j h k [] e = ground (arith, e)
lookup-snoc id j h k ((i, g) ∷ calls) e = ground (arith, e, lookup-snoc id j h k calls)

module _ (id : ℕ) (c : Ctx) (o : Orch) (is : c.call_id ≡ id) (new : used id o.store ≡ false)
    (own : IsOwned o) where
  snoc_distinct :
      (h k : ℕ) (x y : Ctx)
      → get h (o.store ++ c ∷ []) ≡ some x
      → get k (o.store ++ c ∷ []) ≡ some y
      → x.call_id ≡ y.call_id
      → h ≡ k
  snoc_distinct h k x y p q e = both (get-snoc h x c o.store p) (get-snoc k y c o.store q)
    where
      ids : {z : Ctx} → z ≡ c → z.call_id ≡ id
      ids r = ap (λ (z : Ctx). z.call_id) r ∙ is

      both :
          (get h o.store ≡ some x) ⊎ ((h ≡ length o.store) × (x ≡ c))
          → (get k o.store ≡ some y) ⊎ ((k ≡ length o.store) × (y ≡ c))
          → h ≡ k
      both (inl a) (inl b) = own.distinct h k x y a b e
      both (inl a) (inr b) = absurd (used-get id h x o.store new a (e ∙ ids (b.1)))
      both (inr a) (inl b) = absurd (used-get id k y o.store new b (sym e ∙ ids (a.1)))
      both (inr a) (inr b) = a.0 ∙ sym (b.0)

  -- a call that ended while it was dialled
  pub forget-IsOwned : IsFree c → IsOwned (forget_call c o)
  forget-IsOwned free = record {
    owned = λ h x e. elim (get-snoc h x c o.store e) [
      | inl p ↦ own.owned h x p
      | inr p ↦ inr (subst IsFree (sym (p.1)) free)
    ];
    listing = λ j h e. let l = own.listing j h e in (l.0, get-before h (l.0) c o.store (l.1), l.2);
    distinct = snoc_distinct;
  }

  -- a call that is listed
  pub list-IsOwned : lookup id o.calls ≡ none → IsOwned (list_call id c o)
  list-IsOwned gone = record {
    owned = λ h x e. elim (get-snoc h x c o.store e) [
      | inl p ↦ elim (own.owned h x p) [
        | inl l ↦ inl (lookup-before x.call_id id (length o.store) h o.calls l)
        | inr f ↦ inr f
      ]
      | inr p ↦ inl (
          ap (λ (z : Ctx). lookup z.call_id (o.calls ++ (id, length o.store) ∷ [])) (p.1)
          ∙ ap (λ j. lookup j (o.calls ++ (id, length o.store) ∷ [])) is
          ∙ lookup-last id (length o.store) o.calls gone
          ∙ ap some (sym (p.0)))
    ];
    listing = λ j h e. elim (lookup-snoc j id (length o.store) h o.calls e) [
      | inl p ↦ let l = own.listing j h p in (l.0, get-before h (l.0) c o.store (l.1), l.2)
      | inr p ↦ (c, ap (λ k. get k (o.store ++ c ∷ [])) (sym (p.1)) ∙ get-last c o.store, is ∙ p.0)
    ];
    distinct = snoc_distinct;
  }
