-- ===== src/Fleet/Selecting.antt =====
-- Which device select.py picks.
use isales_telephony.Base.{
  clash, ℕ, ◌≤◌, ◌≡◌, ◌≢◌, ◌==◌, ==_iff, refl, true, false, Option, none, some, List, [], ◌∷◌,
  arith, All, All-imply, Bool-cases, inl, inr, ◌⊎◌,
}
use isales_telephony.Fleet.{
  Device, Joins, Status, unknown, idle, dialing, in_call, offline, flagged, earlier, eligible,
  is_idle, is_bound, better, longest_idle, called, modify, reserve, select_row, select_device,
}

-- The device is on the list.
abbrev pub Listed : Device → List Device → Type 0
Listed d [] = ⊥
Listed d (e ∷ rows) = (d ≡ e) ⊎ Listed d rows

-- No eligible device was called before this one.
abbrev pub IsFirst : Joins → ℕ → Device → Device → Type 0
IsFirst j campaign d e =
    eligible j campaign e ≡ true → earlier e.last_call_at d.last_call_at ≡ false

abbrev pub Longest : Joins → ℕ → List Device → Option Device → Type 0
Longest j campaign rows none = All (λ e. eligible j campaign e ≡ false) rows
Longest j campaign rows (some d) =
    Listed d rows × (eligible j campaign d ≡ true) × All (IsFirst j campaign d) rows

earlier_refl : (a : Option ℕ) → earlier a a ≡ false
unfolding earlier
earlier_refl none = refl
earlier_refl (some a) = ground arith

earlier_asym : (a b : Option ℕ) → earlier a b ≡ true → earlier b a ≡ false
unfolding earlier
earlier_asym none none h = refl
earlier_asym none (some b) h = refl
earlier_asym (some a) none h = ground arith
earlier_asym (some a) (some b) h = ground arith

earlier_trans : (a b c : Option ℕ) → earlier a b ≡ false → earlier b c ≡ false → earlier a c ≡ false
unfolding earlier
earlier_trans none none none h k = refl
earlier_trans none none (some c) h k = ground arith
earlier_trans none (some b) c h k = ground arith
earlier_trans (some a) b none h k = refl
earlier_trans (some a) none (some c) h k = ground arith
earlier_trans (some a) (some b) (some c) h k = ground arith

better-Longest :
    (j : Joins) (campaign : ℕ) (d : Device) (rows : List Device) (found : Option Device)
    → eligible j campaign d ≡ true
    → Longest j campaign rows found
    → Longest j campaign (d ∷ rows) (better d found)
better-Longest j campaign d rows none o h = (
  inl refl,
  o,
  (
    λ _. earlier_refl d.last_call_at,
    All-imply _ (IsFirst j campaign d) rows (λ e k l. absurd (clash _ l k)) h,
  ),
)
better-Longest j campaign d rows (some e) o (listed, ok, first) =
    elim (Bool-cases (earlier e.last_call_at d.last_call_at)) [
      | inl q ↦ rw q (inr listed, ok, (λ _. earlier_asym e.last_call_at d.last_call_at q, first))
      | inr q ↦ rw q (
        inl refl,
        o,
        (
          λ _. earlier_refl d.last_call_at,
          All-imply (IsFirst j campaign e) (IsFirst j campaign d) rows
              (λ x k l. earlier_trans x.last_call_at e.last_call_at d.last_call_at (k l) q) first,
        ),
      )
    ]

longest_idle-Longest :
    (j : Joins) (campaign : ℕ) (rows : List Device)
    → Longest j campaign rows (longest_idle j campaign rows)
unfolding longest_idle
longest_idle-Longest j campaign [] = tt
longest_idle-Longest j campaign (d ∷ rows) = elim (Bool-cases (eligible j campaign d)) [
  | inl o ↦ rw o (
      better-Longest j campaign d rows (longest_idle j campaign rows) o
        (longest_idle-Longest j campaign rows))
  | inr o ↦ rw o (passed o (longest_idle j campaign rows) (longest_idle-Longest j campaign rows))
]
  where
    passed :
        eligible j campaign d ≡ false
        → (found : Option Device) → Longest j campaign rows found
        → Longest j campaign (d ∷ rows) found
    passed o none h = (o, h)
    passed o (some e) (listed, ok, first) = (inr listed, ok, (λ l. absurd (clash _ l o), first))

eligible_idle :
    (j : Joins) (campaign : ℕ) (d : Device) → eligible j campaign d ≡ true → is_idle d.status ≡ true
unfolding eligible
eligible_idle j campaign d h = ground arith

eligible-bound :
    (j : Joins) (campaign : ℕ) (d : Device)
    → eligible j campaign d ≡ true
    → is_bound (j.binding d.id) ≡ true
unfolding eligible
eligible-bound j campaign d h = ground arith

-- The device is idle, in the campaign and bound to a SIM card.
abbrev pub IsOpen : Joins → ℕ → Device → Type 0
IsOpen j campaign d =
    (d.status ≡ idle)
    × (j.in_campaign campaign d.id ≡ true)
    × ((sim : Option ℕ) × (j.binding d.id ≡ some sim))

-- The one time of a last call is none, or not after the other.
abbrev pub NotAfter : Option ℕ → Option ℕ → Type 0
NotAfter none b = Unit
NotAfter (some a) none = ⊥
NotAfter (some a) (some b) = a ≤ b

-- The device is on the list, open, and called no later than any open one.
abbrev pub IsNext : Joins → ℕ → List Device → Device → Type 0
IsNext j campaign rows d =
    Listed d rows
    × IsOpen j campaign d
    × All (λ e. IsOpen j campaign e → NotAfter d.last_call_at e.last_call_at) rows

-- The row of this id is dialing, called now; every other row is as it was.
abbrev pub IsTaken : ℕ → ℕ → List Device → List Device → Type 0
IsTaken now id [] [] = Unit
IsTaken now id [] (e ∷ after) = ⊥
IsTaken now id (d ∷ rows) [] = ⊥
IsTaken now id (d ∷ rows) (e ∷ after) =
    (((d.id ≡ id) × (e ≡ record d { status = dialing; last_call_at = some now }))
      ⊎ ((d.id ≢ id) × (e ≡ d)))
    × IsTaken now id rows after

idle_lem : (s : Status) → is_idle s ≡ true → s ≡ idle
idle_lem idle h = refl
idle_lem unknown h = cc
idle_lem dialing h = cc
idle_lem in_call h = cc
idle_lem offline h = cc
idle_lem flagged h = cc

bound_lem : (b : Option (Option ℕ)) → is_bound b ≡ true → (sim : Option ℕ) × (b ≡ some sim)
bound_lem none h = cc
bound_lem (some sim) h = (sim, refl)

member_lem :
    (j : Joins) (campaign : ℕ) (d : Device)
    → eligible j campaign d ≡ true
    → j.in_campaign campaign d.id ≡ true
unfolding eligible
member_lem j campaign d h = ground arith

eligible-IsOpen :
    (j : Joins) (campaign : ℕ) (d : Device) → eligible j campaign d ≡ true → IsOpen j campaign d
eligible-IsOpen j campaign d h = (
  idle_lem d.status (eligible_idle j campaign d h),
  member_lem j campaign d h,
  bound_lem (j.binding d.id) (eligible-bound j campaign d h),
)

open_eligible :
    (j : Joins) (campaign : ℕ) (d : Device) → IsOpen j campaign d → eligible j campaign d ≡ true
unfolding eligible
open_eligible j campaign d (e, m, b) = rw e (rw m (rw (b.1) refl))

earlier-NotAfter : (a b : Option ℕ) → earlier b a ≡ false → NotAfter a b
unfolding earlier
earlier-NotAfter none b h = tt
earlier-NotAfter (some a) none h = cc
earlier-NotAfter (some a) (some b) h = ground arith

Longest-IsNext :
    (j : Joins) (campaign : ℕ) (rows : List Device) (d : Device)
    → Longest j campaign rows (some d)
    → IsNext j campaign rows d
Longest-IsNext j campaign rows d (listed, o, first) = (
  listed,
  eligible-IsOpen j campaign d o,
  All-imply (IsFirst j campaign d) _ rows
      (λ e k l. earlier-NotAfter d.last_call_at e.last_call_at (k (open_eligible j campaign e l)))
      first,
)

modify-IsTaken :
    (now id : ℕ) (rows : List Device) → IsTaken now id rows (modify (called now) id rows)
unfolding modify
modify-IsTaken now id [] = tt
modify-IsTaken now id (d ∷ rows) = elim (Bool-cases (d.id == id)) [
  | inl e ↦ rw e (inl (ground (arith, e), refl), modify-IsTaken now id rows)
  | inr n ↦ rw n (inr (ground (arith, n), refl), modify-IsTaken now id rows)
]

pub taken-eq :
    (now id : ℕ) (rows after : List Device)
    → IsTaken now id rows after
    → after ≡ modify (called now) id rows
unfolding modify
taken-eq now id [] [] t = refl
taken-eq now id [] (e ∷ after) t = absurd t
taken-eq now id (d ∷ rows) [] t = absurd t
taken-eq now id (d ∷ rows) (e ∷ after) (inl (q, p), t) =
    rw ((==_iff d.id id).1 q, taken-eq now id rows after t, p) refl
taken-eq now id (d ∷ rows) (e ∷ after) (inr (q, p), t) =
    let other : (d.id == id) ≡ false = ground (arith, q) in
    rw (other, taken-eq now id rows after t, p) refl

-- What the answer says of the devices, and what is left of them.
abbrev pub IsSelected : Joins → ℕ → ℕ → List Device → Option (ℕ × ℕ) × List Device → Type 0
IsSelected j campaign now rows (some (id, number), after) =
    (d : Device) × (d.id ≡ id)
    × IsNext j campaign rows d
    × (j.binding id ≡ some (some number))
    × IsTaken now id rows after
IsSelected j campaign now rows (none, after) =
    (after ≡ rows)
    × (All (λ e. ¬ IsOpen j campaign e) rows
        ⊎ ((d : Device) × IsNext j campaign rows d × (j.binding d.id ≡ some none)))

-- Whatever the devices, the campaigns and the SIM cards: a device that is picked is idle, in the
-- campaign and bound to a SIM card with the number answered, and it was never called or no later than
-- any such device; the row of its id is then dialing, with the time of its call, and every other row
-- is as it was. Where the answer is 503, either no device is idle, in the campaign and bound, or one
-- that was called no later than any other is bound to a SIM card without a number; and then nothing
-- changes.
pub select_device-IsSelected :
    (j : Joins) (campaign now : ℕ) (rows : List Device)
    → IsSelected j campaign now rows (select_device j campaign now rows)
unfolding select_device
select_device-IsSelected j campaign now rows =
    selected (longest_idle j campaign rows) (longest_idle-Longest j campaign rows)
  where
    with_binding :
        (d : Device) (b : Option (Option ℕ))
        → j.binding d.id ≡ b
        → Longest j campaign rows (some d)
        → IsSelected j campaign now rows (reserve now rows d b)
    with_binding d none e h =
        absurd (clash (is_bound (j.binding d.id)) (eligible-bound j campaign d h.1) (rw e refl))
    with_binding d (some none) e h = (refl, inr (d, Longest-IsNext j campaign rows d h, e))
    with_binding d (some (some number)) e h =
        (d, refl, Longest-IsNext j campaign rows d h, e, modify-IsTaken now d.id rows)

    selected :
        (found : Option Device)
        → Longest j campaign rows found
        → IsSelected j campaign now rows (select_row j now rows found)
    selected none h =
        (refl, inl (All-imply _ _ rows (λ e k l. clash _ (open_eligible j campaign e l) k) h))
    selected (some d) h = with_binding d (j.binding d.id) refl h
