-- ===== src/Fleet/Busy.antt =====
-- That the writers of the devices leave a device busy that is not idle.
use isales_telephony.Base.{
  ℕ, ◌≡◌, refl, ap, sym, ◌∙◌, Bool, true, false, Option, List, [], ◌∷◌, if◌then◌else◌, All, clash,
  Bool-cases, inl, inr, ◌==◌, ==_iff,
}
use isales_telephony.UsbPorts.{UdevEvent, add, remove}
use isales_telephony.Fleet.{
  Status, offline, flagged, Device, is_idle, modify, with_status, seen, is_known_modem, at_port,
  change_one, on_event, is_unhealthy, flag_all, called,
}
use isales_telephony.Fleet.Selecting.{Listed}

-- No row of this id is idle.
abbrev pub IsBusy : ℕ → List Device → Type 0
IsBusy id rows = All (λ (d : Device). d.id ≡ id → is_idle d.status ≡ false) rows

-- A change that keeps the id and makes no device idle.
pub record Keeps (f : Device → Device) : Type 0 where
  pub same_id : (d : Device) → (f d).id ≡ d.id
  pub busy : (d : Device) → is_idle d.status ≡ false → is_idle (f d).status ≡ false

pub modify-IsBusy :
    (f : Device → Device) (id j : ℕ) (rows : List Device)
    → Keeps f
    → IsBusy id rows
    → IsBusy id (modify f j rows)
unfolding modify
modify-IsBusy f id j [] k h = tt
modify-IsBusy f id j (d ∷ rows) k (b, h) = elim (Bool-cases (d.id == j)) [
  | inl o ↦ rw o ((λ e. k.busy d (b (sym (k.same_id d) ∙ e))), modify-IsBusy f id j rows k h)
  | inr o ↦ rw o (b, modify-IsBusy f id j rows k h)
]

with_status-Keeps : (s : Status) → is_idle s ≡ false → Keeps (with_status s)
with_status-Keeps s h = record { same_id = λ d. refl; busy = λ d b. h }

pub seen-Keeps : (now : ℕ) → Keeps (seen now)
seen-Keeps now = record { same_id = λ d. refl; busy = λ d b. b }

pub called-Keeps : (now : ℕ) → Keeps (called now)
called-Keeps now = record { same_id = λ d. refl; busy = λ d b. refl }

change_one-IsBusy :
    (f : Device → Device) (id : ℕ) (found rows : List Device)
    → Keeps f
    → IsBusy id rows
    → IsBusy id (change_one f found rows)
change_one-IsBusy f id [] rows k h = h
change_one-IsBusy f id (d ∷ []) rows k h = modify-IsBusy f id d.id rows k h
change_one-IsBusy f id (d ∷ e ∷ more) rows k h = h

pub on_event-IsBusy :
    (id now : ℕ) (ev : UdevEvent) (rows : List Device)
    → IsBusy id rows
    → IsBusy id (on_event now ev rows)
unfolding on_event
on_event-IsBusy id now (remove node vid pid) rows h =
    change_one-IsBusy (with_status offline) id (at_port node rows) rows
      (with_status-Keeps offline refl) h
on_event-IsBusy id now (add node vid pid) rows h = elim (Bool-cases (is_known_modem vid pid)) [
  | inl o ↦ rw o (change_one-IsBusy (seen now) id (at_port node rows) rows (seen-Keeps now) h)
  | inr o ↦ rw o h
]

pub flag_all-IsBusy :
    (health_fn : ℕ → Option Bool) (id : ℕ) (more : List ℕ) (rows : List Device)
    → IsBusy id rows
    → IsBusy id (flag_all health_fn more rows)
unfolding flag_all
flag_all-IsBusy health_fn id [] rows h = h
flag_all-IsBusy health_fn id (k ∷ more) rows h =
    flag_all-IsBusy health_fn id more _ (flagged_or_not (is_unhealthy (health_fn k)))
  where
    flagged_or_not :
        (b : Bool) → IsBusy id (if b then modify (with_status flagged) k rows else rows)
    flagged_or_not true =
        modify-IsBusy (with_status flagged) id k rows (with_status-Keeps flagged refl) h
    flagged_or_not false = h

-- what a pick leaves is busy
pub called-IsBusy : (now id : ℕ) (rows : List Device) → IsBusy id (modify (called now) id rows)
unfolding modify
called-IsBusy now id [] = tt
called-IsBusy now id (d ∷ rows) = elim (Bool-cases (d.id == id)) [
  | inl o ↦ rw o ((λ e. refl), called-IsBusy now id rows)
  | inr o ↦
      rw o ((λ e. absurd (clash (d.id == id) ((==_iff d.id id).1 e) o)), called-IsBusy now id rows)
]

pub Listed-busy :
    (d : Device) (id : ℕ) (rows : List Device)
    → Listed d rows
    → IsBusy id rows
    → d.id ≡ id
    → is_idle d.status ≡ false
Listed-busy d id [] l h e = absurd l
Listed-busy d id (x ∷ rows) (inl s) h e =
    ap (λ (y : Device). is_idle y.status) s ∙ h.0 (ap (λ (y : Device). y.id) (sym s) ∙ e)
Listed-busy d id (x ∷ rows) (inr l) h e = Listed-busy d id rows l h.1 e
