-- ===== src/Fleet/Reserving.antt =====
-- That select.py reserves what it picks, whatever the other writers of the devices do meanwhile.
use isales_telephony.Base.{
  ℕ, ◌≢◌, refl, sym, ◌∙◌, Bool, Option, none, some, List, [], ◌∷◌, All, subst, clash,
}
use isales_telephony.UsbPorts.{UdevEvent}
use isales_telephony.Fleet.{
  Device, is_idle, seen, device_heartbeat, on_event, ids, scan_devices, Joins, called,
  select_device,
}
use isales_telephony.Fleet.Selecting.{IsSelected, select_device-IsSelected, taken-eq}
use isales_telephony.Fleet.Busy.{
  IsBusy, modify-IsBusy, seen-Keeps, called-Keeps, on_event-IsBusy, flag_all-IsBusy, called-IsBusy,
  Listed-busy,
}

-- A transaction on the devices: a selection for a campaign, a heartbeat, a USB event or a scan.
pub data Transaction : Type 0 where
  select : ℕ → ℕ → Transaction
  heartbeat : ℕ → ℕ → Transaction
  usb_event : ℕ → UdevEvent → Transaction
  scan : (ℕ → Option Bool) → Transaction

abbrev picked : Option (ℕ × ℕ) → List ℕ → List ℕ
picked none more = more
picked (some (id, number)) more = id ∷ more

-- the devices picked by a sequence of transactions
unfoldable pub picks : Joins → List Transaction → List Device → List ℕ
picks j [] rows = []
picks j (select campaign now ∷ ts) rows =
    picked (select_device j campaign now rows).0 (picks j ts (select_device j campaign now rows).1)
picks j (heartbeat now id ∷ ts) rows = picks j ts (device_heartbeat now id rows)
picks j (usb_event now ev ∷ ts) rows = picks j ts (on_event now ev rows)
picks j (scan health_fn ∷ ts) rows = picks j ts (scan_devices health_fn rows)

selected-IsBusy :
    (j : Joins) (campaign now id : ℕ) (rows : List Device) (r : Option (ℕ × ℕ) × List Device)
    → IsSelected j campaign now rows r
    → IsBusy id rows
    → IsBusy id r.1
selected-IsBusy j campaign now id rows (none, after) (same, _) h = subst (IsBusy id) (sym same) h
selected-IsBusy j campaign now id rows (some (k, number), after) (_, _, _, _, is) h =
    subst (IsBusy id) (sym (taken-eq now k rows after is))
      (modify-IsBusy (called now) id k rows (called-Keeps now) h)

-- a busy device is not picked, now or later
picked-apart :
    (j : Joins) (campaign now id : ℕ) (rows : List Device) (r : Option (ℕ × ℕ) × List Device)
    (more : List ℕ)
    → IsSelected j campaign now rows r
    → IsBusy id rows
    → All (λ k. id ≢ k) more
    → All (λ k. id ≢ k) (picked r.0 more)
picked-apart j campaign now id rows (none, after) more s h a = a
picked-apart j campaign now id rows (some (k, number), after) more (d, same, found, _, _) h a = (
  λ e.
      clash (is_idle d.status) (rw (found.1.0) refl)
        (Listed-busy d id rows found.0 h (same ∙ sym e)),
  a,
)

scan-IsBusy :
    (health_fn : ℕ → Option Bool) (id : ℕ) (rows : List Device)
    → IsBusy id rows
    → IsBusy id (scan_devices health_fn rows)
unfolding scan_devices
scan-IsBusy health_fn id rows h = flag_all-IsBusy health_fn id (ids rows) rows h

heartbeat-IsBusy :
    (now k id : ℕ) (rows : List Device) → IsBusy id rows → IsBusy id (device_heartbeat now k rows)
unfolding device_heartbeat
heartbeat-IsBusy now k id rows h = modify-IsBusy (seen now) id k rows (seen-Keeps now) h

picks-apart :
    (j : Joins) (id : ℕ) (ts : List Transaction) (rows : List Device)
    → IsBusy id rows
    → All (λ k. id ≢ k) (picks j ts rows)
unfolding picks
picks-apart j id [] rows h = tt
picks-apart j id (heartbeat now k ∷ ts) rows h =
    picks-apart j id ts (device_heartbeat now k rows) (heartbeat-IsBusy now k id rows h)
picks-apart j id (usb_event now ev ∷ ts) rows h =
    picks-apart j id ts (on_event now ev rows) (on_event-IsBusy id now ev rows h)
picks-apart j id (scan health_fn ∷ ts) rows h =
    picks-apart j id ts (scan_devices health_fn rows) (scan-IsBusy health_fn id rows h)
picks-apart j id (select campaign now ∷ ts) rows h =
    let r = select_device j campaign now rows in
    let s = select_device-IsSelected j campaign now rows in
    picked-apart j campaign now id rows r (picks j ts r.1) s h
      (picks-apart j id ts r.1 (selected-IsBusy j campaign now id rows r s h))

-- No device stands twice.
abbrev pub AllDistinct : List ℕ → Type 0
AllDistinct [] = Unit
AllDistinct (id ∷ more) = All (λ k. id ≢ k) more × AllDistinct more

picked-AllDistinct :
    (j : Joins) (campaign now : ℕ) (rows : List Device) (r : Option (ℕ × ℕ) × List Device)
    (more : List ℕ)
    → IsSelected j campaign now rows r
    → ((id : ℕ) → IsBusy id r.1 → All (λ k. id ≢ k) more)
    → AllDistinct more
    → AllDistinct (picked r.0 more)
picked-AllDistinct j campaign now rows (none, after) more s apart a = a
picked-AllDistinct j campaign now rows (some (k, number), after) more (_, _, _, _, is) apart a =
    (apart k (subst (IsBusy k) (sym (taken-eq now k rows after is)) (called-IsBusy now k rows)), a)

-- In any sequence of selections for any campaigns, heartbeats, USB events and health scans, no device
-- is picked twice: a pick reserves it.
pub picks-AllDistinct :
    (j : Joins) (ts : List Transaction) (rows : List Device) → AllDistinct (picks j ts rows)
unfolding picks
picks-AllDistinct j [] rows = tt
picks-AllDistinct j (heartbeat now k ∷ ts) rows =
    picks-AllDistinct j ts (device_heartbeat now k rows)
picks-AllDistinct j (usb_event now ev ∷ ts) rows = picks-AllDistinct j ts (on_event now ev rows)
picks-AllDistinct j (scan health_fn ∷ ts) rows =
    picks-AllDistinct j ts (scan_devices health_fn rows)
picks-AllDistinct j (select campaign now ∷ ts) rows =
    let r = select_device j campaign now rows in
    picked-AllDistinct j campaign now rows r (picks j ts r.1)
      (select_device-IsSelected j campaign now rows) (λ id h. picks-apart j id ts r.1 h)
      (picks-AllDistinct j ts r.1)
