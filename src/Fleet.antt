-- ===== src/Fleet.antt =====
-- The devices of the database and what changes them: isales_telephony/api/routers/select.py and
-- devices.py, api/health_monitor.py, modem_controller/udev_watcher.py and the status writes of
-- modem_controller/handlers.py. Each transaction is one step. Times, device nodes and phone numbers
-- are numbers; so are VID and PID. Campaigns and SIM cards are parameters of a selection.
pub mod Selecting
pub mod Busy
pub mod Reserving
mod Samples
use isales_telephony.Base.{
  ℕ, zero, suc, ◌+◌, Bool, true, false, Option, none, some, List, [], ◌∷◌, ◌++◌, ltb, ◌==◌, ◌&&◌,
  ◌||◌, not, if◌then◌else◌, keep, length,
}
use isales_telephony.UsbPorts.{UdevEvent, add, remove, same_option}

-- `DeviceStatus`
pub data Status : Type 0 where
  unknown idle dialing in_call offline flagged : Status

-- a row of the table `device`, its columns that this code reads or writes
pub record Device : Type 0 where
  pub id : ℕ
  pub usb_port : Option ℕ
  pub status : Status
  pub last_seen_at : Option ℕ
  pub last_call_at : Option ℕ

abbrev pub is_idle : Status → Bool
is_idle idle = true
is_idle unknown = false
is_idle dialing = false
is_idle in_call = false
is_idle offline = false
is_idle flagged = false

-- the columns of the row of this id are changed
unfoldable pub modify : (Device → Device) → ℕ → List Device → List Device
modify f id [] = []
modify f id (d ∷ rows) = let rest = modify f id rows in if d.id == id then f d ∷ rest else d ∷ rest

abbrev pub with_status : Status → Device → Device
with_status s d = record d { status = s }

abbrev pub seen : ℕ → Device → Device
seen now d = record d { last_seen_at = some now }

unfoldable pub has_id : ℕ → List Device → Bool
has_id id [] = false
has_id id (d ∷ rows) = d.id == id || has_id id rows

-- `device_heartbeat`; a missing device is a 404, and nothing changes
unfoldable pub device_heartbeat : ℕ → ℕ → List Device → List Device
device_heartbeat now id rows = modify (seen now) id rows

-- `_set_device_status` of handlers.py
unfoldable pub set_device_status : Option ℕ → Status → List Device → List Device
set_device_status none s rows = rows
set_device_status (some id) s rows = modify (with_status s) id rows

-- `GSM_MODEM_WHITELIST`
abbrev pub gsm_modem_whitelist : List (ℕ × ℕ)
gsm_modem_whitelist =
    (0x2c7c, 0x0125)
    ∷ (0x1a86, 0x55d3)
    ∷ (0x12d1, 0x1506)
    ∷ (0x12d1, 0x14db)
    ∷ (0x12d1, 0x1c1e)
    ∷ (0x19d2, 0x0117)
    ∷ (0x19d2, 0x1405)
    ∷ (0x1e0e, 0x9001)
    ∷ (0x2c7c, 0x0121)
    ∷ (0x2c7c, 0x0306)
    ∷ (0x1546, 0x1146)
    ∷ []

unfoldable pub is_listed : ℕ → ℕ → List (ℕ × ℕ) → Bool
is_listed vid pid [] = false
is_listed vid pid ((v, p) ∷ rows) = (v == vid && p == pid) || is_listed vid pid rows

-- `_is_known_modem`
unfoldable pub is_known_modem : Option ℕ → Option ℕ → Bool
is_known_modem none pid = false
is_known_modem (some vid) none = false
is_known_modem (some vid) (some pid) = is_listed vid pid gsm_modem_whitelist

abbrev pub at_port : ℕ → List Device → List Device
at_port node rows = keep (λ (d : Device). same_option d.usb_port (some node)) rows

-- `scalar_one_or_none`, then the change: two rows raise, which `consume_events` logs
abbrev pub change_one : (Device → Device) → List Device → List Device → List Device
change_one f [] rows = rows
change_one f (d ∷ []) rows = modify f d.id rows
change_one f (d ∷ e ∷ more) rows = rows

-- `_on_event`, with `_touch_last_seen` and `_mark_offline`
unfoldable pub on_event : ℕ → UdevEvent → List Device → List Device
on_event now (add node vid pid) rows =
    if is_known_modem vid pid then change_one (seen now) (at_port node rows) rows else rows
on_event now (remove node vid pid) rows = change_one (with_status offline) (at_port node rows) rows

-- `consume_events`
unfoldable pub consume_events : ℕ → List UdevEvent → List Device → List Device
consume_events now [] rows = rows
consume_events now (ev ∷ events) rows = consume_events now events (on_event now ev rows)

-- What `health_fn` gives for a device: an answer, or an exception.
abbrev pub is_unhealthy : Option Bool → Bool
is_unhealthy none = false
is_unhealthy (some healthy) = not healthy

abbrev pub ids : List Device → List ℕ
ids [] = []
ids (d ∷ rows) = d.id ∷ ids rows

unfoldable pub flag_all : (ℕ → Option Bool) → List ℕ → List Device → List Device
flag_all health_fn [] rows = rows
flag_all health_fn (id ∷ more) rows =
    flag_all health_fn more
      (if is_unhealthy (health_fn id) then modify (with_status flagged) id rows else rows)

-- `scan_devices`
unfoldable pub scan_devices : (ℕ → Option Bool) → List Device → List Device
scan_devices health_fn rows = flag_all health_fn (ids rows) rows

-- strictly earlier in `last_call_at ASC NULLS FIRST`
unfoldable pub earlier : Option ℕ → Option ℕ → Bool
earlier none none = false
earlier none (some b) = true
earlier (some a) none = false
earlier (some a) (some b) = ltb a b

-- The joins of the query: is the device in the campaign, and the SIM card of its active binding, of
-- which the phone number may be missing.
pub record Joins : Type 0 where
  pub in_campaign : ℕ → ℕ → Bool
  pub binding : ℕ → Option (Option ℕ)

abbrev pub is_bound : Option (Option ℕ) → Bool
is_bound none = false
is_bound (some _) = true

unfoldable pub eligible : Joins → ℕ → Device → Bool
eligible j campaign d =
    is_idle d.status && (j.in_campaign campaign d.id && is_bound (j.binding d.id))

abbrev pub better : Device → Option Device → Option Device
better d none = some d
better d (some e) = if earlier e.last_call_at d.last_call_at then some e else some d

-- the first row in that order, and of equal ones the first of the table
unfoldable pub longest_idle : Joins → ℕ → List Device → Option Device
longest_idle j campaign [] = none
longest_idle j campaign (d ∷ rows) =
    let rest = longest_idle j campaign rows in if eligible j campaign d then better d rest else rest

abbrev pub called : ℕ → Device → Device
called now d = record d { status = dialing; last_call_at = some now }

abbrev pub reserve : ℕ → List Device → Device → Option (Option ℕ) → Option (ℕ × ℕ) × List Device
reserve now rows d none = (none, rows)
reserve now rows d (some none) = (none, rows)
reserve now rows d (some (some number)) = (some (d.id, number), modify (called now) d.id rows)

abbrev pub select_row : Joins → ℕ → List Device → Option Device → Option (ℕ × ℕ) × List Device
select_row j now rows none = (none, rows)
select_row j now rows (some d) = reserve now rows d (j.binding d.id)

-- `select_device`: the device and its number, or none where it answers 503
unfoldable pub select_device : Joins → ℕ → ℕ → List Device → Option (ℕ × ℕ) × List Device
select_device j campaign now rows = select_row j now rows (longest_idle j campaign rows)
