-- ===== src/UsbPorts/Tracking.antt =====
-- What a consumer of the events of windows_serial.py knows of the ports.
use isales_telephony.Base.{
  ℕ, ◌≡◌, refl, ap, Bool, true, false, Option, none, some, List, [], ◌∷◌, ==_iff, arith,
  if◌then◌else◌, dict_get, dict_set, dict_pop, IsDict,
}
use isales_telephony.UsbPorts.{
  Identity, Scan, same_option, UdevEvent, add, remove, differs, Watcher,
}

-- What an event tells of a port.
abbrev Ids : Type 0
Ids = Option ℕ × Option ℕ

-- A consumer that keeps the ports that it was told of.
unfoldable pub follow : List (ℕ × Ids) → List UdevEvent → List (ℕ × Ids)
follow view [] = view
follow view (add node vid pid ∷ events) = follow (dict_set node (vid, pid) view) events
follow view (remove node _ _ ∷ events) = follow (dict_pop node view) events

abbrev ids_of : Option Identity → Option Ids
ids_of none = none
ids_of (some i) = some (i.vid, i.pid)

-- The consumer knows the ports of the scan, each with its VID and PID, and no others.
abbrev Knows : List (ℕ × Ids) → Scan → Type 0
Knows view scan = (node : ℕ) → dict_get node view ≡ ids_of (dict_get node scan)

abbrev lost : Option Identity → Option Identity → Bool
lost none c = false
lost (some i) c = differs i c

abbrev gained : Option Identity → Option Identity → Option Ids → Option Ids
gained none p v = v
gained (some i) p v = if differs i p then some (i.vid, i.pid) else v

pub same_option-eq : (a b : Option ℕ) → same_option a b ≡ true → a ≡ b
unfolding same_option
same_option-eq none none h = refl
same_option-eq none (some b) h = ground arith
same_option-eq (some a) none h = ground arith
same_option-eq (some a) (some b) h = ap some ((==_iff a b).0 h)

-- The queue of the watcher tells, from what was known at its start, just the last scan.
pub record IsTracked (start : List (ℕ × Ids)) (w : Watcher) : Type 0 where
  pub dict : IsDict w.prev
  pub knows : Knows (follow start w.queue) w.prev
