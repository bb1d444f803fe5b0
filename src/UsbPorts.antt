-- ===== src/UsbPorts.antt =====
-- isales_telephony/modem_controller/platforms/windows_serial.py: the ports of the host, the watcher
-- that polls them, and the search for a modem's AT and audio ports. Device nodes and serial numbers
-- are numbers, as they are only compared; so are VID and PID, whose four hex digits say no more.
pub mod Tracking
pub mod Discovery
mod Samples
use isales_telephony.Base.{
  ℕ, Bool, true, false, Option, none, some, List, [], ◌∷◌, ◌++◌, ◌==◌, ◌&&◌, not, map, keep,
  if◌then◌else◌, Outcome, ok, err, Text, codes, contains, dict_get, dict_set,
}

-- a `ListPortInfo` of pyserial; `description` in lower case
pub record Port : Type 0 where
  pub device : ℕ
  pub vid : Option ℕ
  pub pid : Option ℕ
  pub serial_number : Option ℕ
  pub description : Text

-- `_PortIdentity`, but for its node, which is the key
pub record Identity : Type 0 where
  pub vid : Option ℕ
  pub pid : Option ℕ
  pub serial : Option ℕ

-- `==` on two values of which each may be None
unfoldable pub same_option : Option ℕ → Option ℕ → Bool
same_option none none = true
same_option none (some _) = false
same_option (some _) none = false
same_option (some a) (some b) = a == b

-- `==` on two identities under one node
unfoldable pub same_identity : Identity → Identity → Bool
same_identity a b =
    same_option a.vid b.vid && (same_option a.pid b.pid && same_option a.serial b.serial)

-- `_identity_from_port`
unfoldable pub identity_from_port : Port → Identity
identity_from_port p = record { vid = p.vid; pid = p.pid; serial = p.serial_number }

abbrev pub Scan : Type 0
Scan = List (ℕ × Identity)

abbrev pub is_some : Option ℕ → Bool
is_some none = false
is_some (some _) = true

unfoldable pub scan_from : List Port → Scan → Scan
scan_from [] out = out
scan_from (p ∷ ports) out =
    scan_from ports (if is_some p.vid then dict_set p.device (identity_from_port p) out else out)

-- `_scan_ports`, on what `comports()` lists: ports without a VID are left out
unfoldable pub scan_ports : List Port → Scan
scan_ports ports = scan_from ports []

-- `UdevEvent`
pub data UdevEvent : Type 0 where
  add remove : ℕ → Option ℕ → Option ℕ → UdevEvent

-- is the entry missing in the other scan, or another one there?
abbrev pub differs : Identity → Option Identity → Bool
differs i none = true
differs i (some j) = not (same_identity j i)

unfoldable pub removed : Scan → Scan → List UdevEvent
removed [] curr = []
removed ((node, i) ∷ prev) curr =
    let rest = removed prev curr in
    if differs i (dict_get node curr) then remove node i.vid i.pid ∷ rest else rest

unfoldable pub added : Scan → Scan → List UdevEvent
added prev [] = []
added prev ((node, i) ∷ curr) =
    let rest = added prev curr in
    if differs i (dict_get node prev) then add node i.vid i.pid ∷ rest else rest

-- `_diff_scans`
unfoldable pub diff_scans : Scan → Scan → List UdevEvent
diff_scans prev curr = removed prev curr ++ added prev curr

-- The watcher: the last scan, and the events put on its queue.
pub record Watcher : Type 0 where
  pub prev : Scan
  pub queue : List UdevEvent

abbrev seeded : Option (List Port) → Scan
seeded none = []
seeded (some ports) = scan_ports ports

-- `_poll_loop` up to its loop; `none` where the scanner raises
unfoldable pub poll_seed : Option (List Port) → Watcher
poll_seed result = record { prev = seeded result; queue = [] }

-- one turn of `_poll_loop`: a scan that raises is tried again
unfoldable pub poll : Watcher → Option (List Port) → Watcher
poll w none = w
poll w (some ports) =
    let curr = scan_ports ports in record { prev = curr; queue = w.queue ++ diff_scans w.prev curr }

unfoldable pub poll_loop : Watcher → List (Option (List Port)) → Watcher
poll_loop w [] = w
poll_loop w (result ∷ results) = poll_loop (poll w result) results

-- the tests of `find_audio_serial_path` on one port
unfoldable pub is_audio_sibling : ℕ → Option ℕ → Option ℕ → Port → Bool
is_audio_sibling usb_serial vid pid p =
    same_option p.vid vid
    && (same_option p.pid pid
        && (same_option p.serial_number (some usb_serial)
            && contains (codes "audio") p.description))

-- `next((p for p in ports if test(p)), None)`
unfoldable pub first_port : (Port → Bool) → List Port → Option Port
first_port test [] = none
first_port test (p ∷ ports) = let rest = first_port test ports in if test p then some p else rest

-- an empty serial number counts as none
abbrev audio_of : Option Port → Option ℕ
audio_of none = none
audio_of (some p) = some p.device

-- `find_audio_serial_path`; the scan is `none` where it raises
unfoldable pub find_audio_serial_path :
    Option ℕ → Option ℕ → Option ℕ → Option (List Port) → Option ℕ
find_audio_serial_path none vid pid scan = none
find_audio_serial_path (some usb_serial) vid pid none = none
find_audio_serial_path (some usb_serial) vid pid (some ports) =
    audio_of (first_port (is_audio_sibling usb_serial vid pid) ports)

-- `ModemDiscoveryError`, by its four messages
pub data DiscoveryError : Type 0 where
  scan_failed no_at_port : DiscoveryError
  none_answered : List ℕ → DiscoveryError
  no_audio_port : ℕ → DiscoveryError

abbrev pub with_audio : ℕ → Option ℕ → Outcome DiscoveryError (ℕ × ℕ)
with_audio at none = err (no_audio_port at)
with_audio at (some audio) = ok (at, audio)

abbrev pub with_at : List Port → List Port → Option Port → Outcome DiscoveryError (ℕ × ℕ)
with_at ports candidates none = err (none_answered (map (λ (p : Port). p.device) candidates))
with_at ports candidates (some p) =
    with_audio p.device (find_audio_serial_path p.serial_number p.vid p.pid (some ports))

abbrev pub with_candidates : (ℕ → Bool) → List Port → List Port → Outcome DiscoveryError (ℕ × ℕ)
with_candidates at_prober ports [] = err no_at_port
with_candidates at_prober ports (c ∷ cs) =
    with_at ports (c ∷ cs) (first_port (λ (p : Port). at_prober p.device) (c ∷ cs))

abbrev pub is_at_port : Port → Bool
is_at_port p = contains (codes "at port") p.description

-- `discover_modem_serial_paths`
unfoldable pub discover_modem_serial_paths :
    (ℕ → Bool) → Option (List Port) → Outcome DiscoveryError (ℕ × ℕ)
discover_modem_serial_paths at_prober none = err scan_failed
discover_modem_serial_paths at_prober (some ports) =
    with_candidates at_prober ports (keep is_at_port ports)
