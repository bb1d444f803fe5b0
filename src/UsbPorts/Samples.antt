-- ===== src/UsbPorts/Samples.antt =====
-- A host with one modem that is plugged in, and another one in its place.
use isales_telephony.Base.{ℕ, ◌≡◌, refl, Option, none, some, List, [], ◌∷◌, codes, ok, ◌==◌, Text}
use isales_telephony.UsbPorts.{
  Port, add, remove, scan_ports, scan_from, same_identity, same_option, identity_from_port, removed,
  added, diff_scans, poll, poll_loop, poll_seed, discover_modem_serial_paths,
  find_audio_serial_path, first_port, is_audio_sibling,
}

abbrev port : ℕ → ℕ → Text → Port
port node pid description = record {
  device = node;
  vid = some 7694;
  pid = some pid;
  serial_number = some 42;
  description = description;
}

abbrev at_port : Port
at_port = port 3 36865 (codes "simtech hs-usb at port 9001")

abbrev audio_port : Port
audio_port = port 4 36865 (codes "simtech hs-usb audio 9001")

abbrev scans : List (Option (List Port))
scans = some (at_port ∷ audio_port ∷ []) ∷ none ∷ some (port 3 8 [] ∷ []) ∷ []

events_run :
    (poll_loop (poll_seed none) scans).queue
    ≡ add 3 (some 7694) (some 36865)
      ∷ add 4 (some 7694) (some 36865)
      ∷ remove 3 (some 7694) (some 36865)
      ∷ remove 4 (some 7694) (some 36865)
      ∷ add 3 (some 7694) (some 8)
      ∷ []
unfolding poll_loop poll poll_seed scan_ports scan_from identity_from_port diff_scans removed added
    same_identity same_option
events_run = refl

discovery_runs :
    discover_modem_serial_paths (λ node. node == 3) (some (at_port ∷ audio_port ∷ [])) ≡ ok (3, 4)
unfolding discover_modem_serial_paths find_audio_serial_path first_port is_audio_sibling same_option
discovery_runs = refl
