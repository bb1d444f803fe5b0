-- ===== src/UsbPorts/Discovery.antt =====
-- The search of windows_serial.py for the serial ports of a modem.
use isales_telephony.Base.{
  clash, ℕ, ◌≡◌, refl, ap, sym, ◌∙◌, Bool, true, false, Option, none, some, List, [], ◌∷◌, ==_iff,
  map, keep, arith, Bool-cases, Option-cases, inl, inr, ◌⊎◌, Outcome, ok, err, All, contains, codes,
}
use isales_telephony.UsbPorts.{
  Port, same_option, is_audio_sibling, first_port, find_audio_serial_path, DiscoveryError,
  scan_failed, no_at_port, none_answered, no_audio_port, with_audio, with_at, with_candidates,
  is_at_port, discover_modem_serial_paths, audio_of,
}
use isales_telephony.UsbPorts.Tracking.{same_option-eq}

-- The port is on the list.
abbrev pub Listed : Port → List Port → Type 0
Listed p [] = ⊥
Listed p (q ∷ ports) = (p ≡ q) ⊎ Listed p ports

-- The port found is on the list and passes the test; where none is found, none passes.
abbrev First : (Port → Bool) → List Port → Option Port → Type 0
First test ports none = All (λ p. test p ≡ false) ports
First test ports (some p) = Listed p ports × (test p ≡ true)

first_port-First :
    (test : Port → Bool) (ports : List Port) → First test ports (first_port test ports)
unfolding first_port
first_port-First test [] = tt
first_port-First test (q ∷ ports) = elim (Bool-cases (test q)) [
  | inl o ↦ rw o (inl refl, o)
  | inr o ↦ rw o (later o (first_port test ports) (first_port-First test ports))
]
  where
    later :
        test q ≡ false
        → (found : Option Port) → First test ports found
        → First test (q ∷ ports) found
    later o none h = (o, h)
    later o (some p) (h, t) = (inr h, t)

Listed-keep :
    (test : Port → Bool) (p : Port) (ports : List Port)
    → Listed p (keep test ports)
    → Listed p ports × (test p ≡ true)
Listed-keep test p [] h = elim h [ ]
Listed-keep test p (q ∷ ports) h = elim (Bool-cases (test q)) [
  | inl o ↦ kept o (Listed-keep test p ports) (rw o at h)
  | inr o ↦ let rest = Listed-keep test p ports (rw o at h) in (inr rest.0, rest.1)
]
  where
    kept :
        test q ≡ true
        → (Listed p (keep test ports) → Listed p ports × (test p ≡ true))
        → Listed p (q ∷ keep test ports)
        → Listed p (q ∷ ports) × (test p ≡ true)
    kept o again (inl e) = (inl e, ap test e ∙ o)
    kept o again (inr l) = let rest = again l in (inr rest.0, rest.1)

-- The other port is the audio port of the same USB device.
pub record IsSibling (p q : Port) : Type 0 where
  pub vid : q.vid ≡ p.vid
  pub pid : q.pid ≡ p.pid
  pub usb_serial : ℕ
  pub own_serial : p.serial_number ≡ some usb_serial
  pub its_serial : q.serial_number ≡ some usb_serial
  pub audio : contains (codes "audio") q.description ≡ true

-- The port is listed and described as an AT port, and answered the prober.
pub record Answered (prober : ℕ → Bool) (ports : List Port) (p : Port) : Type 0 where
  pub listed : Listed p ports
  pub is_at : is_at_port p ≡ true
  pub answers : prober p.device ≡ true

-- What each result says of the ports.
abbrev pub IsDiscovered : (ℕ → Bool) → Option (List Port) → Outcome DiscoveryError (ℕ × ℕ) → Type 0
IsDiscovered prober none result = result ≡ err scan_failed
IsDiscovered prober (some ports) (err scan_failed) = ⊥
IsDiscovered prober (some ports) (err no_at_port) = keep is_at_port ports ≡ []
IsDiscovered prober (some ports) (err (none_answered nodes)) =
    (nodes ≡ map (λ (p : Port). p.device) (keep is_at_port ports))
    × All (λ (p : Port). prober p.device ≡ false) (keep is_at_port ports)
IsDiscovered prober (some ports) (err (no_audio_port at)) =
    (p : Port) × (p.device ≡ at) × Answered prober ports p × All (λ q. IsSibling p q → ⊥) ports
IsDiscovered prober (some ports) (ok (at, audio)) =
    (p : Port) × (p.device ≡ at)
    × Answered prober ports p
    × ((q : Port) × (q.device ≡ audio) × Listed q ports × IsSibling p q)

is_audio_sibling-IsSibling :
    (s : ℕ) (p q : Port)
    → p.serial_number ≡ some s
    → is_audio_sibling s p.vid p.pid q ≡ true
    → IsSibling p q
unfolding is_audio_sibling
is_audio_sibling-IsSibling s p q own h = record {
  vid = same_option-eq q.vid p.vid (ground arith);
  pid = same_option-eq q.pid p.pid (ground arith);
  usb_serial = s;
  own_serial = own;
  its_serial = same_option-eq q.serial_number (some s) (ground arith);
  audio = ground arith;
}

same_option_refl : (a : Option ℕ) → same_option a a ≡ true
unfolding same_option
same_option_refl none = refl
same_option_refl (some a) = (==_iff a a).1 refl

-- the converse
IsSibling-is_audio_sibling :
    (s : ℕ) (p q : Port)
    → p.serial_number ≡ some s
    → IsSibling p q
    → is_audio_sibling s p.vid p.pid q ≡ true
unfolding is_audio_sibling
IsSibling-is_audio_sibling s p q own h =
    rw
      (
        h.vid,
        h.pid,
        h.its_serial ∙ sym h.own_serial ∙ own,
        same_option_refl p.vid,
        same_option_refl p.pid,
        same_option_refl (some s),
      )
      h.audio

none≢some : (o : Option ℕ) (s : ℕ) → o ≡ none → o ≡ some s → ⊥
none≢some none s h k = ground arith
none≢some (some a) s h k = ground arith

-- no port passes the test, so none is a sibling
no_siblings :
    (s : ℕ) (p : Port) (ports : List Port)
    → p.serial_number ≡ some s
    → All (λ q. is_audio_sibling s p.vid p.pid q ≡ false) ports
    → All (λ q. IsSibling p q → ⊥) ports
no_siblings s p [] own h = tt
no_siblings s p (q ∷ ports) own (misses, h) = (
  λ sibling. let hits = IsSibling-is_audio_sibling s p q own sibling in clash _ hits misses,
  no_siblings s p ports own h,
)

-- a port without a serial number has no sibling
no_serial :
    (p : Port) (ports : List Port) → p.serial_number ≡ none → All (λ q. IsSibling p q → ⊥) ports
no_serial p [] own = tt
no_serial p (q ∷ ports) own =
    (λ sibling. none≢some _ _ own sibling.own_serial, no_serial p ports own)

with_audio-IsDiscovered :
    (prober : ℕ → Bool) (ports : List Port) (p : Port)
    → Answered prober ports p
    → IsDiscovered prober
        (some ports)
        (with_audio p.device (find_audio_serial_path p.serial_number p.vid p.pid (some ports)))
unfolding find_audio_serial_path
with_audio-IsDiscovered prober ports p h = elim (Option-cases p.serial_number) [
  | inl own ↦ rw own (p, refl, h, no_serial p ports own)
  | inr (s, own) ↦ rw own (
      siblings s own (first_port (is_audio_sibling s p.vid p.pid) ports)
        (first_port-First (is_audio_sibling s p.vid p.pid) ports))
]
  where
    siblings :
        (s : ℕ)
        → p.serial_number ≡ some s
        → (found : Option Port) → First (is_audio_sibling s p.vid p.pid) ports found
        → IsDiscovered prober (some ports) (with_audio p.device (audio_of found))
    siblings s own none misses = (p, refl, h, no_siblings s p ports own misses)
    siblings s own (some q) (listed, hits) =
        (p, refl, h, (q, refl, listed, is_audio_sibling-IsSibling s p q own hits))

with_candidates-IsDiscovered :
    (prober : ℕ → Bool) (ports candidates : List Port)
    → keep is_at_port ports ≡ candidates
    → IsDiscovered prober (some ports) (with_candidates prober ports candidates)
with_candidates-IsDiscovered prober ports [] e = e
with_candidates-IsDiscovered prober ports (c ∷ cs) e =
    answered (first_port (λ p. prober p.device) (c ∷ cs))
      (first_port-First (λ p. prober p.device) (c ∷ cs))
  where
    answered :
        (found : Option Port)
        → First (λ p. prober p.device) (c ∷ cs) found
        → IsDiscovered prober (some ports) (with_at ports (c ∷ cs) found)
    answered none misses = (rw e refl, rw e misses)
    answered (some p) (l, hits) =
        let at = Listed-keep is_at_port p ports (rw e l) in
        with_audio-IsDiscovered prober ports p
          (record { listed = at.0; is_at = at.1; answers = hits })

-- Whatever the scan lists and the prober answers, each result of the discovery tells the truth: the
-- two ports are listed, the AT port is described as one and answered the prober, and the audio port
-- is described as one and has its VID, PID and serial number; and each of the four errors is raised
-- only where its message holds.
discover_modem_serial_paths-IsDiscovered :
    (prober : ℕ → Bool) (scan : Option (List Port))
    → IsDiscovered prober scan (discover_modem_serial_paths prober scan)
unfolding discover_modem_serial_paths
discover_modem_serial_paths-IsDiscovered prober none = refl
discover_modem_serial_paths-IsDiscovered prober (some ports) =
    with_candidates-IsDiscovered prober ports (keep is_at_port ports) refl
