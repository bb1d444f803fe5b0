-- ===== src/AtProbe/Channel.antt =====
-- at_probe.py: the identity of a modem, and the decision on one device node.
use isales_telephony.Base.{
  ℕ, Bool, true, false, Option, none, some, List, [], ◌∷◌, ◌++◌, ◌&&◌, leb, ◌+◌, map, if◌then◌else◌,
  Outcome, ok, err, Text, codes, prefix_of,
}
use isales_telephony.AtProbe.{
  Prober, allow, stamp, Line, Connection, probe_at_channel, ModemInitFailed, failed,
  run_identity_command,
}

-- `ModemIdentity`
pub record ModemIdentity : Type 0 where
  pub manufacturer : Text
  pub model : Text
  pub imei : Text
  pub iccid : Text

module _ {A B : Type 0} where
  -- the next statement, where the last one did not raise
  abbrev pub and_then :
      Outcome ModemInitFailed A × Line
      → (A → Line → Outcome ModemInitFailed B × Line)
      → Outcome ModemInitFailed B × Line
  and_then (err e, line) next = (err e, line)
  and_then (ok a, line) next = next a line

abbrev pub both_failed :
    ModemInitFailed → Outcome ModemInitFailed Text × Line → Outcome ModemInitFailed Text × Line
both_failed primary (ok iccid, line) = (ok iccid, line)
both_failed primary (err fallback, line) = (
  failed (codes "CCID")
      (codes "AT+CCID=" ++ primary.detail ++ codes "; AT+ICCID=" ++ fallback.detail),
  line,
)

abbrev pub or_fallback : Outcome ModemInitFailed Text × Line → Outcome ModemInitFailed Text × Line
or_fallback (ok iccid, line) = (ok iccid, line)
or_fallback (err primary, line) =
    if prefix_of (codes "timeout") primary.detail
    then (err primary, line)
    else both_failed primary (run_identity_command (codes "AT+ICCID") (codes "CCID") line)

-- AT+CCID, with AT+ICCID as its fallback
unfoldable pub read_iccid : Line → Outcome ModemInitFailed Text × Line
read_iccid line = or_fallback (run_identity_command (codes "AT+CCID") (codes "CCID") line)

-- `read_modem_identity` on an open line
unfoldable pub read_modem_identity : Line → Outcome ModemInitFailed ModemIdentity × Line
read_modem_identity line =
    and_then (run_identity_command (codes "AT+CGMI") (codes "CGMI") line) (λ manufacturer l.
      and_then (run_identity_command (codes "AT+CGMM") (codes "CGMM") l) (λ model l.
        and_then (run_identity_command (codes "AT+CGSN") (codes "CGSN") l) (λ imei l.
          and_then (read_iccid l) (λ iccid l. (
            ok (record { manufacturer = manufacturer; model = model; imei = imei; iccid = iccid }),
            l,
          )))))

pub data SkippedReason : Type 0 where
  rate_limited probe_no_ok : SkippedReason

-- `IdentifyResult`
pub record IdentifyResult : Type 0 where
  pub is_at_channel : Bool
  pub identity : Option ModemIdentity
  pub init_failure : Option ModemInitFailed
  pub skipped_reason : Option SkippedReason
  pub audio_serial_path : Option ℕ

-- `audio_sibling_finder`: None, or what its call gives
pub data Finder : Type 0 where
  without_one raising : Finder
  finds : Option ℕ → Finder

-- One call of `identify_modem_channel`: its arguments, the time, and what the port does where it is
-- opened for the probe and for the identity.
pub record Attempt : Type 0 where
  pub device_node : ℕ
  pub vendor_id : Option Text
  pub product_id : Option Text
  pub now : ℕ
  pub probe_line : Connection
  pub identity_line : Connection
  pub finder : Finder

-- The prober, and the log of the node and the time of each probe.
pub record Session : Type 0 where
  pub prober : Prober
  pub probes : List (ℕ × ℕ)

-- a session that starts with a new `RateLimitedProber`
unfoldable pub new : ℕ → Session
new interval = record { prober = record { interval = interval; last_probed = [] }; probes = [] }

abbrev pub lower : ℕ → ℕ
lower c = if leb 65 c && leb c 90 then c + 32 else c

-- `(vid, pid) in whitelist`, where None and the empty text are in no pair
unfoldable pub in_whitelist : (Text → Text → Bool) → Option Text → Option Text → Bool
in_whitelist whitelist (some (v ∷ vid)) (some (p ∷ pid)) =
    whitelist (map lower (v ∷ vid)) (map lower (p ∷ pid))
in_whitelist whitelist (some (v ∷ vid)) (some []) = false
in_whitelist whitelist (some (v ∷ vid)) none = false
in_whitelist whitelist (some []) product_id = false
in_whitelist whitelist none product_id = false

abbrev pub skip : SkippedReason → IdentifyResult
skip reason = record {
  is_at_channel = false;
  identity = none;
  init_failure = none;
  skipped_reason = some reason;
  audio_serial_path = none;
}

abbrev pub init_failed : ModemInitFailed → IdentifyResult
init_failed e = record {
  is_at_channel = true;
  identity = none;
  init_failure = some e;
  skipped_reason = none;
  audio_serial_path = none;
}

unfoldable pub found_audio : Finder → Option ℕ
found_audio without_one = none
found_audio raising = none
found_audio (finds path) = path

abbrev pub with_identity : Finder → Outcome ModemInitFailed ModemIdentity × Line → IdentifyResult
with_identity finder (err e, line) = init_failed e
with_identity finder (ok identity, line) = record {
  is_at_channel = true;
  identity = some identity;
  init_failure = none;
  skipped_reason = none;
  audio_serial_path = found_audio finder;
}

-- `identify_modem_channel` from the identity on
unfoldable pub identify : Finder → Connection → IdentifyResult
identify finder (err e) =
    init_failed (record { stage = codes "open"; detail = codes "io_error: " ++ e })
identify finder (ok reads) =
    with_identity finder (read_modem_identity (record { reads = reads; written = [] }))

abbrev pub stamped : Attempt → Session → Session
stamped a s = record {
  prober = stamp a.now a.device_node s.prober;
  probes = s.probes ++ (a.device_node, a.now) ∷ [];
}

-- `identify_modem_channel`
unfoldable pub identify_modem_channel :
    (Text → Text → Bool) → Attempt → Session → IdentifyResult × Session
identify_modem_channel whitelist a s =
    if in_whitelist whitelist a.vendor_id a.product_id
    then (identify a.finder a.identity_line, s)
    else if allow a.now a.device_node s.prober
    then (
      if probe_at_channel a.probe_line then identify a.finder a.identity_line else skip probe_no_ok,
      stamped a s,
    )
    else (skip rate_limited, s)

-- the calls of one session, one after the other
unfoldable pub identify_all : (Text → Text → Bool) → List Attempt → Session → Session
identify_all whitelist [] s = s
identify_all whitelist (a ∷ attempts) s =
    identify_all whitelist attempts (identify_modem_channel whitelist a s).1
