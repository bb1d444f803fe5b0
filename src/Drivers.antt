-- ===== src/Drivers.antt =====
-- isales_telephony/modem_controller/drivers.py: the modem drivers, and the cause of a failed dial.
pub mod Causes
pub mod Identity
mod Samples
use isales_telephony.Base.{
  ℕ, Bool, true, false, Option, none, some, List, [], ◌∷◌, ◌++◌, map, ◌&&◌, if◌then◌else◌, Outcome,
  ok, err, Text, codes, text_eq, contains, to_upper, join,
}
use Prim.Native.String.{String}

-- The values of `HANGUP_CAUSE_MAP`.
pub data Cause : Type 0 where
  user_hangup user_busy no_answer network_out_of_order call_rejected normal_clearing : Cause
  temporary_failure : Cause

-- `HANGUP_CAUSE_MAP`, in the order in which it is written
abbrev pub hangup_cause_map : List (Text × Cause)
hangup_cause_map =
    (codes "NO CARRIER", user_hangup)
    ∷ (codes "BUSY", user_busy)
    ∷ (codes "NO ANSWER", no_answer)
    ∷ (codes "NO DIALTONE", network_out_of_order)
    ∷ (codes "1", call_rejected)
    ∷ (codes "16", normal_clearing)
    ∷ (codes "17", user_busy)
    ∷ (codes "18", no_answer)
    ∷ (codes "19", no_answer)
    ∷ (codes "27", network_out_of_order)
    ∷ (codes "31", network_out_of_order)
    ∷ (codes "34", network_out_of_order)
    ∷ (codes "38", network_out_of_order)
    ∷ (codes "41", temporary_failure)
    ∷ []

unfoldable pub first_cause : Text → List (Text × Cause) → Cause
first_cause upper [] = network_out_of_order
first_cause upper ((token, cause) ∷ rest) =
    let later = first_cause upper rest in if contains token upper then cause else later

-- `_classify_dial_failure`
unfoldable pub classify_dial_failure : Text → Cause
classify_dial_failure message = first_cause (map to_upper message) hangup_cause_map

-- `DialResult`
pub record DialResult : Type 0 where
  pub connected : Bool
  pub hangup_cause : Option Cause

-- `A7670Driver.dial`; what `send` of `ATD<phone>;` did is the argument: `ok` of the response, or
-- the text of the exception
unfoldable pub dial : Outcome Text Bool → DialResult
dial (err message) = record {
  connected = false;
  hangup_cause = some (classify_dial_failure message);
}
dial (ok is_ok) = record { connected = is_ok; hangup_cause = none }
