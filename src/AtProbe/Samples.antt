-- ===== src/AtProbe/Samples.antt =====
-- A modem that echoes its commands and knows AT+ICCID only, and a device that does not answer.
use Prim.Native.String.{String}
use native.Mathlib.Omega.{arith}
use isales_telephony.Base.{ℕ, ◌≡◌, refl, Bool, false, some, List, [], ◌∷◌, ◌++◌, codes, Text, ok}
use isales_telephony.AtProbe.{
  Read, bytes, timeout, allow, stamp, send_and_collect, collect, decode, meaning,
  run_identity_command, identity_value, cleaned, joined, without_prefix,
}
use isales_telephony.AtProbe.Channel.{
  read_iccid, read_modem_identity, without_one, Attempt, new, in_whitelist, identify_modem_channel,
  identify_all,
}
use isales_telephony.AtProbe.Limiter.{AllApart, identify_all-AllApart}

abbrev crlf : Text
crlf = 13 ∷ 10 ∷ []

abbrev line : String → Read
line text = bytes (codes text ++ crlf)

abbrev identity_reads : List Read
identity_reads =
    line "AT+CGMI"
    ∷ line "SIMCOM INCORPORATED"
    ∷ line "OK"
    ∷ line " A7670 "
    ∷ line "OK"
    ∷ line ""
    ∷ line "861234"
    ∷ line "OK"
    ∷ line "+CME ERROR: 100"
    ∷ line "+ICCID: 8986"
    ∷ line "OK"
    ∷ []

-- the prefix of the reply to AT+ICCID stays on the value
identity_runs :
    (read_modem_identity (record { reads = identity_reads; written = [] })).0
    ≡ ok (record {
      manufacturer = codes "SIMCOM INCORPORATED";
      model = codes "A7670";
      imei = codes "861234";
      iccid = codes "+ICCID: 8986";
    })
unfolding read_modem_identity read_iccid run_identity_command send_and_collect collect decode
    meaning identity_value cleaned joined without_prefix
identity_runs = refl

abbrev nobody : Text → Text → Bool
nobody vid pid = false

abbrev attempt : ℕ → ℕ → List Read → Attempt
attempt node now answer = record {
  device_node = node;
  vendor_id = some (codes "1E0E");
  product_id = some (codes "9001");
  now = now;
  probe_line = ok answer;
  identity_line = ok identity_reads;
  finder = without_one;
}

abbrev attempts : List Attempt
attempts =
    attempt 3 0 (timeout ∷ [])
    ∷ attempt 4 10 (line "OK" ∷ [])
    ∷ attempt 3 30 (line "OK" ∷ [])
    ∷ attempt 3 60 (line "AT" ∷ line "OK" ∷ [])
    ∷ []

-- the call at 30 is not allowed to probe
attempts_run : (identify_all nobody attempts (new 60)).probes ≡ (3, 0) ∷ (4, 10) ∷ (3, 60) ∷ []
unfolding identify_all identify_modem_channel new in_whitelist allow stamp
attempts_run = refl

identify_all-AllApart_example : AllApart 60 (identify_all nobody attempts (new 60)).probes
identify_all-AllApart_example =
    identify_all-AllApart nobody 60 attempts
      (omega arith, (omega arith, (omega arith, (omega arith, tt))))
