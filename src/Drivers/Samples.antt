-- ===== src/Drivers/Samples.antt =====
-- Messages of failed dials, and answers of modems, as drivers.py reads them.
use isales_telephony.Base.{
  ℕ, Bool, ◌==◌, ◌≡◌, refl, Text, codes, [], ◌∷◌, ok, err, Option, none, some,
}
use isales_telephony.Drivers.Identity.{
  a7670, sim800c, quectel_uc20, get_driver, driver_for, detect_driver, parse_csq, strip_prefix,
  iccid, imei,
}
use isales_telephony.Drivers.{
  classify_dial_failure, first_cause, call_rejected, no_answer, network_out_of_order,
}
use isales_telephony.Drivers.Causes.{reached_cause, classify_dial_failure-eq}

classify_runs :
    (classify_dial_failure (codes "no answer") ≡ no_answer)
    × (classify_dial_failure (codes "+CEER: 17") ≡ call_rejected)
    × (classify_dial_failure (codes "timed out waiting for response to 'ATD13800000000;'")
        ≡ call_rejected)
    × (classify_dial_failure (codes "+CME ERROR: 30") ≡ network_out_of_order)
unfolding classify_dial_failure first_cause
classify_runs = (refl, refl, refl, refl)

abbrev timed_out : Text
timed_out = codes "timed out waiting for response to 'ATD13800000000;'"

classify_dial_failure-eq_example : classify_dial_failure timed_out ≡ call_rejected
unfolding reached_cause
classify_dial_failure-eq_example = classify_dial_failure-eq timed_out

abbrev spaces : ℕ → Bool
spaces c = c == 32

-- a number of one digit
abbrev digit : Text → Option ℕ
digit (d ∷ []) = some d
digit _ = none

identity_runs :
    (detect_driver (ok (codes "SIMCOM INCORPORATED" ∷ [])) (ok (codes "SIM800C" ∷ [])) [] ≡ sim800c)
    × (detect_driver (err []) (ok []) (codes "Quectel_UC20") ≡ quectel_uc20)
    × (detect_driver (ok (codes "Quectel" ∷ [])) (err []) [] ≡ a7670)
    × (parse_csq spaces digit 99 (codes "noise" ∷ codes "+CSQ: 7,99" ∷ []) ≡ 55)
    × (parse_csq spaces digit 99 (codes "+CSQ 7" ∷ []) ≡ 99)
    × (iccid spaces (codes "+CCID: \"8986\"" ∷ []) ≡ codes "8986")
    × (imei spaces (codes "8612" ∷ codes "+CGSN: 1" ∷ []) ≡ codes "8612")
unfolding detect_driver driver_for get_driver parse_csq strip_prefix iccid imei
identity_runs = (refl, refl, refl, refl, refl, refl, refl)
