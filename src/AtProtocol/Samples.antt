-- ===== src/AtProtocol/Samples.antt =====
-- Lines of a modem as `AtClient` reads them.
use isales_telephony.Base.{◌≡◌, refl, List, [], ◌∷◌, Text, codes, none, some, ok, err, true, false}
use isales_telephony.AtProtocol.{
  Client, Response, no_carrier, new, classify, classify_urc, first_urc, dispatch_line, read_lines,
  send_begin, send_end, final, body, creg, timed_out,
}
use isales_telephony.AtProtocol.Replies.{late_reply, IsFed, read_lines-IsFed}

abbrev lines : List Text
lines = codes "+CSQ: 20,99" ∷ codes "NO CARRIER" ∷ codes "OK" ∷ codes "+CREG: 1" ∷ []

read_runs : read_lines new lines ≡ record new {
  queue = record { is_ok = true; lines = codes "+CSQ: 20,99" ∷ []; error = none } ∷ [];
  urcs =
      record { type = no_carrier; raw = codes "NO CARRIER" }
      ∷ record { type = creg; raw = codes "+CREG: 1" }
      ∷ [];
}
unfolding read_lines dispatch_line classify classify_urc first_urc new
read_runs = refl

error_runs :
    (classify (codes "+CME ERROR: 10")
      ≡ final false (some (record { final = codes "+CME ERROR"; detail = codes "10" })))
    × (classify (codes "NO CARRIERS") ≡ body)
unfolding classify classify_urc first_urc
error_runs = (refl, refl)

-- AT+CSQ is under way, and its body line has come
abbrev waiting : Client
waiting = record {
  queue = [];
  pending = codes "+CSQ: 20,99" ∷ [];
  urcs = [];
  written = codes "AT+CSQ" ∷ [];
  closed = false;
}

abbrev late : Response
late = record { is_ok = true; lines = codes "+CSQ: 20,99" ∷ []; error = none }

abbrev asked : Client
asked = record waiting {
  queue = late ∷ [];
  pending = [];
  written = codes "AT+CSQ" ∷ codes "ATH" ∷ [];
}

late_reply_example :
    (send_end waiting ≡ (err timed_out, waiting))
    × ((send_end (read_lines asked (codes "OK" ∷ []))).0 ≡ ok late)
late_reply_example = late_reply (codes "ATH") (codes "OK" ∷ []) waiting asked refl refl begun
  where
    begun : send_begin (codes "ATH") (read_lines waiting (codes "OK" ∷ [])) ≡ ok asked
    begun = unfold send_begin read_lines dispatch_line classify in refl

read_lines-IsFed_example : IsFed lines waiting (read_lines waiting lines)
read_lines-IsFed_example = read_lines-IsFed lines waiting
