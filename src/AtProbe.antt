-- ===== src/AtProbe.antt =====
-- isales_telephony/modem_controller/at_probe.py: is a serial port an AT channel, and which modem is
-- behind it? What the serial line delivers, and the clock, are arguments. Device nodes are numbers,
-- as they are only compared; text is the list of its code points.
pub mod Channel
pub mod Limiter
pub mod Deciding
mod Samples
use isales_telephony.Base.{
  strip, is_blank, ℕ, Bool, true, false, Option, none, some, List, [], ◌∷◌, ◌++◌, ◌+◌, ltb, leb,
  ◌==◌, ◌&&◌, ◌||◌, not, map, length, drop, if◌then◌else◌, Outcome, ok, err, Text, codes, text_eq,
  prefix_of, lstrip, dict_get, dict_set, dict_pop,
}

-- `RateLimitedProber`; the clock is read by the caller
pub record Prober : Type 0 where
  pub interval : ℕ
  pub last_probed : List (ℕ × ℕ)

abbrev pub elapsed : ℕ → ℕ → Option ℕ → Bool
elapsed interval now none = true
elapsed interval now (some last) = leb (last + interval) now

-- `RateLimitedProber.allow`
unfoldable pub allow : ℕ → ℕ → Prober → Bool
allow now device_node p = elapsed p.interval now (dict_get device_node p.last_probed)

-- `RateLimitedProber.record`
unfoldable pub stamp : ℕ → ℕ → Prober → Prober
stamp now device_node p = record p { last_probed = dict_set device_node now p.last_probed }

-- `RateLimitedProber.forget`
unfoldable pub forget : ℕ → Prober → Prober
forget device_node p = record p { last_probed = dict_pop device_node p.last_probed }

-- What `reader.readline()` gives: the bytes of a line, no byte, no answer in time, or an OSError.
pub data Read : Type 0 where
  bytes : List ℕ → Read
  eof timeout : Read
  os_error : Text → Read

-- An open serial line: what it will deliver, and the commands written to it.
pub record Line : Type 0 where
  pub reads : List Read
  pub written : List Text

-- `raw.decode("ascii", errors="replace")`
unfoldable pub decode : List ℕ → Text
decode raw = map (λ b. if ltb b 128 then b else 65533) raw

-- what `str.strip()` removes, of the characters that `decode` gives
abbrev pub is_space : ℕ → Bool
is_space c = (leb 9 c && leb c 13) || (leb 28 c && leb c 32)

abbrev pub is_newline : ℕ → Bool
is_newline c = c == 13 || c == 10

-- What one line means to `_send_and_collect`, and what is done on it.
pub data Meaning : Type 0 where
  skipped content final_ok final_error : Meaning

abbrev no_payload : List Text → Bool
no_payload [] = true
no_payload (_ ∷ _) = false

unfoldable pub meaning : Text → List Text → Text → Meaning
meaning command payload line =
    if is_blank line
    then skipped
    else if text_eq line command && no_payload payload
    then skipped
    else if text_eq line (codes "OK")
    then final_ok
    else if text_eq line (codes "ERROR")
    then final_error
    else if prefix_of (codes "+CME ERROR") line || prefix_of (codes "+CMS ERROR") line
    then final_error
    else content

-- The result of `_send_and_collect`: its three values, or the OSError.
pub data Answer : Type 0 where
  answered : Bool → List Text → Option Text → Answer
  raised : Text → Answer

abbrev pub on_line :
    (List Text → Answer × List Read) → List Text → List Read → Text → Meaning → Answer × List Read
on_line again payload reads line skipped = again payload
on_line again payload reads line content = again (payload ++ line ∷ [])
on_line again payload reads line final_ok = (answered true payload none, reads)
on_line again payload reads line final_error = (answered false payload (some line), reads)

abbrev pub text_of : List ℕ → Text
text_of raw = strip is_space (strip is_newline (decode raw))

-- the loop of `_send_and_collect`
unfoldable pub collect : Text → List Text → List Read → Answer × List Read
collect command payload [] = (answered false payload none, [])
collect command payload (timeout ∷ reads) = (answered false payload none, reads)
collect command payload (eof ∷ reads) = (answered false payload none, reads)
collect command payload (os_error e ∷ reads) = (raised e, reads)
collect command payload (bytes raw ∷ reads) =
    on_line (λ more. collect command more reads) payload reads (text_of raw)
      (meaning command payload (text_of raw))

abbrev after_collect : Text → Line → Answer × List Read → Answer × Line
after_collect command line (a, rest) =
    (a, record { reads = rest; written = line.written ++ command ∷ [] })

-- `_send_and_collect`; a command has no blank at its ends
unfoldable pub send_and_collect : Text → Line → Answer × Line
send_and_collect command line = after_collect command line (collect command [] line.reads)

-- What opening the port gives: an exception, or the line.
abbrev pub Connection : Type 0
Connection = Outcome Text (List Read)

abbrev open_line : List Read → Line
open_line reads = record { reads = reads; written = [] }

abbrev pub is_ok : Answer → Bool
is_ok (answered good payload detail) = good
is_ok (raised e) = false

-- `probe_at_channel`
unfoldable pub probe_at_channel : Connection → Bool
probe_at_channel (err e) = false
probe_at_channel (ok reads) = is_ok (send_and_collect (codes "AT") (open_line reads)).0

-- `ModemInitFailedError`
pub record ModemInitFailed : Type 0 where
  pub stage : Text
  pub detail : Text

abbrev pub failed : {A : Type 0} → Text → Text → Outcome ModemInitFailed A
failed stage detail = err (record { stage = stage; detail = detail })

-- `[line.strip() for line in payload if line.strip()]`
unfoldable pub cleaned : List Text → List Text
cleaned [] = []
cleaned (line ∷ lines) =
    let rest = cleaned lines in
    if is_blank (strip is_space line) then rest else strip is_space line ∷ rest

-- `" ".join(…)`
unfoldable pub joined : List Text → Text
joined [] = []
joined (a ∷ []) = a
joined (a ∷ b ∷ more) = a ++ 32 ∷ joined (b ∷ more)

unfoldable pub without_prefix : Text → Text → Text
without_prefix prefix value =
    if prefix_of prefix value then strip is_space (drop (length prefix) value) else value

abbrev of_lines : Text → List Text → Outcome ModemInitFailed Text
of_lines stage [] = failed stage (codes "empty_response")
of_lines stage (a ∷ more) = ok (without_prefix (43 ∷ stage ++ codes ":") (joined (a ∷ more)))

-- what `_run_identity_command` makes of the answer
unfoldable pub identity_value : Text → Answer → Outcome ModemInitFailed Text
identity_value stage (raised e) = failed stage (codes "io_error: " ++ e)
identity_value stage (answered false payload none) = failed stage (codes "timeout")
identity_value stage (answered false payload (some detail)) = failed stage detail
identity_value stage (answered true payload detail) = of_lines stage (cleaned payload)

abbrev valued : Text → Answer × Line → Outcome ModemInitFailed Text × Line
valued stage (a, line) = (identity_value stage a, line)

-- `_run_identity_command`
unfoldable pub run_identity_command : Text → Text → Line → Outcome ModemInitFailed Text × Line
run_identity_command command stage line = valued stage (send_and_collect command line)
