-- ===== src/AtProtocol.antt =====
-- isales_telephony/modem_controller/serial_protocol.py: `AtClient`, one modem's line of AT commands.
-- The reader task feeds whole lines, stripped of white space; `send` is begun by writing the
-- command, and then takes the next response of the queue or times out.
pub mod Lines
pub mod Replies
mod Samples
use isales_telephony.Base.{
  ℕ, Bool, true, false, Option, none, some, List, [], ◌∷◌, ◌++◌, ◌==◌, ◌||◌, Outcome, ok, err,
  if◌then◌else◌, length, drop, Text, codes, text_eq, prefix_of, lstrip,
}

-- `UrcType`
pub data UrcType : Type 0 where
  ring no_carrier busy no_dialtone no_answer clip creg cmti other : UrcType

-- `_URC_PATTERNS`
abbrev pub urc_patterns : List (Text × UrcType)
urc_patterns =
    (codes "RING", ring)
    ∷ (codes "NO CARRIER", no_carrier)
    ∷ (codes "BUSY", busy)
    ∷ (codes "NO DIALTONE", no_dialtone)
    ∷ (codes "NO ANSWER", no_answer)
    ∷ (codes "+CLIP", clip)
    ∷ (codes "+CREG", creg)
    ∷ (codes "+CMTI", cmti)
    ∷ []

abbrev pub is_urc : Text → Text → Bool
is_urc line prefix =
    text_eq line prefix
    || prefix_of (prefix ++ codes ":") line
    || prefix_of (prefix ++ codes " ") line

unfoldable pub first_urc : Text → List (Text × UrcType) → Option UrcType
first_urc line [] = none
first_urc line ((prefix, type) ∷ rest) =
    let later = first_urc line rest in if is_urc line prefix then some type else later

-- `_classify_urc`
unfoldable pub classify_urc : Text → Option UrcType
classify_urc line = first_urc line urc_patterns

-- `Urc`
pub record Urc : Type 0 where
  pub type : UrcType
  pub raw : Text

-- `AtCommandError`: the final code, and what follows it
pub record CommandError : Type 0 where
  pub final : Text
  pub detail : Text

-- `AtResponse`
pub record Response : Type 0 where
  pub is_ok : Bool
  pub lines : List Text
  pub error : Option CommandError

-- `AtClient`: the response queue, the lines of the command in flight, the URCs handed to the
-- handlers, the commands written, and whether it is closed.
pub record Client : Type 0 where
  pub queue : List Response
  pub pending : List Text
  pub urcs : List Urc
  pub written : List Text
  pub closed : Bool

unfoldable pub new : Client
new = record { queue = []; pending = []; urcs = []; written = []; closed = false }

-- What a line is to the client.
pub data Kind : Type 0 where
  final : Bool → Option CommandError → Kind
  urc : UrcType → Kind
  body : Kind

abbrev plain_error : Kind
plain_error = final false (some (record { final = codes "ERROR"; detail = [] }))

abbrev is_colon_space : ℕ → Bool
is_colon_space c = (c == 58) || (c == 32)

-- a `+CME ERROR` or a `+CMS ERROR`, with what follows it
abbrev coded_error : Text → Text → Kind
coded_error prefix line =
    final false
      (some (record { final = prefix; detail = lstrip is_colon_space (drop (length prefix) line) }))

abbrev pub urc_or_body : Option UrcType → Kind
urc_or_body (some type) = urc type
urc_or_body none = body

-- the tests of `_dispatch_line`, in its order
unfoldable pub classify : Text → Kind
classify line =
    if text_eq line (codes "OK")
    then final true none
    else if text_eq line (codes "ERROR")
    then plain_error
    else if prefix_of (codes "+CME ERROR") line
    then coded_error (codes "+CME ERROR") line
    else if prefix_of (codes "+CMS ERROR") line
    then coded_error (codes "+CMS ERROR") line
    else urc_or_body (classify_urc line)

abbrev pub handle_line : Text → Client → Kind → Client
handle_line line c (final is_ok error) = record c {
  queue = c.queue ++ record { is_ok = is_ok; lines = c.pending; error = error } ∷ [];
  pending = [];
}
handle_line line c (urc type) = record c {
  urcs = c.urcs ++ record { type = type; raw = line } ∷ [];
}
handle_line line c body = record c { pending = c.pending ++ line ∷ [] }

-- `_dispatch_line`
unfoldable pub dispatch_line : Client → Text → Client
dispatch_line c line = handle_line line c (classify line)

-- `_read_loop`, for the lines read; an empty one is skipped
unfoldable pub read_lines : Client → List Text → Client
read_lines c [] = c
read_lines c ([] ∷ lines) = read_lines c lines
read_lines c ((x ∷ line) ∷ lines) = read_lines (dispatch_line c (x ∷ line)) lines

-- `_read_loop` at the end of the input: a waiting command gets an error
unfoldable pub read_eof : Bool → Client → Client
read_eof waiting c =
    let eof : CommandError = record {
      final = codes "EOF";
      detail = codes "modem closed connection";
    } in
    if waiting
    then record c { queue = c.queue ++ record { is_ok = false; lines = []; error = some eof } ∷ [] }
    else c

pub data SendError : Type 0 where
  client_closed timed_out : SendError
  refused : CommandError → SendError

-- `send` up to its wait
unfoldable pub send_begin : Text → Client → Outcome SendError Client
send_begin command c =
    if c.closed
    then err client_closed
    else ok (record c { pending = []; written = c.written ++ command ∷ [] })

abbrev pub answered : Response → Option CommandError → Outcome SendError Response
answered r none = ok r
answered r (some e) = err (refused e)

abbrev take_head : Client → List Response → Outcome SendError Response × Client
take_head c [] = (err timed_out, c)
take_head c (r ∷ rest) = (answered r r.error, record c { queue = rest })

-- `send` from its wait on; the deadline passes with the queue as it is
unfoldable pub send_end : Client → Outcome SendError Response × Client
send_end c = take_head c c.queue

-- `aclose`
unfoldable pub aclose : Client → Client
aclose c = record c { closed = true }
