-- ===== src/IpcServer.antt =====
-- isales_telephony/modem_controller/ipc_server.py and handlers.py: the frames of the peers of the
-- modem controller, and the commands in them. What the socket delivers, `json.loads` and the AT
-- client are arguments. A text that is only compared is a number, and the empty text is 0.
pub mod Frames
pub mod Routing
pub mod Hangup
mod Samples
use isales_telephony.Base.{
  ℕ, zero, suc, ◌+◌, Bool, true, false, Option, none, some, List, [], ◌∷◌, ◌++◌, ltb, ◌==◌,
  if◌then◌else◌, length, dict_get, dict_set, dict_pop,
}
use isales_telephony.RingBuffer.{Bytes}
use isales_telephony.Fleet.{Device, idle, dialing, in_call, set_device_status}

-- The commands of `build_handlers`, and any other text.
pub data Command : Type 0 where
  status dial hangup audio_downstream : Command
  unknown_cmd : ℕ → Command

-- A message that has a command; a field is none where it is missing or not of its type.
pub record Message : Type 0 where
  pub cmd : Command
  pub device_id : Option ℕ
  pub number : Option ℕ
  pub session_id : Option ℕ
  pub call_id : Option ℕ

-- What `json.loads` makes of a line, and `msg.get("cmd")` of that.
pub data Parsed : Type 0 where
  invalid_json not_object no_cmd : Parsed
  message : Message → Parsed

-- What a peer is sent.
pub data Reply : Type 0 where
  unknown_cmd_error : ℕ → Reply
  invalid_request status_ok : Reply
  dial_ack : ℕ → Reply
  hangup_ack : Option ℕ → Reply
  event : ℕ → ℕ → Option ℕ → Option ℕ → Reply

-- The task `_pump` of a dial: its connection, its call, and whether it has ended.
pub record Pump : Type 0 where
  pub conn : ℕ
  pub session_id : ℕ
  pub device_id : Option ℕ
  pub ended : Bool

-- The state that the handlers share; `hung_up` is the log of the calls that the AT client was told to
-- hang up, and `sent` that of what the peers were sent.
pub record Server : Type 0 where
  pub session_to_call : List (ℕ × ℕ)
  pub rows : List Device
  pub pumps : List Pump
  pub closed : List ℕ
  pub hung_up : List ℕ
  pub sent : List (ℕ × Reply)

abbrev pub send : ℕ → Reply → Server → Server
send conn reply s = record s { sent = s.sent ++ (conn, reply) ∷ [] }

-- the `finally` of `_on_connect`
abbrev pub disconnect : ℕ → Server → Server
disconnect conn s = record s { closed = conn ∷ s.closed }

-- `a or b` on texts that may be None
unfoldable pub or_text : Option ℕ → ℕ → ℕ
or_text none b = b
or_text (some zero) b = b
or_text (some (suc a)) b = suc a

unfoldable pub dialled : ℕ → Message → ℕ → Server → Server
dialled conn m modem_call_id s =
    let session_id : ℕ = or_text m.session_id modem_call_id in
    send conn (dial_ack session_id) (record s {
      session_to_call = dict_set session_id modem_call_id s.session_to_call;
      pumps =
          s.pumps
          ++ record { conn = conn; session_id = session_id; device_id = m.device_id; ended = false }
            ∷ [];
    })

abbrev pub after_dial : ℕ → Message → Option ℕ → Server → Server
after_dial conn m none s = disconnect conn s
after_dial conn m (some modem_call_id) s = dialled conn m modem_call_id s

abbrev pub with_number : ℕ → Message → Option ℕ → Option ℕ → Server → Server
with_number conn m result none s = send conn invalid_request s
with_number conn m result (some number) s =
    after_dial conn m result (record s { rows = set_device_status m.device_id dialing s.rows })

-- `handle_dial`; `client.dial` gives the modem's call id, or raises
unfoldable pub handle_dial : ℕ → Message → Option ℕ → Server → Server
handle_dial conn m result s = with_number conn m result m.number s

-- `session_to_call.get(session_id) if session_id else None`
unfoldable pub routed : Option ℕ → Server → Option ℕ
routed none s = none
routed (some zero) s = none
routed (some (suc k)) s = dict_get (suc k) s.session_to_call

-- `(…) or legacy_call_id`
unfoldable pub or_legacy : Option ℕ → Option ℕ → Option ℕ
or_legacy none legacy = legacy
or_legacy (some zero) legacy = legacy
or_legacy (some (suc call)) legacy = some (suc call)

abbrev pub hang_up : ℕ → Message → Bool → Option ℕ → Server → Server
hang_up conn m raises none s = send conn (hangup_ack m.session_id) s
hang_up conn m true (some call) s = disconnect conn (record s { hung_up = s.hung_up ++ call ∷ [] })
hang_up conn m false (some call) s =
    send conn (hangup_ack m.session_id) (record s { hung_up = s.hung_up ++ call ∷ [] })

-- `handle_hangup`; `raises` where `client.hangup` does
unfoldable pub handle_hangup : ℕ → Message → Bool → Server → Server
handle_hangup conn m raises s =
    hang_up conn m raises (or_legacy (routed m.session_id s) m.call_id) s

-- an event of the AT client's stream
pub data AtEvent : Type 0 where
  connected remote_hangup : AtEvent
  other_event : ℕ → AtEvent

abbrev pub name_of : AtEvent → ℕ
name_of connected = 1
name_of remote_hangup = 2
name_of (other_event n) = n

unfoldable pub status_written : AtEvent → Option ℕ → List Device → List Device
status_written connected device_id rows = set_device_status device_id in_call rows
status_written remote_hangup device_id rows = set_device_status device_id idle rows
status_written (other_event n) device_id rows = rows

unfoldable pub is_closed : ℕ → List ℕ → Bool
is_closed conn [] = false
is_closed conn (c ∷ closed) = let rest = is_closed conn closed in if c == conn then true else rest

abbrev pub end_at : ℕ → List Pump → List Pump
end_at k [] = []
end_at zero (p ∷ pumps) = record p { ended = true } ∷ pumps
end_at (suc k) (p ∷ pumps) = p ∷ end_at k pumps

-- the `finally` of pump k
unfoldable pub end_pump : ℕ → Pump → Server → Server
end_pump k p s = record s {
  session_to_call = dict_pop p.session_id s.session_to_call;
  pumps = end_at k s.pumps;
}

-- one turn of the loop of pump k; `cause` is none where it is missing or empty, and `lost` where the
-- send raises
unfoldable pub pump_event : ℕ → Pump → AtEvent → Option ℕ → Bool → Server → Server
pump_event k p ev cause lost s =
    if is_closed p.conn s.closed
    then end_pump k p s
    else if lost
    then end_pump k p (record s { rows = status_written ev p.device_id s.rows })
    else send p.conn (event (name_of ev) p.session_id cause p.device_id)
        (record s { rows = status_written ev p.device_id s.rows })
