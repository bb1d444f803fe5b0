-- ===== src/IpcServer/Frames.antt =====
-- ipc_server.py: the frames of one connection.
use isales_telephony.Base.{
  ℕ, zero, suc, ◌*◌, Bool, Option, none, some, List, [], ◌∷◌, ltb, if◌then◌else◌, length,
}
use isales_telephony.RingBuffer.{Bytes}
use isales_telephony.IpcServer.{
  is_closed, Command, status, dial, hangup, audio_downstream, unknown_cmd, Message, Parsed,
  invalid_json, not_object, no_cmd, message, unknown_cmd_error, status_ok, Server, Pump, AtEvent,
  send, disconnect, handle_dial, handle_hangup, end_pump, pump_event,
}

-- `MAX_FRAME_BYTES`
abbrev pub max_frame_bytes : ℕ
max_frame_bytes = 1 * 1024 * 1024

-- What `readuntil` gives: a line, the end of input with what stands before it, or LimitOverrunError.
pub data Incoming : Type 0 where
  line : Bytes → Incoming
  eof : Bytes → Incoming
  overrun : Incoming

-- What the AT client does for the command: `dial`'s call id, or none where it raises; and does
-- `hangup` raise?
pub record AtAnswer : Type 0 where
  pub dial_result : Option ℕ
  pub hangup_raises : Bool

-- the handler of the command, and its reply
unfoldable pub handle : ℕ → AtAnswer → Message → Command → Server → Server
handle conn at m status s = send conn status_ok s
handle conn at m dial s = handle_dial conn m at.dial_result s
handle conn at m hangup s = handle_hangup conn m at.hangup_raises s
handle conn at m audio_downstream s = s
handle conn at m (unknown_cmd c) s = send conn (unknown_cmd_error c) s

-- a line that was read; a FrameError closes the connection
unfoldable pub on_parsed : ℕ → AtAnswer → Parsed → Server → Server
on_parsed conn at invalid_json s = disconnect conn s
on_parsed conn at not_object s = disconnect conn s
on_parsed conn at no_cmd s = disconnect conn s
on_parsed conn at (message m) s = handle conn at m m.cmd s

-- one turn of `_read_loop`
unfoldable pub read_turn : (Bytes → Parsed) → ℕ → AtAnswer → Incoming → Server → Server
read_turn loads conn at (eof partial) s = disconnect conn s
read_turn loads conn at overrun s = disconnect conn s
read_turn loads conn at (line bytes) s =
    if ltb max_frame_bytes (length bytes)
    then disconnect conn s
    else on_parsed conn at (loads bytes) s

-- the pump of this number
abbrev pub pump_at : ℕ → List Pump → Option Pump
pump_at k [] = none
pump_at zero (p ∷ pumps) = some p
pump_at (suc k) (p ∷ pumps) = pump_at k pumps

-- What happens next: to a connection, or to a pump, whose stream has an event or ends.
pub data Input : Type 0 where
  incoming : ℕ → AtAnswer → Incoming → Input
  pump_turn : ℕ → AtEvent → Option ℕ → Bool → Input
  pump_over : ℕ → Input

abbrev pub turn : ℕ → AtEvent → Option ℕ → Bool → Option Pump → Server → Server
turn k ev cause lost none s = s
turn k ev cause lost (some p) s = if p.ended then s else pump_event k p ev cause lost s

abbrev pub over : ℕ → Option Pump → Server → Server
over k none s = s
over k (some p) s = if p.ended then s else end_pump k p s

-- a closed connection is not read, and an ended pump does nothing
unfoldable pub step : (Bytes → Parsed) → Input → Server → Server
step loads (incoming conn at i) s =
    if is_closed conn s.closed then s else read_turn loads conn at i s
step loads (pump_turn k ev cause lost) s = turn k ev cause lost (pump_at k s.pumps) s
step loads (pump_over k) s = over k (pump_at k s.pumps) s

unfoldable pub run : (Bytes → Parsed) → List Input → Server → Server
run loads [] s = s
run loads (i ∷ is) s = run loads is (step loads i s)
