-- ===== src/AtClient/Streams.antt =====
-- What the event streams of at_client.py yield, and when the client is free to dial.
use isales_telephony.Base.{ℕ, Bool, Option, none, some, List, [], ◌∷◌, Outcome, ok, err, Text}
use isales_telephony.AtProtocol.{UrcType}
use isales_telephony.Drivers.{DialResult}
use isales_telephony.AtClient.{
  Line, DialError, dial_begin, dial_end, hangup, on_urc, poll_for_connected, stream_next, aclose,
}

-- What happens to one client; a `dial` that is refused changes nothing, and the driver answers once
-- for each dial that is not.
pub data Op : Type 0 where
  dial_op : ℕ → Op
  atd_answered : Outcome Text DialResult → Op
  hangup_op : ℕ → Op
  urc_op : UrcType → Op
  polled : Bool → Op
  read_next : Op
  aclose_op : Op

abbrev or_same : Line → Outcome DialError Line → Line
or_same l (ok s) = s
or_same l (err _) = l

abbrev answered_for : Line → Outcome Text DialResult → Option ℕ → Line
answered_for l result none = l
answered_for l result (some id) = (dial_end id result l).1

unfoldable pub step : Line → Op → Line
step l (dial_op id) = or_same l (dial_begin id l)
step l (atd_answered result) = answered_for l result l.dialling
step l (hangup_op id) = hangup id l
step l (urc_op type) = on_urc type l
step l (polled b) = poll_for_connected b l
step l read_next = stream_next l
step l aclose_op = aclose l

unfoldable pub run : Line → List Op → Line
run l [] = l
run l (o ∷ os) = run (step l o) os
