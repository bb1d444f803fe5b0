-- ===== src/AtClient.antt =====
-- isales_telephony/modem_controller/at_client.py: `SerialATClient`, the calls of one modem.
-- A call's events go through one queue, which the URC callback, the CLCC poller and `hangup` fill
-- and the event stream of the call drains. The AT commands are answered by the arguments.
pub mod Orderly
pub mod Streams
pub mod Opening
mod Samples
use isales_telephony.Base.{
  ℕ, Bool, true, false, Option, none, some, List, [], ◌∷◌, ◌++◌, ◌==◌, not, ◌&&◌, if◌then◌else◌,
  Outcome, ok, err, Text,
}
use isales_telephony.AtProtocol.{UrcType, no_carrier, busy, no_answer, no_dialtone}
use isales_telephony.Drivers.{Cause, DialResult, classify_dial_failure}

-- the causes of `remote_hangup` events
pub data EndCause : Type 0 where
  mapped : Cause → EndCause
  manual_hangup : EndCause

-- `ATEvent`, within its call
pub data Event : Type 0 where
  connected : Event
  remote_hangup : EndCause → Event

-- What `_urc_stream` has come to: its call, its flag `connected_seen`, whether it has ended, and
-- what it has yielded.
pub record Stream : Type 0 where
  pub call_id : ℕ
  pub connected_seen : Bool
  pub ended : Bool
  pub yielded : List Event

-- `SerialATClient`: `_active_call_id`, `_call_queue` (empty for None; `none` is the sentinel of
-- `aclose`), whether `_poller_task` runs, the call whose ATD is awaited, and the stream of the last call that was dialled.
pub record Line : Type 0 where
  pub active : Option ℕ
  pub queue : List (Option Event)
  pub polling : Bool
  pub dialling : Option ℕ
  pub stream : Option Stream

unfoldable pub new : Line
new = record { active = none; queue = []; polling = false; dialling = none; stream = none }

-- `_reset_call_state`
unfoldable pub reset_call_state : Line → Line
reset_call_state l = record l { active = none; queue = []; polling = false }

pub data DialError : Type 0 where
  call_active : ℕ → DialError

abbrev pub dial_idle : ℕ → Line → Option ℕ → Outcome DialError Line
dial_idle id l (some other) = err (call_active other)
dial_idle id l none = ok (record l { active = some id; queue = []; dialling = some id })

-- `dial` up to its wait for ATD, under a new call id
unfoldable pub dial_begin : ℕ → Line → Outcome DialError Line
dial_begin id l = dial_idle id l l.active

-- What `dial` returns: the stream of the call's events, or of one hangup.
pub data Dialled : Type 0 where
  streaming : Dialled
  single : Cause → Dialled

abbrev pub or_network : Option Cause → Cause
or_network none = Cause.network_out_of_order
or_network (some cause) = cause

abbrev pub new_stream : ℕ → Stream
new_stream id = record { call_id = id; connected_seen = false; ended = false; yielded = [] }

-- the rest of `dial`, by what the driver's `dial` answers or raises
unfoldable pub dial_end : ℕ → Outcome Text DialResult → Line → Dialled × Line
dial_end id (err message) l =
    (single (classify_dial_failure message), reset_call_state (record l { dialling = none }))
dial_end id (ok result) l =
    let over : Line = record l { dialling = none } in
    if result.connected
    then (streaming, record over { polling = true; stream = some (new_stream id) })
    else (single (or_network result.hangup_cause), reset_call_state over)

abbrev is_active : ℕ → Option ℕ → Bool
is_active id none = false
is_active id (some j) = j == id

abbrev queue_event : Event → Line → Line
queue_event e l = record l { queue = l.queue ++ some e ∷ [] }

-- `hangup`; that `ATH` fails makes no difference to the queue
unfoldable pub hangup : ℕ → Line → Line
hangup id l = if is_active id l.active then queue_event (remote_hangup manual_hangup) l else l

-- `_hangup_urc_causes.get`
unfoldable pub hangup_urc_cause : UrcType → Option Cause
hangup_urc_cause no_carrier = some Cause.user_hangup
hangup_urc_cause busy = some Cause.user_busy
hangup_urc_cause no_answer = some Cause.no_answer
hangup_urc_cause no_dialtone = some Cause.network_out_of_order
hangup_urc_cause _ = none

abbrev pub urc_event : Line → Option ℕ → Option Cause → Line
urc_event l none cause = l
urc_event l (some id) none = l
urc_event l (some id) (some cause) = queue_event (remote_hangup (mapped cause)) l

-- `_on_urc`
unfoldable pub on_urc : UrcType → Line → Line
on_urc type l = urc_event l l.active (hangup_urc_cause type)

-- one round of `_poll_for_connected`; the argument says whether CLCC lists an active call
unfoldable pub poll_for_connected : Bool → Line → Line
poll_for_connected active_call l =
    if l.polling && active_call then queue_event connected (record l { polling = false }) else l

-- the `finally` of `_urc_stream`
unfoldable pub end_stream : Stream → Line → Line
end_stream s l =
    let closed : Line = record l { stream = some (record s { ended = true }) } in
    if is_active s.call_id l.active then reset_call_state closed else closed

-- one item of the queue in `_urc_stream`
unfoldable pub stream_item : Stream → Option Event → Line → Line
stream_item s none l = end_stream s l
stream_item s (some connected) l = if s.connected_seen then l else record l {
  stream = some (record s { connected_seen = true; yielded = s.yielded ++ connected ∷ [] });
}
stream_item s (some (remote_hangup cause)) l =
    end_stream (record s { yielded = s.yielded ++ remote_hangup cause ∷ [] }) l

abbrev pub next_item : Line → Stream → List (Option Event) → Line
next_item l s [] = l
next_item l s (item ∷ rest) = stream_item s item (record l { queue = rest })

abbrev pub next_of : Line → Option Stream → Line
next_of l none = l
next_of l (some s) = if s.ended then l else next_item l s l.queue

-- one turn of `_urc_stream`: it waits on an empty queue
unfoldable pub stream_next : Line → Line
stream_next l = next_of l l.stream

abbrev pub close_queue : Line → Option ℕ → Line
close_queue l none = l
close_queue l (some id) = record l { queue = l.queue ++ none ∷ [] }

-- `aclose`, as far as it touches the queue and the poller
unfoldable pub aclose : Line → Line
aclose l = close_queue (record l { polling = false }) l.active
