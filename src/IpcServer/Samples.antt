-- ===== src/IpcServer/Samples.antt =====
-- A peer that dials twice with one session id.
use isales_telephony.Base.{
  ℕ, ◌≡◌, refl, false, Option, none, some, List, [], ◌∷◌, ◌++◌, ◌==◌, if◌then◌else◌, ◌≢◌, arith,
}
use isales_telephony.RingBuffer.{Bytes}
use isales_telephony.Fleet.{set_device_status}
use isales_telephony.IpcServer.{
  Command, dial, hangup, Message, Parsed, invalid_json, message, Server, Pump, dialled, handle_dial,
  or_text, handle_hangup, routed, or_legacy, end_pump, is_closed,
}
use isales_telephony.IpcServer.Frames.{
  line, eof, AtAnswer, handle, on_parsed, read_turn, Input, incoming, pump_over, step, run,
}
use isales_telephony.IpcServer.Hangup.{hangup_reaches, IsLost, stale_pump}

abbrev request : Command → Option ℕ → Message
request c session = record {
  cmd = c;
  device_id = none;
  number = some 10086;
  session_id = session;
  call_id = none;
}

-- the line 68 is a dial of session 5, 69 one of session 6, 72 a hangup of session 5
abbrev loads : Bytes → Parsed
loads [] = invalid_json
loads (b ∷ bytes) =
    if b == 68
    then message (request dial (some 5))
    else if b == 69
    then message (request dial (some 6))
    else if b == 72
    then message (request hangup (some 5))
    else invalid_json

abbrev at : ℕ → AtAnswer
at call = record { dial_result = some call; hangup_raises = false }

abbrev idle_server : Server
idle_server = record {
  session_to_call = [];
  rows = [];
  pumps = [];
  closed = [];
  hung_up = [];
  sent = [];
}

abbrev others : List Input
others = incoming 1 (at 22) (line (69 ∷ [])) ∷ incoming 2 (at 0) (eof []) ∷ []

-- the pump of the first call ends, and the hangup of the session reaches no call
two_dials_run :
    (run loads
      (incoming 1 (at 21) (line (68 ∷ []))
        ∷ incoming 1 (at 22) (line (68 ∷ []))
        ∷ pump_over 0
        ∷ incoming 1 (at 0) (line (72 ∷ []))
        ∷ [])
      idle_server).hung_up
    ≡ []
unfolding run step read_turn on_parsed handle handle_dial dialled or_text handle_hangup routed
    or_legacy end_pump is_closed set_device_status
two_dials_run = refl

apart : or_text (some 6) 22 ≢ 5
unfolding or_text
apart = ground arith

hangup_reaches_example :
    (handle_hangup 1
      (request hangup (some 5))
      false
      (run loads others (handle_dial 1 (request dial (some 5)) (some 21) idle_server))).hung_up
    ≡ (run loads others (handle_dial 1 (request dial (some 5)) (some 21) idle_server)).hung_up
      ++ 21 ∷ []
hangup_reaches_example =
    hangup_reaches loads 4 20 1 10086 1 (request dial (some 5)) (request hangup (some 5)) false
      others idle_server refl refl refl (apart, (tt, tt))

abbrev redialled : Server
redialled =
    handle_dial 1 (request dial (some 5)) (some 22)
      (handle_dial 1 (request dial (some 5)) (some 21) idle_server)

abbrev first_pump : Pump
first_pump = record { conn = 1; session_id = 5; device_id = none; ended = false }

stale_pump_example :
    IsLost 1
      (request hangup (some 5))
      (end_pump 0 first_pump redialled)
      (handle_hangup 1 (request hangup (some 5)) false (end_pump 0 first_pump redialled))
stale_pump_example =
    stale_pump 4 0 1 first_pump (request hangup (some 5)) false redialled refl refl refl
