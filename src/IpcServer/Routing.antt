-- ===== src/IpcServer/Routing.antt =====
-- Which call a hangup of handlers.py reaches.
use isales_telephony.Base.{
  ℕ, ◌≡◌, ◌≢◌, ◌∙◌, Bool, true, false, Option, none, some, List, [], ◌∷◌, ltb, ◌==◌, ==_iff,
  if◌then◌else◌, length, Bool-cases, inl, inr, dict_get, dict_get-set, dict_get-pop,
}
use isales_telephony.RingBuffer.{Bytes}
use isales_telephony.IpcServer.{
  Command, status, dial, hangup, audio_downstream, unknown_cmd, Message, Parsed, invalid_json,
  not_object, no_cmd, message, Server, Pump, AtEvent, or_text, dialled, with_number, handle_dial,
  routed, or_legacy, hang_up, handle_hangup, is_closed, end_pump, pump_event,
}
use isales_telephony.IpcServer.Frames.{
  max_frame_bytes, Incoming, line, eof, overrun, AtAnswer, handle, on_parsed, read_turn, pump_at,
  Input, incoming, pump_turn, pump_over, turn, over, step, run,
}

-- The session routes to the call.
abbrev pub Routes : ℕ → ℕ → Server → Type 0
Routes session call s = dict_get session s.session_to_call ≡ some call

apart : (k j : ℕ) → k ≢ j → (k == j) ≡ false
apart k j h = elim (Bool-cases (k == j)) [ inl o ↦ absurd (h ((==_iff k j).0 o)) | inr o ↦ o ]

-- A dial that the modem takes is of another session.
abbrev pub OfOther : ℕ → Option ℕ → Option ℕ → Type 0
OfOther session none session_id = Unit
OfOther session (some call) session_id = or_text session_id call ≢ session

abbrev pub DialOther : ℕ → AtAnswer → Parsed → Type 0
DialOther session at invalid_json = Unit
DialOther session at not_object = Unit
DialOther session at no_cmd = Unit
DialOther session at (message m) = OfOther session at.dial_result m.session_id

abbrev pub PumpOther : ℕ → Option Pump → Type 0
PumpOther session none = Unit
PumpOther session (some p) = p.session_id ≢ session

-- The input has nothing to do with the session: no dial is answered for it, and no pump of it moves.
abbrev pub IsOther : (Bytes → Parsed) → ℕ → Input → Server → Type 0
IsOther loads session (incoming conn at (line bytes)) s = DialOther session at (loads bytes)
IsOther loads session (incoming conn at (eof partial)) s = Unit
IsOther loads session (incoming conn at overrun) s = Unit
IsOther loads session (pump_turn k ev cause lost) s = PumpOther session (pump_at k s.pumps)
IsOther loads session (pump_over k) s = PumpOther session (pump_at k s.pumps)

abbrev pub AllOther : (Bytes → Parsed) → ℕ → List Input → Server → Type 0
AllOther loads session [] s = Unit
AllOther loads session (i ∷ is) s =
    IsOther loads session i s × AllOther loads session is (step loads i s)

end_pump-Routes :
    (session call k : ℕ) (p : Pump) (s : Server)
    → p.session_id ≢ session
    → Routes session call s
    → Routes session call (end_pump k p s)
unfolding end_pump
end_pump-Routes session call k p s h r =
    dict_get-pop session p.session_id s.session_to_call ∙ rw (apart p.session_id session h) r

handle_dial-Routes :
    (session call conn : ℕ) (m : Message) (result number : Option ℕ) (s : Server)
    → OfOther session result m.session_id
    → Routes session call s
    → Routes session call (with_number conn m result number s)
unfolding dialled
handle_dial-Routes session call conn m result none s h r = r
handle_dial-Routes session call conn m none (some n) s h r = r
handle_dial-Routes session call conn m (some c) (some n) s h r =
    dict_get-set session (or_text m.session_id c) c s.session_to_call
    ∙ rw (apart (or_text m.session_id c) session h) r

hang_up-Routes :
    (session call conn : ℕ) (m : Message) (raises : Bool) (found : Option ℕ) (s : Server)
    → Routes session call s
    → Routes session call (hang_up conn m raises found s)
hang_up-Routes session call conn m raises none s r = r
hang_up-Routes session call conn m true (some c) s r = r
hang_up-Routes session call conn m false (some c) s r = r

handle-Routes :
    (session call conn : ℕ) (at : AtAnswer) (m : Message) (c : Command) (s : Server)
    → OfOther session at.dial_result m.session_id
    → Routes session call s
    → Routes session call (handle conn at m c s)
unfolding handle handle_dial handle_hangup
handle-Routes session call conn at m status s h r = r
handle-Routes session call conn at m dial s h r =
    handle_dial-Routes session call conn m at.dial_result m.number s h r
handle-Routes session call conn at m hangup s h r =
    hang_up-Routes session call conn m at.hangup_raises
      (or_legacy (routed m.session_id s) m.call_id) s r
handle-Routes session call conn at m audio_downstream s h r = r
handle-Routes session call conn at m (unknown_cmd c) s h r = r

on_parsed-Routes :
    (session call conn : ℕ) (at : AtAnswer) (x : Parsed) (s : Server)
    → DialOther session at x
    → Routes session call s
    → Routes session call (on_parsed conn at x s)
unfolding on_parsed
on_parsed-Routes session call conn at invalid_json s h r = r
on_parsed-Routes session call conn at not_object s h r = r
on_parsed-Routes session call conn at no_cmd s h r = r
on_parsed-Routes session call conn at (message m) s h r =
    handle-Routes session call conn at m m.cmd s h r

-- a test between two servers that both route
if-Routes :
    (session call : ℕ) (b : Bool) (s t : Server)
    → Routes session call s
    → Routes session call t
    → Routes session call (if b then s else t)
if-Routes session call true s t r q = r
if-Routes session call false s t r q = q

read_turn-Routes :
    (loads : Bytes → Parsed) (session call conn : ℕ) (at : AtAnswer) (i : Incoming) (s : Server)
    → IsOther loads session (incoming conn at i) s
    → Routes session call s
    → Routes session call (read_turn loads conn at i s)
unfolding read_turn
read_turn-Routes loads session call conn at (eof partial) s h r = r
read_turn-Routes loads session call conn at overrun s h r = r
read_turn-Routes loads session call conn at (line bytes) s h r =
    if-Routes session call (ltb max_frame_bytes (length bytes)) _ _ r
      (on_parsed-Routes session call conn at (loads bytes) s h r)

pump_event-Routes :
    (session call k : ℕ) (p : Pump) (ev : AtEvent) (cause : Option ℕ) (lost : Bool) (s : Server)
    → p.session_id ≢ session
    → Routes session call s
    → Routes session call (pump_event k p ev cause lost s)
unfolding pump_event
pump_event-Routes session call k p ev cause lost s h r =
    if-Routes session call (is_closed p.conn s.closed) _ _ (end_pump-Routes session call k p s h r)
      (if-Routes session call lost _ _ (end_pump-Routes session call k p _ h r) r)

turn-Routes :
    (session call k : ℕ) (ev : AtEvent) (cause : Option ℕ) (lost : Bool) (o : Option Pump)
    (s : Server)
    → PumpOther session o
    → Routes session call s
    → Routes session call (turn k ev cause lost o s)
turn-Routes session call k ev cause lost none s h r = r
turn-Routes session call k ev cause lost (some p) s h r =
    if-Routes session call p.ended _ _ r (pump_event-Routes session call k p ev cause lost s h r)

over-Routes :
    (session call k : ℕ) (o : Option Pump) (s : Server)
    → PumpOther session o
    → Routes session call s
    → Routes session call (over k o s)
over-Routes session call k none s h r = r
over-Routes session call k (some p) s h r =
    if-Routes session call p.ended _ _ r (end_pump-Routes session call k p s h r)

step-Routes :
    (loads : Bytes → Parsed) (session call : ℕ) (i : Input) (s : Server)
    → IsOther loads session i s
    → Routes session call s
    → Routes session call (step loads i s)
unfolding step
step-Routes loads session call (incoming conn at i) s h r =
    if-Routes session call (is_closed conn s.closed) _ _ r
      (read_turn-Routes loads session call conn at i s h r)
step-Routes loads session call (pump_turn k ev cause lost) s h r =
    turn-Routes session call k ev cause lost (pump_at k s.pumps) s h r
step-Routes loads session call (pump_over k) s h r =
    over-Routes session call k (pump_at k s.pumps) s h r

pub run-Routes :
    (loads : Bytes → Parsed) (session call : ℕ) (is : List Input) (s : Server)
    → AllOther loads session is s
    → Routes session call s
    → Routes session call (run loads is s)
unfolding run
run-Routes loads session call [] s h r = r
run-Routes loads session call (i ∷ is) s (h, hs) r =
    run-Routes loads session call is (step loads i s) hs (step-Routes loads session call i s h r)
