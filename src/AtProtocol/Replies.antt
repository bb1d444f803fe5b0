-- ===== src/AtProtocol/Replies.antt =====
-- Which line ends up in which response of serial_protocol.py.
use isales_telephony.Base.{
  ◌≡◌, ◌≢◌, refl, sym, ◌∙◌, List, [], ◌∷◌, ◌++◌, ok, err, Bool, Option, false, true, none, codes,
  arith, append_assoc, append-nil, Text,
}
use isales_telephony.AtProtocol.Lines.{IsFinal, IsUrc, IsBody, IsKind, classify-IsKind}
use isales_telephony.AtProtocol.{
  Urc, UrcType, CommandError, Response, Client, Kind, final, urc, body, classify, handle_line,
  dispatch_line, read_lines, send_begin, send_end, timed_out,
}

-- With `pending` lines of a response at hand, the lines make these replies, hand these URCs to the
-- handlers, and leave the last lines pending. A final line ends a reply of all that is pending.
pub data Reads : List Text → List Text → List Response → List Urc → List Text → Type 0 where
  done : {pending : List Text} → Reads pending [] [] [] pending
  skips :
      {pending left : List Text} {lines : List Text} {replies : List Response} {urcs : List Urc}
      → Reads pending lines replies urcs left
      → Reads pending ([] ∷ lines) replies urcs left
  ends :
      {pending left : List Text} {line : Text} {lines : List Text} {replies : List Response}
      {urcs : List Urc} {is_ok : Bool} {error : Option CommandError}
      → IsFinal line is_ok error
      → Reads [] lines replies urcs left
      → Reads pending
          (line ∷ lines)
          (record { is_ok = is_ok; lines = pending; error = error } ∷ replies)
          urcs
          left
  hands :
      {pending left : List Text} {line : Text} {lines : List Text} {replies : List Response}
      {urcs : List Urc} {type : UrcType}
      → IsUrc line type
      → Reads pending lines replies urcs left
      → Reads pending (line ∷ lines) replies (record { type = type; raw = line } ∷ urcs) left
  adds :
      {pending left : List Text} {line : Text} {lines : List Text} {replies : List Response}
      {urcs : List Urc}
      → line ≢ []
      → IsBody line
      → Reads (pending ++ line ∷ []) lines replies urcs left
      → Reads pending (line ∷ lines) replies urcs left

-- From `c` to `s` by the lines.
pub record IsFed (lines : List Text) (c s : Client) : Type 0 where
  pub replies : List Response
  pub events : List Urc
  pub reads : Reads c.pending lines replies events s.pending
  pub queue : s.queue ≡ c.queue ++ replies
  pub urcs : s.urcs ≡ c.urcs ++ events
  pub written : s.written ≡ c.written
  pub closed : s.closed ≡ c.closed

line-IsFed :
    (line : Text) (lines : List Text) (c s : Client) (k : Kind)
    → line ≢ []
    → IsKind line k
    → IsFed lines (handle_line line c k) s
    → IsFed (line ∷ lines) c s
line-IsFed line lines c s (final is_ok error) some_line k h = record {
  replies = record { is_ok = is_ok; lines = c.pending; error = error } ∷ h.replies;
  events = h.events;
  reads = ends k h.reads;
  queue = h.queue ∙ append_assoc c.queue _ h.replies;
  urcs = h.urcs;
  written = h.written;
  closed = h.closed;
}
line-IsFed line lines c s (urc type) some_line k h = record {
  replies = h.replies;
  events = record { type = type; raw = line } ∷ h.events;
  reads = hands k h.reads;
  queue = h.queue;
  urcs = h.urcs ∙ append_assoc c.urcs _ h.events;
  written = h.written;
  closed = h.closed;
}
line-IsFed line lines c s body some_line k h = record {
  replies = h.replies;
  events = h.events;
  reads = adds some_line k h.reads;
  queue = h.queue;
  urcs = h.urcs;
  written = h.written;
  closed = h.closed;
}

-- Whatever lines the modem sends, empty ones aside: OK, ERROR, and a line that starts with +CME ERROR
-- or +CMS ERROR each end one response, successful or with that error, which has the lines since the
-- one before; a line that is one of the eight words, or has a colon or a space behind it, goes to the
-- handlers and into no response; any other line is in the response that is next ended, or still
-- pending. Responses and unsolicited lines keep their order, and are queued behind the older ones.
pub read_lines-IsFed : (lines : List Text) (c : Client) → IsFed lines c (read_lines c lines)
unfolding read_lines dispatch_line
read_lines-IsFed [] c = record {
  replies = [];
  events = [];
  reads = done;
  queue = sym (append-nil _);
  urcs = sym (append-nil _);
  written = refl;
  closed = refl;
}
read_lines-IsFed ([] ∷ lines) c =
    let h = read_lines-IsFed lines c in
    record {
      replies = h.replies;
      events = h.events;
      reads = skips h.reads;
      queue = h.queue;
      urcs = h.urcs;
      written = h.written;
      closed = h.closed;
    }
read_lines-IsFed ((x ∷ line) ∷ lines) c =
    line-IsFed (x ∷ line) lines c _ (classify (x ∷ line)) (λ e. cc) (classify-IsKind (x ∷ line))
      (read_lines-IsFed lines (dispatch_line c (x ∷ line)))

-- the oldest response stays the oldest
read_lines_first :
    (lines : List Text) (c : Client) (r : Response) (rest : List Response)
    → c.queue ≡ r ∷ rest
    → (more : List Response) × ((read_lines c lines).queue ≡ r ∷ more)
unfolding read_lines dispatch_line
read_lines_first [] c r rest e = (rest, e)
read_lines_first ([] ∷ lines) c r rest e = read_lines_first lines c r rest e
read_lines_first ((x ∷ line) ∷ lines) c r rest e =
    let head = kept (classify (x ∷ line)) in
    read_lines_first lines (dispatch_line c (x ∷ line)) r (head.0) (head.1)
  where
    kept : (k : Kind) → (more : List Response) × ((handle_line (x ∷ line) c k).queue ≡ r ∷ more)
    kept (final is_ok error) =
        (rest ++ record { is_ok = is_ok; lines = c.pending; error = error } ∷ [], rw e refl)
    kept (urc type) = (rest, e)
    kept body = (rest, e)

-- An open client waits for the response to a command, and its queue is empty: at the deadline the
-- command times out and leaves the client as it is. If the command's OK arrives after that, then the
-- next command is answered by it, with the lines that were pending, whatever the modem sends to that
-- next command.
pub late_reply :
    (command : Text) (lines : List Text) (c s : Client)
    → c.queue ≡ []
    → c.closed ≡ false
    → send_begin command (read_lines c (codes "OK" ∷ [])) ≡ ok s
    → (send_end c ≡ (err timed_out, c))
      × ((send_end (read_lines s lines)).0
          ≡ ok (record { is_ok = true; lines = c.pending; error = none }))
unfolding send_begin send_end read_lines dispatch_line classify
late_reply command lines c s e k h =
    let reply : Response = record { is_ok = true; lines = c.pending; error = none } in
    let queued : s.queue ≡ reply ∷ [] = ground (arith, e, k) in
    let first = read_lines_first lines s reply [] queued in (rw e refl, rw (first.1) refl)
