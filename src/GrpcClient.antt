-- ===== src/GrpcClient.antt =====
-- isales_telephony/transport/grpc_client.py: the edge's end of the bidirectional stream.
-- Seconds are counted in milliseconds, and the backoff factor is a whole number (2 by default).
-- `M` is the protobuf frame; `serialize` and `parse` are its SerializeToString/ParseFromString.
-- A method runs between two awaits in one step; a put on the unbounded queue does not suspend.
pub mod Backoff
pub mod Flush
pub mod Delivery
pub mod Memory
mod Samples
use isales_telephony.Base.{
  ℕ, zero, suc, ◌+◌, ◌-◌, ◌*◌, Bool, true, false, Option, none, some, List, [], ◌∷◌, ◌++◌, Outcome,
  ok, err, ltb, leb, ◌==◌, length, drop, min, not, ◌&&◌, if◌then◌else◌,
}
use isales_telephony.EventBuffer.{
  Row, Buffer, BufferError, sound, insert_raises, append, delete_through, reads_sound, iter_pending,
  page_size,
}

pub data ClientError : Type 0 where
  value_error already_started connection_error edge_not_connected out_of_fuel : ClientError
  buffer_error : BufferError → ClientError

-- What the outbound queue holds: a frame, or the sentinel `_CLOSE`.
pub data Item (M : Type 0) : Type 0 where
  frame : M → Item M
  close_stream : Item M

pub record Config : Type 0 where
  pub initial_backoff : ℕ
  pub max_backoff : ℕ
  pub backoff_factor : ℕ
  pub memory_buffer_limit : ℕ

-- Exactly one backend holds the frames queued while disconnected.
pub data Backend (P M : Type 0) : Type 0 where
  durable : Buffer P → Backend P M
  memory : List M → Backend P M

pub record Client (P M : Type 0) : Type 0 where
  pub config : Config
  pub backend : Backend P M
  pub outbound : List (Item M)
  pub connected : Bool
  pub stopped : Bool
  pub task_running : Bool
  pub channel_open : Bool

-- `append` on `deque(maxlen=limit)`
unfoldable pub push_bounded : {M : Type 0} → ℕ → M → List M → List M
push_bounded limit m ms = drop (length ms + 1 - limit) (ms ++ m ∷ [])

module _ {P M : Type 0} where
  -- `__init__`
  unfoldable pub new : Config → Option (Buffer P) → Outcome ClientError (Client P M)
  new c event_buffer =
      if c.initial_backoff == 0
      then err value_error
      else if ltb c.max_backoff c.initial_backoff
      then err value_error
      else if leb c.backoff_factor 1
      then err value_error
      else if c.memory_buffer_limit == 0
      then err value_error
      else ok (record {
        config = c;
        backend = elim event_buffer [ none ↦ memory [] | some b ↦ durable b ];
        outbound = [];
        connected = false;
        stopped = false;
        task_running = false;
        channel_open = false;
      })

  -- `start` up to its wait
  unfoldable pub start_begin : Client P M → Outcome ClientError (Client P M)
  start_begin c =
      if c.task_running
      then err already_started
      else ok (record c { stopped = false; task_running = true })

  -- `start` behind its wait
  unfoldable pub start_end : Client P M → Outcome ClientError (Client P M)
  start_end c = if c.stopped && not c.connected then err connection_error else ok c

  -- `stop`; the connect task is cancelled and awaited
  unfoldable pub stop : Client P M → Client P M
  stop c = record c {
    stopped = true;
    outbound = c.outbound ++ close_stream ∷ [];
    task_running = false;
    channel_open = false;
    connected = false;
  }

  unfoldable pub pending_buffer_size : Client P M → ℕ
  pending_buffer_size c = elim c.backend [ durable b ↦ length b.rows | memory ms ↦ length ms ]

module _ {P M : Type 0} (serialize : M → P) where
  abbrev stored : Client P M → Outcome BufferError ℕ × Buffer P → Outcome ClientError (Client P M)
  stored c (ok seq, b) = ok (record c { backend = durable b })
  stored c (err e, b) = err (buffer_error e)

  unfoldable pub queue_in : Bool → M → Client P M → Backend P M → Outcome ClientError (Client P M)
  queue_in fails m c (durable b) =
      stored c (append (if fails then insert_raises else sound) (serialize m) b)
  queue_in fails m c (memory ms) =
      ok (record c { backend = memory (push_bounded c.config.memory_buffer_limit m ms) })

  -- `send(message, critical=…)`; the first flag says that SQLite raises in the
  -- INSERT of `append`; behind that INSERT it does not raise here
  unfoldable pub send : Bool → M → Bool → Client P M → Outcome ClientError (Client P M)
  send fails m critical c =
      if c.connected
      then ok (record c { outbound = c.outbound ++ frame m ∷ [] })
      else if critical
      then err edge_not_connected
      else queue_in fails m c c.backend

-- `while self._memory_buffer: popleft, put`
unfoldable pub flush_memory : {M : Type 0} → List M → List (Item M) → List (Item M)
flush_memory [] out = out
flush_memory (m ∷ ms) out = flush_memory ms (out ++ frame m ∷ [])

abbrev pub Flushing : Type 0 → Type 0 → Type 0
Flushing P M = Buffer P × List (Item M)

module _ {P M : Type 0} where
  abbrev pub rows_of : Flushing P M → List (Row P)
  rows_of s = s.0.rows

  -- what `delete_through` leaves and raises; the frame is on the queue by then
  abbrev pub row_deleted :
      Buffer P
      → List (Item M)
      → Outcome BufferError (ℕ × Buffer P)
      → Flushing P M × Option BufferError
  row_deleted b out (ok (count, left)) = ((left, out), none)
  row_deleted b out (err e) = ((b, out), some e)

  -- one turn of the loop of `_flush_buffer` over the durable buffer, and what it raises; the flag says
  -- that SQLite raises in the deletion
  unfoldable pub put_and_delete : Bool → ℕ → M → Flushing P M → Flushing P M × Option BufferError
  put_and_delete fails seq m (b, out) =
      row_deleted b (out ++ frame m ∷ []) (delete_through fails seq b)

  -- the turn where SQLite does not raise; a flush is only begun on an open buffer
  abbrev pub put_row : ℕ → M → Flushing P M → Flushing P M
  put_row seq m s = (put_and_delete false seq m s).0

module _ {P M : Type 0} (parse : P → Option M) where
  -- the loop of `_flush_buffer` where neither a SELECT nor a deletion raises
  unfoldable pub flush_durable : ℕ → Flushing P M → Option (Flushing P M × Option BufferError)
  flush_durable fuel s = iter_pending parse rows_of put_row reads_sound fuel page_size 0 s

  abbrev flushed :
      Client P M → Option (Flushing P M × Option BufferError) → Outcome ClientError (Client P M)
  flushed c (some (s, some e)) = err (buffer_error e)
  flushed c (some ((b, out), none)) = ok (record c { backend = durable b; outbound = out })
  flushed c none = err out_of_fuel

  unfoldable pub flush_backend : Client P M → Backend P M → Outcome ClientError (Client P M)
  flush_backend c (memory ms) =
      ok (record c { backend = memory []; outbound = flush_memory ms c.outbound })
  flush_backend c (durable b) =
      if b.is_open
      then flushed c (flush_durable (length b.rows + 1) (b, c.outbound))
      else err (buffer_error BufferError.not_opened)

  -- `_flush_buffer`; a read of a buffer that is not open raises
  unfoldable pub flush_buffer : Client P M → Outcome ClientError (Client P M)
  flush_buffer c = flush_backend c c.backend

  -- `_run_one_stream` up to the reader loop, the server having accepted the call
  unfoldable pub open_stream : Client P M → Outcome ClientError (Client P M)
  open_stream c = flush_buffer (record c { channel_open = true; outbound = []; connected = true })

-- the `finally` of `_run_one_stream` and of the connect loop
unfoldable pub end_stream : {P M : Type 0} → Client P M → Client P M
end_stream c = record c { connected = false; channel_open = false }

-- `_outbound_iter`: the frames that go on the wire, up to the first sentinel
unfoldable pub outbound_iter : {M : Type 0} → List (Item M) → List M
outbound_iter [] = []
outbound_iter (frame m ∷ rest) = m ∷ outbound_iter rest
outbound_iter (close_stream ∷ rest) = []
