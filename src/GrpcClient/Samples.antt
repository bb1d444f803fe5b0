-- ===== src/GrpcClient/Samples.antt =====
-- Runs of the gRPC client. A frame and its serialised form are a number.
use isales_telephony.Base.{
  ℕ, ◌≤◌, ◌≡◌, refl, true, false, Option, none, some, List, [], ◌∷◌, ◌++◌, ok, arith, All,
}
use isales_telephony.EventBuffer.{Buffer}
use isales_telephony.EventBuffer.Invariant.{IsOrdered}
use isales_telephony.GrpcClient.{
  Config, Client, frame, close_stream, durable, memory, new, send, open_stream, end_stream,
  flush_durable, outbound_iter, pending_buffer_size,
}
use isales_telephony.GrpcClient.Backoff.{
  IsAccepted, Attempt, failure, closed_by_server, connect_loop, connect_loop_bounds, exponential,
  turn, loop_from,
}
use isales_telephony.GrpcClient.Flush.{flush_durable-eq, stuck_rows, frames_of}
use isales_telephony.GrpcClient.Delivery.{send_all, Delivered, offline_durable}
use isales_telephony.GrpcClient.Memory.{newest, offline_memory, queued_frame_lost}
use isales_telephony.Base.{map}

abbrev defaults : Config
defaults = record {
  initial_backoff = 1000;
  max_backoff = 30000;
  backoff_factor = 2;
  memory_buffer_limit = 2;
}

abbrev client : Client ℕ ℕ
client = record {
  config = defaults;
  backend = memory [];
  outbound = [];
  connected = false;
  stopped = false;
  task_running = false;
  channel_open = false;
}

abbrev no_buffer : Option (Buffer ℕ)
no_buffer = none

new_runs : new defaults no_buffer ≡ ok client
unfolding new
new_runs = refl

abbrev attempts : List Attempt
attempts = failure ∷ failure ∷ record { ending = closed_by_server; stop_set = false } ∷ failure ∷ []

connect_loop_runs : connect_loop defaults attempts ≡ 1000 ∷ 2000 ∷ 1000 ∷ 2000 ∷ []
unfolding connect_loop loop_from turn
connect_loop_runs = refl

outbound_iter_runs :
    outbound_iter {M = ℕ} (frame 1 ∷ frame 2 ∷ close_stream ∷ frame 3 ∷ []) ≡ 1 ∷ 2 ∷ []
unfolding outbound_iter
outbound_iter_runs = refl

connect_loop_bounds_example : All (λ s. (1000 ≤ s) × (s ≤ 30000)) (connect_loop defaults attempts)
connect_loop_bounds_example = connect_loop_bounds defaults no_buffer attempts new_runs

defaults-IsAccepted : IsAccepted defaults
defaults-IsAccepted = omega arith

exponential_runs : exponential defaults 6 0 ≡ 1000 ∷ 2000 ∷ 4000 ∷ 8000 ∷ 16000 ∷ 30000 ∷ []
unfolding exponential
exponential_runs = refl

abbrev buffer : Buffer ℕ
buffer = record {
  capacity = 4;
  is_open = true;
  rows = record { seq = 3; payload = 7 } ∷ [];
  last_seq = 5;
  evicted_rows = 0;
}

buffer-IsOrdered : IsOrdered buffer
buffer-IsOrdered = omega arith

flush_durable-eq_example :
    flush_durable some 2 (buffer, frame 1 ∷ [])
    ≡ some (
      (
        record buffer { rows = stuck_rows some [] buffer.rows },
        frame 1 ∷ [] ++ map frame (frames_of some buffer.rows),
      ),
      none,
    )
flush_durable-eq_example = flush_durable-eq some buffer (frame 1 ∷ []) buffer-IsOrdered refl

abbrev same : ℕ → ℕ
same n = n

offline_durable_example :
    Delivered some
      (7 ∷ 8 ∷ 9 ∷ [])
      (send_all same (8 ∷ 9 ∷ []) (record client { backend = durable buffer }))
offline_durable_example =
    offline_durable same some (λ m. refl) client buffer (7 ∷ []) (8 ∷ 9 ∷ []) refl buffer-IsOrdered
      refl (refl, tt) (omega arith)

offline_memory_example :
    Delivered some (newest 2 (7 ∷ 8 ∷ 9 ∷ [])) (send_all same (7 ∷ 8 ∷ 9 ∷ []) client)
offline_memory_example = offline_memory same some client (7 ∷ 8 ∷ 9 ∷ []) refl

newest_runs : newest {M = ℕ} 2 (7 ∷ 8 ∷ 9 ∷ []) ≡ 8 ∷ 9 ∷ []
unfolding newest
newest_runs = refl

queued_frame_lost_example :
    (s r : Client ℕ ℕ) × (send same false 5 true (record client { connected = true }) ≡ ok s)
    × (s.outbound ≡ frame 5 ∷ [])
    × (open_stream some (end_stream s) ≡ ok r)
    × (r.outbound ≡ [])
    × (pending_buffer_size r ≡ 0)
queued_frame_lost_example =
    queued_frame_lost same some 5 true (record client { connected = true }) refl
