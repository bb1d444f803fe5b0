-- ===== src/Heartbeat/Samples.antt =====
-- Heartbeats on small inputs.
use isales_telephony.Base.{
  ℕ, ◌≡◌, refl, Option, false, none, some, true, List, arith, map, ok, [], ◌∷◌,
}
use isales_telephony.GrpcClient.{Client, memory, durable, send, queue_in, push_bounded}
use isales_telephony.EventBuffer.{Buffer}
use isales_telephony.EventBuffer.Invariant.{IsOrdered}
use isales_telephony.GrpcClient.Delivery.{Delivered}
use isales_telephony.Heartbeat.Replay.{sound_reading, heartbeats_replayed}
use isales_telephony.Heartbeat.{Reading, beat, grpc_heartbeat_loop, post_all, heartbeat_loop}

abbrev reading : ℕ → Reading
reading status = record { status = status; signal_strength = none; fails = false }

abbrev client : Client ℕ ℕ
client = record {
  config = record {
    initial_backoff = 1000;
    max_backoff = 30000;
    backoff_factor = 2;
    memory_buffer_limit = 2;
  };
  backend = memory [];
  outbound = [];
  connected = false;
  stopped = false;
  task_running = false;
  channel_open = false;
}

-- while the stream is down, the last heartbeats wait in the buffer
beats_wait :
    grpc_heartbeat_loop
      (λ m. m)
      (λ _ status _. status)
      3
      (reading 1 ∷ reading 2 ∷ reading 4 ∷ [])
      client
    ≡ (record client { backend = memory (2 ∷ 4 ∷ []) }, 2)
unfolding grpc_heartbeat_loop beat send queue_in push_bounded
beats_wait = refl

posts_run :
    heartbeat_loop ((3 ∷ 5 ∷ [], λ _. some 9) ∷ ([], λ _. none) ∷ (5 ∷ [], λ _. none) ∷ [])
    ≡ (3, some 9) ∷ (5, some 9) ∷ (5, none) ∷ []
unfolding heartbeat_loop post_all
posts_run = refl

abbrev same : ℕ → ℕ
same n = n

abbrev status_frame : ℕ → ℕ → Option ℕ → ℕ
status_frame device_id status signal = status

abbrev buffer : Buffer ℕ
buffer = record {
  capacity = 4;
  is_open = true;
  rows = record { seq = 3; payload = 7 } ∷ [];
  last_seq = 5;
  evicted_rows = 0;
}

buffer-IsOrdered : IsOrdered buffer
buffer-IsOrdered = omega arith

abbrev statuses : List (ℕ × Option ℕ)
statuses = (1, none) ∷ (2, some 20) ∷ []

heartbeats_replayed_example : Delivered some (7 ∷ 1 ∷ 2 ∷ []) (
    ok
      (grpc_heartbeat_loop same status_frame 3
        (map (sound_reading same status_frame 3) statuses)
        (record client { backend = durable buffer })).0)
heartbeats_replayed_example =
    heartbeats_replayed same some (λ m. refl) status_frame 3 client buffer (7 ∷ []) statuses refl
      buffer-IsOrdered refl (refl, tt) (omega arith)
