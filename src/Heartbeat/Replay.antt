-- ===== src/Heartbeat/Replay.antt =====
-- Heartbeats of grpc_heartbeat.py while the stream is down, and the reconnect.
use isales_telephony.Base.{
  ℕ, ◌+◌, ◌≤◌, ◌≡◌, refl, sym, true, false, Option, some, List, [], ◌∷◌, ◌++◌, Outcome, ok, err,
  map, length, subst,
}
use isales_telephony.EventBuffer.{Buffer}
use isales_telephony.EventBuffer.Invariant.{IsOrdered}
use isales_telephony.GrpcClient.{ClientError, Client, durable, send}
use isales_telephony.GrpcClient.Delivery.{send_all, then_send, Holds, Delivered, offline_durable}
use isales_telephony.Heartbeat.{Reading, kept, beat, grpc_heartbeat_loop}

module _ {P M : Type 0} (serialize : M → P) (build : ℕ → ℕ → Option ℕ → M) (device_id : ℕ) where
  -- a turn in which SQLite does not raise
  abbrev pub sound_reading : ℕ × Option ℕ → Reading
  sound_reading (status, signal) = record {
    status = status;
    signal_strength = signal;
    fails = false;
  }

  abbrev pub heartbeat : ℕ × Option ℕ → M
  heartbeat (status, signal) = build device_id status signal

  sent_on :
      (o : Outcome ClientError (Client P M)) (ms : List M) (c d : Client P M)
      → then_send serialize (send_all serialize ms) o ≡ ok d
      → send_all serialize ms (kept serialize build c o) ≡ ok d
  sent_on (ok x) ms c d e = e
  sent_on (err x) ms c d e = cc

  -- where no send of the frames raises, the loop sends just them
  loop-sends :
      (rs : List (ℕ × Option ℕ)) (c d : Client P M)
      → send_all serialize (map heartbeat rs) c ≡ ok d
      → (grpc_heartbeat_loop serialize build device_id (map sound_reading rs) c).0 ≡ d
  unfolding grpc_heartbeat_loop send_all beat
  loop-sends [] c d e = cc
  loop-sends (r ∷ []) c d e =
      let last = sent_on (send serialize false (heartbeat r) false c) [] c d e in cc
  loop-sends (r ∷ q ∷ rs) c d e =
      loop-sends (q ∷ rs) (kept serialize build c (send serialize false (heartbeat r) false c)) d
        (sent_on (send serialize false (heartbeat r) false c) (map heartbeat (q ∷ rs)) c d e)

-- A heartbeat loop whose stream is down, with a durable buffer in order that has room for its
-- heartbeats, and no fault of SQLite: none is dropped. The next accepted stream gets all of them, in
-- order and once, behind what the buffer held, and the buffer is then empty.
pub heartbeats_replayed :
    {P M : Type 0} (serialize : M → P) (parse : P → Option M)
    → ((m : M) → parse (serialize m) ≡ some m)
    → (build : ℕ → ℕ → Option ℕ → M) (device_id : ℕ) (c : Client P M) (b : Buffer P) (held : List M)
      (rs : List (ℕ × Option ℕ))
    → c.connected ≡ false
    → IsOrdered b
    → b.is_open ≡ true
    → Holds parse b.rows held
    → length b.rows + length (map (heartbeat serialize build device_id) rs) ≤ b.capacity
    → Delivered parse (held ++ map (heartbeat serialize build device_id) rs) (
        ok
          (grpc_heartbeat_loop serialize build device_id
            (map (sound_reading serialize build device_id) rs)
            (record c { backend = durable b })).0)
heartbeats_replayed serialize parse inverse build device_id c b held rs off h o holds fits =
    let ms = map (heartbeat serialize build device_id) rs in
    let all = offline_durable serialize parse inverse c b held ms off h o holds fits in
    subst (λ d. Delivered parse (held ++ ms) (ok d))
      (sym (
        loop-sends serialize build device_id rs (record c { backend = durable b }) all.client
          all.sent))
      (record {
        client = all.client;
        sent = refl;
        reconnected = all.reconnected;
        reopened = all.reopened;
        queued = all.queued;
        drained = all.drained;
        is_up = all.is_up;
      })
