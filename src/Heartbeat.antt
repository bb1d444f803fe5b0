-- ===== src/Heartbeat.antt =====
-- isales_telephony/edge/grpc_heartbeat.py, over the client of GrpcClient, and
-- isales_telephony/modem_controller/heartbeat.py. A loop runs over the readings of its turns, as many
-- as `iterations`, or as there have been so far where that is None. `build` makes the protobuf frame.
pub mod Replay
mod Samples
use isales_telephony.Base.{
  ℕ, Bool, Option, none, some, List, [], ◌∷◌, ◌++◌, ◌+◌, false, Outcome, ok, err,
}
use isales_telephony.GrpcClient.{ClientError, Client, send}

-- What one turn reads: the device's status, its signal strength (`none` for -1, without a provider),
-- and whether SQLite raises in the send.
pub record Reading : Type 0 where
  pub status : ℕ
  pub signal_strength : Option ℕ
  pub fails : Bool

module _ {P M : Type 0} (serialize : M → P) (build : ℕ → ℕ → Option ℕ → M) where
  -- every exception of `send` is caught
  abbrev pub kept : Client P M → Outcome ClientError (Client P M) → Client P M
  kept c (ok d) = d
  kept c (err e) = c

  -- one turn
  unfoldable pub beat : ℕ → Reading → Client P M → Client P M
  beat device_id r c =
      kept c (send serialize r.fails (build device_id r.status r.signal_strength) false c)

  -- `grpc_heartbeat_loop`, with how often it has slept: not behind the last turn
  unfoldable pub grpc_heartbeat_loop : ℕ → List Reading → Client P M → Client P M × ℕ
  grpc_heartbeat_loop device_id [] c = (c, 0)
  grpc_heartbeat_loop device_id (r ∷ []) c = (beat device_id r c, 0)
  grpc_heartbeat_loop device_id (r ∷ q ∷ more) c =
      let rest = grpc_heartbeat_loop device_id (q ∷ more) (beat device_id r c) in
      (rest.0, rest.1 + 1)

-- a heartbeat that was posted: the device, and the signal strength if there is one
abbrev pub Post : Type 0
Post = ℕ × Option ℕ

-- the devices of one turn; an exception of the poster is caught, so each is posted
unfoldable pub post_all : (ℕ → Option ℕ) → List ℕ → List Post
post_all signal_strength [] = []
post_all signal_strength (device_id ∷ more) =
    (device_id, signal_strength device_id) ∷ post_all signal_strength more

-- `heartbeat_loop`: `device_ids` and the provider are asked in each turn
unfoldable pub heartbeat_loop : List (List ℕ × (ℕ → Option ℕ)) → List Post
heartbeat_loop [] = []
heartbeat_loop ((device_ids, signal_strength) ∷ turns) =
    post_all signal_strength device_ids ++ heartbeat_loop turns
