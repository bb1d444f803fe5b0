-- ===== src/Activation/Outcomes.antt =====
-- How a submission of activation.py ends.
use isales_telephony.Base.{◌≡◌, Option, none, some, [], ◌∷◌, ◌++◌, Text, ok}
use isales_telephony.TrayState.{connected, auth_rejected}
use isales_telephony.EnvFile.Rewriting.{IsRewritten}
use isales_telephony.Activation.{
  ActivationError, invalid, write_failed, rejected, ActivationAttempt, Desk, Surroundings,
}

-- The new file, where there is one.
abbrev pub FileOf : ActivationAttempt → Option Text → Option Text → Type 0
FileOf a old none = ⊥
FileOf a old (some text) = IsRewritten a.token a.endpoint old (ok text)

-- The file, the restarts, and of the bus the link and the modems are as they were; the message is new.
pub record IsRefused (env : Surroundings) (d : Desk) (e : ActivationError) (t : Desk) : Type 0 where
  pub file : t.file ≡ d.file
  pub restarts : t.restarts ≡ d.restarts
  pub modems : t.bus.status.modems ≡ d.bus.status.modems
  pub link : t.bus.status.cloud_link ≡ d.bus.status.cloud_link
  pub message : t.bus.status.last_activation_error ≡ some (env.message e)

-- The settings are written, and the client is restarted with them.
pub record IsSubmitted (d : Desk) (a : ActivationAttempt) (t : Desk) : Type 0 where
  pub file : FileOf a d.file t.file
  pub restarts : t.restarts ≡ d.restarts ++ (a.endpoint, a.token) ∷ []

-- What an attempt has done, by its error.
abbrev pub IsProcessed :
    Surroundings → Desk → ActivationAttempt → Option ActivationError → Desk → Type 0
IsProcessed env d a none t =
    IsSubmitted d a t
    × (t.bus.status.cloud_link ≡ connected)
    × (t.bus.status.last_activation_error ≡ none)
IsProcessed env d a (some (invalid e)) t = IsRefused env d (invalid e) t
IsProcessed env d a (some (write_failed e)) t = IsRefused env d (write_failed e) t
IsProcessed env d a (some (rejected e)) t =
    IsSubmitted d a t
    × (t.bus.status.cloud_link ≡ auth_rejected)
    × (t.bus.status.last_activation_error ≡ some (env.message (rejected e)))

abbrev pub Processed : Surroundings → Desk → ActivationAttempt × Desk → Type 0
Processed env d (a, t) = IsProcessed env d a a.error t
