-- ===== src/Activation.antt =====
-- isales_telephony/ui/activation.py: one submission of the activation dialog, from the validation to
-- the restart of the cloud client. The wording of the messages is the parameter `message`.
pub mod Outcomes
mod Samples
use isales_telephony.Base.{
  ℕ, Bool, true, false, Option, none, some, List, [], ◌∷◌, ◌++◌, if◌then◌else◌, Text, strip,
  is_blank, Outcome, ok, err,
}
use isales_telephony.TrayState.{
  CloudLinkState, connected, disconnected, auth_rejected, EdgeStatus, StateBus, update,
}
use isales_telephony.EnvFile.{
  is_space, EnvFileError, validate_token, validate_endpoint, write_token_and_endpoint,
}

-- Why a submission fails; the texts are those of the exceptions.
pub data ActivationError : Type 0 where
  invalid : EnvFileError → ActivationError
  write_failed rejected : Text → ActivationError

-- `ActivationAttempt`
pub record ActivationAttempt : Type 0 where
  pub token : Text
  pub endpoint : Text
  pub error : Option ActivationError

-- What the controller works on, its log lines aside: the bus, the file of settings, and the log of the restarts of the
-- cloud client, each with its endpoint and its token.
pub record Desk : Type 0 where
  pub bus : StateBus
  pub file : Option Text
  pub restarts : List (Text × Text)

-- Of the surroundings: the class `\d`, the default endpoint, the wording, what writing the file and
-- restarting the client raise.
pub record Surroundings : Type 0 where
  pub is_decimal : ℕ → Bool
  pub default_endpoint : Text
  pub message : ActivationError → Text
  pub write_raises : Option Text
  pub restart_raises : Option Text

abbrev pub with_error : Option Text → EdgeStatus → EdgeStatus
with_error e s = record s { last_activation_error = e }

abbrev pub linked : CloudLinkState → Option Text → EdgeStatus → EdgeStatus
linked link e s = record s { cloud_link = link; last_activation_error = e }

abbrev pub attempted : Text → Text → Option ActivationError → ActivationAttempt
attempted token endpoint e = record { token = token; endpoint = endpoint; error = e }

-- the bus gets the message, and the attempt the error
unfoldable pub fail : Surroundings → Text → Text → ActivationError → Desk → ActivationAttempt × Desk
fail env token endpoint e d = (
  attempted token endpoint (some e),
  record d { bus = update (with_error (some (env.message e))) d.bus },
)

-- the bus behind the restarter of main_windows.py, where the client's `start` does not raise
abbrev pub reconnected : StateBus → StateBus
reconnected bus = update (λ s. record s { cloud_link = connected }) bus

abbrev pub after_restart :
    Surroundings → Text → Text → Option Text → Desk → ActivationAttempt × Desk
after_restart env token endpoint none d =
    (attempted token endpoint none, record d { bus = reconnected d.bus })
after_restart env token endpoint (some e) d = (
  attempted token endpoint (some (rejected e)),
  record d { bus = update (linked auth_rejected (some (env.message (rejected e)))) d.bus },
)

-- once the file is written
unfoldable pub restart : Surroundings → Text → Text → Text → Desk → ActivationAttempt × Desk
restart env token endpoint text d = after_restart env token endpoint env.restart_raises (record {
  bus = update (linked disconnected none) d.bus;
  file = some text;
  restarts = d.restarts ++ (endpoint, token) ∷ [];
})

-- the writing of the file, which validates once more and so does not raise an EnvFileError here; an
-- OSError leaves the file as it was
abbrev pub written :
    Surroundings
    → Text
    → Text
    → Outcome EnvFileError Text
    → Option Text
    → Desk
    → ActivationAttempt × Desk
written env token endpoint (err e) raises d = fail env token endpoint (invalid e) d
written env token endpoint (ok text) (some e) d = fail env token endpoint (write_failed e) d
written env token endpoint (ok text) none d = restart env token endpoint text d

abbrev pub submit :
    Surroundings
    → Text
    → Text
    → Option EnvFileError
    → Option EnvFileError
    → Desk
    → ActivationAttempt × Desk
submit env token endpoint (some e) endpoint_error d = fail env token endpoint (invalid e) d
submit env token endpoint none (some e) d = fail env token endpoint (invalid e) d
submit env token endpoint none none d =
    written env token endpoint (write_token_and_endpoint env.is_decimal token endpoint d.file)
      env.write_raises d

abbrev pub or_default : Text → Text → Text
or_default default_endpoint e = if is_blank e then default_endpoint else e

-- `process_submission`
unfoldable pub process_submission : Surroundings → Text → Text → Desk → ActivationAttempt × Desk
process_submission env token endpoint d =
    let t = strip is_space token in
    let e = or_default env.default_endpoint (strip is_space endpoint) in
    submit env t e (validate_token t) (validate_endpoint env.is_decimal e) d
