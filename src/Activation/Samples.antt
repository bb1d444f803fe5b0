-- ===== src/Activation/Samples.antt =====
-- A submission that the cloud rejects.
use isales_telephony.Base.{◌≡◌, refl, none, some, [], ◌∷◌, leb, ◌&&◌, codes}
use isales_telephony.TrayState.{awaiting_activation, update}
use isales_telephony.EnvFile.{
  read_env, validate_token, validate_endpoint, is_endpoint, is_host, is_port,
  write_token_and_endpoint, updated, body, set,
}
use isales_telephony.Activation.{Desk, Surroundings, process_submission, restart}

abbrev env : Surroundings
env = record {
  is_decimal = λ c. leb 48 c && leb c 57;
  default_endpoint = codes "isales.example.com:443";
  message = λ e. codes "failed";
  write_raises = none;
  restart_raises = some (codes "denied");
}

abbrev desk : Desk
desk = record {
  bus = record {
    status = record {
      cloud_link = awaiting_activation;
      modems = [];
      recent_log_lines = [];
      last_activation_error = none;
    };
    subscribers = 1 ∷ [];
    delivered = [];
  };
  file = none;
  restarts = [];
}

submission_runs :
    (process_submission env (codes "0123456789abcdef ") [] desk).1.file
    ≡ some (
        codes
          "ISALES_EDGE_DEVICE_TOKEN=0123456789abcdef\nISALES_CLOUD_GRPC_ENDPOINT=isales.example.com:443\n")
unfolding process_submission restart update validate_token validate_endpoint is_endpoint is_host
    is_port write_token_and_endpoint updated body set read_env
submission_runs = refl
