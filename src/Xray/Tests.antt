-- ===== src/Xray/Tests.antt =====
-- An occupied port, as the API reports it.
use xpanel.Prelude.{◌≡◌, false}
use xpanel.Prelude.Text.{codes}
use xpanel.Xray.{ApiError, other_code, map_error}
use xpanel.Xray.Retries.{is_transient, map_error_retryable}

abbrev occupied : ApiError
occupied = record {
  code = other_code;
  message = codes "listen tcp: Address already in use";
  is_deadline = false;
}

map_error_retryable_example :
    (map_error (codes "create_inbound") occupied).retryable
    ≡ is_transient (map_error (codes "create_inbound") occupied).kind
map_error_retryable_example = map_error_retryable (codes "create_inbound") occupied
