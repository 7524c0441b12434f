-- ===== src/Xray.antt =====
-- internal/adapter/xray/errors.go: how the errors of Xray's API become the panel's. The status code and the
-- text of an error are given by gRPC.
pub mod Retries
pub mod Tests
use Prim.Native.String.{String}
use xpanel.Prelude.{
  ℕ, Bool, true, false, not, ◌&&◌, ◌||◌, List, [], ◌∷◌, ◌++◌, if◌then◌else◌, leb, ltb, map, ◌+◌,
}
use xpanel.Prelude.Text.{Text, codes, text_eq}
use xpanel.Domain.Inbound.{contains_text}
use xpanel.Domain.Errors.{Result}
use xpanel.Ports.{
  ErrorKind, AdapterError, invalid_argument, incompatible_profile, instance_unavailable,
  deadline_exceeded, profile_not_found, user_already_exists, user_not_found, port_unavailable,
  inbound_already_exists, inbound_not_found, stats_not_found, upstream_rejected, internal,
}

-- The codes of gRPC that are told apart.
pub data Code : Type 0 where
  deadline_code unavailable_code invalid_code not_found_code already_exists_code : Code
  denied_code unauthenticated_code other_code : Code

-- An error of the API: its code, its text, and whether it is `context.DeadlineExceeded` itself.
pub record ApiError : Type 0 where
  pub code : Code
  pub message : Text
  pub is_deadline : Bool

-- `strings.ToLower` on the letters A to Z.
abbrev lower_code : ℕ → ℕ
lower_code c = if leb b'A' c && leb c b'Z' then c + 32 else c

abbrev lower : Text → Text
lower = map lower_code

abbrev mapped : ErrorKind → Bool → String → AdapterError
mapped kind retryable summary = record {
  kind = kind;
  retryable = retryable;
  safe_summary = summary;
}

-- `NotFound`, by the operation that met it.
unfoldable pub not_found_error : Text → AdapterError
not_found_error operation =
    if text_eq operation (codes "validate_template") || text_eq operation (codes "list_users")
    then mapped profile_not_found false "inbound was not found"
    else if text_eq operation (codes "read_traffic")
    then mapped stats_not_found false "Xray statistics were not found"
    else if text_eq operation (codes "remove_inbound") || text_eq operation (codes "list_inbounds")
    then mapped inbound_not_found false "inbound was not found"
    else mapped user_not_found false "Xray target was not found"

-- The cases on the text of the error.
unfoldable pub message_error : Text → Text → AdapterError
message_error operation message =
    if contains_text message (codes "address already in use")
    then mapped port_unavailable false "port is already in use on the node"
    else if contains_text message (codes "existing tag found")
    then mapped inbound_already_exists false "inbound tag already exists"
    else if contains_text message (codes "handler not found")
    then mapped inbound_not_found false "inbound was not found"
    else if contains_text message (codes "not enough information for making a decision")
        && text_eq operation (codes "remove_inbound")
    then mapped inbound_not_found false "inbound was not found"
    else if contains_text message (codes "not a usermanager")
    then mapped incompatible_profile false "inbound does not support dynamic users"
    else if contains_text message (codes "already exists")
    then mapped user_already_exists false "Xray user already exists"
    else if contains_text message (codes "not found")
    then mapped user_not_found false "Xray target was not found"
    else mapped internal true "Xray operation failed"

abbrev pub code_error : Text → Text → Code → AdapterError
code_error operation message deadline_code =
    mapped deadline_exceeded true "Xray operation timed out"
code_error operation message unavailable_code =
    mapped instance_unavailable true "Xray API is unavailable"
code_error operation message invalid_code =
    mapped invalid_argument false "Xray rejected invalid input"
code_error operation message not_found_code = not_found_error operation
code_error operation message already_exists_code =
    mapped user_already_exists false "Xray user already exists"
code_error operation message denied_code =
    mapped upstream_rejected false "Xray rejected the operation"
code_error operation message unauthenticated_code =
    mapped upstream_rejected false "Xray rejected the operation"
code_error operation message other_code = message_error operation (lower message)

-- `mapError`, of an error that is not nil.
unfoldable pub map_error : Text → ApiError → AdapterError
map_error operation e =
    if e.is_deadline
    then mapped deadline_exceeded true "Xray operation timed out"
    else code_error operation e.message e.code
