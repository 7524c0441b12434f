-- ===== src/Ports.antt =====
-- internal/ports/xray.go: what the business layer knows of Xray. An adapter is a record of operations on
-- the state of the node, as the Go interface is; an error is a value.
pub mod Contract
use Prim.Native.String.{String}
use xpanel.Prelude.{ℕ, Bool, true, false, List, Option}
use xpanel.Prelude.Text.{Text}

-- The `Error...` constants.
pub data ErrorKind : Type 0 where
  invalid_argument unsupported_protocol incompatible_profile instance_unavailable : ErrorKind
  deadline_exceeded profile_not_found user_already_exists user_not_found : ErrorKind
  port_unavailable inbound_already_exists inbound_not_found last_managed_client : ErrorKind
  stats_not_found version_mismatch upstream_rejected internal : ErrorKind

pub ErrorKind-discrete : Discrete ErrorKind
ErrorKind-discrete = hlevel

pub record AdapterError : Type 0 where
  pub kind : ErrorKind
  pub retryable : Bool
  pub safe_summary : String

-- An error of a call: an `*AdapterError`, `context.DeadlineExceeded`, or any other.
pub data CallError : Type 0 where
  adapter_error : AdapterError → CallError
  context_deadline : CallError
  other_error : CallError

pub data Reply {ℓ} (A : Type ℓ) : Type ℓ where
  done : A → Reply A
  failed : CallError → Reply A

pub record RemoteInbound : Type 0 where
  pub inbound_tag : Text
  pub panel_managed : Bool
  pub user_count : ℕ

pub data UserKind : Type 0 where
  managed external : UserKind

pub record RemoteUser : Type 0 where
  pub statistics_id : Text
  pub credential_version : ℕ
  pub present : Bool
  pub kind : UserKind

-- `Network` and `OperationID` are passed on unread, and left out.
pub record CreateInboundCommand : Type 0 where
  pub inbound_tag : Text
  pub listen_address : Text
  pub port : ℕ
  pub method : Text
  pub server_key : Text
  pub client_statistics_id : Text
  pub client_credential_version : ℕ
  pub client_user_key : Text

pub record AddUserCommand : Type 0 where
  pub inbound_tag : Text
  pub statistics_id : Text
  pub credential_version : ℕ
  pub user_key : Text

pub record RemoveUserCommand : Type 0 where
  pub inbound_tag : Text
  pub statistics_id : Text
  pub expected_statistics_id : Text

-- The six operations that change or list inbounds and clients.
pub record Adapter (S : Type 0) : Type 0 where
  pub list_inbounds : S → S × Reply (List RemoteInbound)
  pub create_inbound : CreateInboundCommand → S → S × Reply (Unit {0})
  pub remove_inbound : Text → S → S × Reply (Unit {0})
  pub list_users : Text → S → S × Reply (List RemoteUser)
  pub add_user : AddUserCommand → S → S × Reply (Unit {0})
  pub remove_user : RemoveUserCommand → S → S × Reply (Unit {0})
