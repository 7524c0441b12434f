-- ===== src/Fake/Contract.antt =====
-- internal/adapter/xray/fake/fake.go, seen through the observations of Ports/Contract.
pub mod Cases
pub mod Laws
pub mod Adapter
use xpanel.Prelude.{◌≡◌, ◌≢◌, Bool, Option, none, some, true, All}
use xpanel.Prelude.Text.{Text}
use xpanel.Prelude.Assoc.{has_key}
use xpanel.Ports.{CallError, adapter_error, user_already_exists, inbound_not_found}
use xpanel.Ports.Contract.{View}
use xpanel.Fake.{Node, Failure, Operation, users_of}
use xpanel.Fake.Clients.{holds_client, IsOwnKey}

-- An injected error is one of the transport: it does not claim to know what the node holds.
abbrev pub IsHonestError : CallError → Type 0
IsHonestError (adapter_error e) = (e.kind ≢ user_already_exists) × (e.kind ≢ inbound_not_found)
IsHonestError _ = Unit {0}

-- An injected answer of success is given only where the change is made.
abbrev pub IsHonestAnswer : Option CallError → Bool → Type 0
IsHonestAnswer none applied = applied ≡ true
IsHonestAnswer (some e) applied = IsHonestError e

abbrev pub IsHonest : Failure → Type 0
IsHonest f = IsHonestAnswer f.error f.applied

abbrev pub HonestFailures : Node → Type 0
HonestFailures n = (o : Operation) → All IsHonest (n.failures o)

abbrev pub OwnKeys : Node → Type 0
OwnKeys n = All (λ e. All IsOwnKey e.1) n.users

abbrev pub node_view : View Node
node_view = record {
  Sane = λ n. OwnKeys n × HonestFailures n;
  registered = λ n tag. has_key tag n.inbounds;
  carries = λ n tag id. holds_client id (users_of tag n);
}
