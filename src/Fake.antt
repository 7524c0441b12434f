-- ===== src/Fake.antt =====
-- internal/adapter/xray/fake/fake.go: the in-memory Xray node that stands for the real one in the
-- repository's tests. Its hooks, delays, templates and traffic counters are left out.
pub mod Clients
pub mod Contract
pub mod LastClient
pub mod Tests
use Prim.Native.String.{String}
use xpanel.Prelude.{
  ℕ, ◌+◌, Bool, true, false, not, ◌&&◌, ◌||◌, List, [], ◌∷◌, ◌++◌, map, Option, none, some,
  if◌then◌else◌, ◌==◌, count_if, length, any,
}
use xpanel.Prelude.Text.{Text, codes, text_eq}
use xpanel.Prelude.Assoc.{Table, lookup, insert, erase, has_key}
use xpanel.Domain.Inbound.{is_panel_namespace, rotation_safety_id}
use xpanel.Ports.{
  ErrorKind, invalid_argument, instance_unavailable, port_unavailable, inbound_already_exists,
  inbound_not_found, user_not_found, last_managed_client, CallError, adapter_error, Reply, done,
  failed, RemoteInbound, RemoteUser, UserKind, managed, external, CreateInboundCommand,
  AddUserCommand, RemoveUserCommand, Adapter,
}

-- The operations that failures are injected into.
pub data Operation : Type 0 where
  create_inbound_op remove_inbound_op add_user_op remove_user_op : Operation

-- A failure to inject: the error, and whether the change is made all the same. Without an error (a nil
-- `Err`) the call answers success.
pub record Failure : Type 0 where
  pub error : Option CallError
  pub applied : Bool

pub record Inbound : Type 0 where
  pub tag : Text
  pub listen_address : Text
  pub port : ℕ
  pub method : Text
  pub server_key : Text

pub record Call : Type 0 where
  pub operation : Text
  pub inbound_tag : Text
  pub statistics_id : Text
  pub port : ℕ

pub record Node : Type 0 where
  pub inbounds : Table Inbound
  pub users : Table (Table RemoteUser)
  pub failures : Operation → List Failure
  pub calls : List Call
  pub available : Bool
  pub external_ports : List ℕ

abbrev pub same_operation : Operation → Operation → Bool
same_operation create_inbound_op create_inbound_op = true
same_operation remove_inbound_op remove_inbound_op = true
same_operation add_user_op add_user_op = true
same_operation remove_user_op remove_user_op = true
same_operation _ _ = false

abbrev pub head : List Failure → Option Failure
head [] = none
head (f ∷ fs) = some f

abbrev pub tail : List Failure → List Failure
tail [] = []
tail (f ∷ fs) = fs

-- `failure`: takes the next failure of the operation.
unfoldable pub take_failure : Operation → Node → Node × Option Failure
take_failure o n = (
  record n { failures = λ p. if same_operation p o then tail (n.failures p) else n.failures p },
  head (n.failures o),
)

unfoldable pub error_of : ErrorKind → String → CallError
error_of kind summary =
    adapter_error (record { kind = kind; retryable = false; safe_summary = summary })

-- `guardPanelInbound`, which gives this error outside the panel's namespace.
unfoldable pub outside_error : CallError
unfolding error_of
outside_error =
    error_of invalid_argument "refusing to mutate an inbound outside the panel namespace"

unfoldable pub unavailable_error : CallError
unavailable_error = adapter_error (record {
  kind = instance_unavailable;
  retryable = true;
  safe_summary = "fake Xray unavailable";
})

unfoldable pub record_call : Text → Text → Text → ℕ → Node → Node
record_call operation tag id port n =
    let call : Call = record {
      operation = operation;
      inbound_tag = tag;
      statistics_id = id;
      port = port;
    } in
    record n { calls = n.calls ++ call ∷ [] }

abbrev pub or_empty : Option (Table RemoteUser) → Table RemoteUser
or_empty none = []
or_empty (some clients) = clients

-- `a.Users[tag]`: a missing map reads as an empty one.
unfoldable pub users_of : Text → Node → Table RemoteUser
users_of tag n = or_empty (lookup tag n.users)

abbrev pub answer_of : Option CallError → Reply (Unit {0})
answer_of none = done tt
answer_of (some e) = failed e

-- What an injected failure leaves of the reply.
abbrev pub outcome : Option Failure → Reply (Unit {0}) → Reply (Unit {0})
outcome none reply = reply
outcome (some f) reply = answer_of f.error

-- `!fails || failure.Applied`.
abbrev pub applies : Option Failure → Bool
applies none = true
applies (some f) = f.applied

abbrev pub is_none : Option Failure → Bool
is_none none = true
is_none (some _) = false

unfoldable pub list_inbounds : Node → Node × Reply (List RemoteInbound)
unfolding record_call users_of
list_inbounds before =
    let n = record_call (codes "list_inbounds") [] [] 0 before in
    if not n.available then (n, failed unavailable_error) else (
      n,
      done (
          map
            (λ e. record {
              inbound_tag = e.0;
              panel_managed = is_panel_namespace e.0;
              user_count = length (users_of e.0 n);
            })
            n.inbounds),
    )

unfoldable pub list_users : Text → Node → Node × Reply (List RemoteUser)
unfolding record_call users_of
list_users tag before =
    let n = record_call (codes "list_users") tag [] 0 before in
    if not n.available
    then (n, failed unavailable_error)
    else (n, done (map (λ e. e.1) (users_of tag n)))

unfoldable pub register : CreateInboundCommand → Node → Node
register c n =
    let inbound : Inbound = record {
      tag = c.inbound_tag;
      listen_address = c.listen_address;
      port = c.port;
      method = c.method;
      server_key = c.server_key;
    } in
    let client : RemoteUser = record {
      statistics_id = c.client_statistics_id;
      credential_version = c.client_credential_version;
      present = true;
      kind = managed;
    } in
    record n {
      inbounds = insert c.inbound_tag inbound n.inbounds;
      users = insert c.inbound_tag ((c.client_statistics_id, client) ∷ []) n.users;
    }

-- A port that another process holds fails the call, and the inbound is registered all the same.
unfoldable pub create_inbound : CreateInboundCommand → Node → Node × Reply (Unit {0})
unfolding record_call take_failure register
create_inbound c before =
    let n =
      record_call (codes "create_inbound") c.inbound_tag c.client_statistics_id c.port before in
    if not n.available
    then (n, failed unavailable_error)
    else if has_key c.inbound_tag n.inbounds
    then (n, failed (error_of inbound_already_exists "inbound tag already exists"))
    else let (taken, failure) = take_failure create_inbound_op n in
      let occupied = any (λ p. p == c.port) n.external_ports in
      let after = if applies failure || occupied then register c taken else taken in
      (
        after,
        if occupied
            then failed (error_of port_unavailable "port is already in use on the node")
            else outcome failure (done tt),
      )

unfoldable pub remove_inbound : Text → Node → Node × Reply (Unit {0})
unfolding record_call take_failure
remove_inbound tag before =
    let n = record_call (codes "remove_inbound") tag [] 0 before in
    if not n.available
    then (n, failed unavailable_error)
    else if not (is_panel_namespace tag)
    then (
      n,
      failed
          (error_of invalid_argument "refusing to remove an inbound outside the panel namespace"),
    )
    else let (taken, failure) = take_failure remove_inbound_op n in
      let after =
        if applies failure
        then record taken { inbounds = erase tag taken.inbounds; users = erase tag taken.users }
        else taken in
      (
        after,
        outcome failure (
            if has_key tag n.inbounds
            then done tt
            else failed (error_of inbound_not_found "inbound was not found")),
      )

abbrev pub new_client : AddUserCommand → RemoteUser
new_client c = record {
  statistics_id = c.statistics_id;
  credential_version = c.credential_version;
  present = true;
  kind = managed;
}

unfoldable pub add_client : AddUserCommand → Node → Node
unfolding users_of
add_client c n = record n {
  users =
      insert c.inbound_tag (insert c.statistics_id (new_client c) (users_of c.inbound_tag n))
        n.users;
}

-- `a.Users[tag]` is made if it is missing.
unfoldable pub ensure_users : Text → Node → Node
ensure_users tag n = if has_key tag n.users then n else record n { users = insert tag [] n.users }

unfoldable pub add_user : AddUserCommand → Node → Node × Reply (Unit {0})
unfolding record_call take_failure add_client ensure_users
add_user c before =
    let n = record_call (codes "add_user") c.inbound_tag c.statistics_id 0 before in
    if not n.available
    then (n, failed unavailable_error)
    else if not (is_panel_namespace c.inbound_tag)
    then (n, failed outside_error)
    else if not (has_key c.inbound_tag n.inbounds)
    then (n, failed (error_of inbound_not_found "inbound was not found"))
    else let (taken, failure) = take_failure add_user_op n in
      let ready = ensure_users c.inbound_tag taken in
      (if applies failure then add_client c ready else ready, outcome failure (done tt))

-- The present clients, other than the one to remove, that are the inbound's expected identity or its
-- transition identity.
unfoldable pub survivors : RemoveUserCommand → Table RemoteUser → ℕ
survivors c = count_if λ e.
    not (text_eq e.0 c.statistics_id)
    && e.1.present
    && (text_eq e.0 c.expected_statistics_id
        || text_eq e.0 (rotation_safety_id c.expected_statistics_id))

unfoldable pub remove_client : RemoveUserCommand → Node → Node
remove_client c n = elim (lookup c.inbound_tag n.users) [
  | none ↦ n
  | some clients ↦ record n { users = insert c.inbound_tag (erase c.statistics_id clients) n.users }
]

unfoldable pub remove_user : RemoveUserCommand → Node → Node × Reply (Unit {0})
unfolding record_call take_failure survivors remove_client users_of
remove_user c before =
    let n = record_call (codes "remove_user") c.inbound_tag c.statistics_id 0 before in
    if not n.available
    then (n, failed unavailable_error)
    else if not (is_panel_namespace c.inbound_tag)
    then (n, failed outside_error)
    else if text_eq c.expected_statistics_id []
    then (
      n,
      failed (
          error_of invalid_argument "remove_user requires the inbound's expected managed identity"),
    )
    else let (taken, failure) = take_failure remove_user_op n in
      let clients = users_of c.inbound_tag taken in
      let exists = has_key c.inbound_tag n.inbounds in
      if exists && is_none failure && has_key c.statistics_id clients && survivors c clients == 0
      then (
        taken,
        failed (
            error_of last_managed_client
              "refusing to remove the last managed client of an inbound"),
      )
      else if not exists && is_none failure
      then (taken, failed (error_of inbound_not_found "inbound was not found"))
      else (
        if applies failure then remove_client c taken else taken,
        outcome failure (
            if has_key c.statistics_id clients
            then done tt
            else failed (error_of user_not_found "user not found")),
      )

-- `Restart`: the inbounds and their clients are gone.
unfoldable pub restart : Node → Node
restart n = record n { inbounds = []; users = [] }

abbrev pub node_adapter : Adapter Node
node_adapter = record {
  list_inbounds = list_inbounds;
  create_inbound = create_inbound;
  remove_inbound = remove_inbound;
  list_users = list_users;
  add_user = add_user;
  remove_user = remove_user;
}
