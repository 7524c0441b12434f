-- ===== src/Worker/Rotate.antt =====
-- internal/worker/synchronizer.go, `rotateWithinInbound`: the change of a client's key inside its inbound,
-- which a transition client guards, in four steps.
use xpanel.Prelude.{Bool, true, false, not, ◌&&◌, ◌||◌, List, if◌then◌else◌, any}
use xpanel.Prelude.Text.{Text, text_eq}
use xpanel.Domain.Inbound.{rotation_safety_id}
use xpanel.Ports.{
  ErrorKind, user_already_exists, user_not_found, CallError, Reply, done, failed, RemoteUser,
  AddUserCommand, RemoveUserCommand, Adapter,
}
use xpanel.Worker.World.{SyncWork, Options, M, ◌>>=◌, ◌>>◌, leave, rpc, fence}
use xpanel.Worker.Ending.{
  describe, is_unavailable, is_inbound_not_found, confirm, retry, retry_later, carries_client,
}
use xpanel.Worker.Create.{or_fail, create_dedicated_inbound, holds}

abbrev pub is_user_already_exists : ErrorKind → Bool
is_user_already_exists user_already_exists = true
is_user_already_exists _ = false

abbrev pub is_user_not_found : ErrorKind → Bool
is_user_not_found user_not_found = true
is_user_not_found _ = false

-- Whether a present client of that name is in the answer of `ListUsers`.
abbrev pub listed : Text → List RemoteUser → Bool
listed id = any λ u. text_eq u.statistics_id id && u.present

abbrev pub add_command : SyncWork → Text → Text → AddUserCommand
add_command work id key = record {
  inbound_tag = work.inbound.inbound_tag;
  statistics_id = id;
  credential_version = work.credential_version;
  user_key = key;
}

abbrev pub remove_command : SyncWork → Text → RemoveUserCommand
remove_command work id = record {
  inbound_tag = work.inbound.inbound_tag;
  statistics_id = id;
  expected_statistics_id = work.statistics_id;
}

abbrev pub safety_id : SyncWork → Text
safety_id work = rotation_safety_id work.statistics_id

module _ {S : Type 0} (a : Adapter S) (options : Options) (work : SyncWork) where
  -- `rotationPending`.
  unfoldable pub rotation_pending : M S (Unit {0})
  rotation_pending = leave (retry_later options work)

  -- Step 4: the transition client goes.
  unfoldable pub on_safety_removed : Reply (Unit {0}) → M S (Unit {0})
  on_safety_removed (done _) = leave (confirm options work true work.credential_version)
  on_safety_removed (failed cause) =
      let kind = (describe cause).0 in
      if not (is_user_not_found kind) && not (is_inbound_not_found kind)
      then rotation_pending
      else leave (confirm options work true work.credential_version)

  unfoldable pub remove_safety : M S (Unit {0})
  remove_safety = do
    fence options work
    reply ← rpc (a.remove_user (remove_command work (safety_id work)))
    on_safety_removed reply

  -- Step 3: the client with the new key is added. An uncertain result is read back.
  unfoldable pub check_new : M S (Unit {0})
  check_new = do
    fence options work
    healthy ← carries_client a work.inbound.inbound_tag work.statistics_id
    if holds healthy then remove_safety else rotation_pending

  unfoldable pub on_new_added : Reply (Unit {0}) → M S (Unit {0})
  on_new_added (done _) = remove_safety
  on_new_added (failed cause) =
      let (kind, retryable) = describe cause in
      if is_user_already_exists kind
      then remove_safety
      else if is_inbound_not_found kind
      then create_dedicated_inbound a options work
      else if retryable && not (is_unavailable kind)
      then check_new
      else rotation_pending

  unfoldable pub add_new : M S (Unit {0})
  add_new = do
    key ← or_fail a options work (options.decrypt work.credential_key)
    fence options work
    reply ← rpc (a.add_user (add_command work work.statistics_id key))
    on_new_added reply

  -- Step 2: the client with the old key goes.
  unfoldable pub on_old_removed : Reply (Unit {0}) → M S (Unit {0})
  on_old_removed (done _) = add_new
  on_old_removed (failed cause) =
      let kind = (describe cause).0 in
      if is_inbound_not_found kind
      then create_dedicated_inbound a options work
      else if is_user_not_found kind
      then add_new
      else leave (retry options work cause)

  unfoldable pub remove_old : Bool → M S (Unit {0})
  remove_old false = add_new
  remove_old true = do
    fence options work
    reply ← rpc (a.remove_user (remove_command work work.statistics_id))
    on_old_removed reply

  -- Step 1: the transition client is put in place.
  unfoldable pub check_safety : Bool → CallError → M S (Unit {0})
  check_safety present cause = do
    fence options work
    added ← carries_client a work.inbound.inbound_tag (safety_id work)
    if holds added then remove_old present else leave (retry options work cause)

  unfoldable pub on_safety_added : Bool → Reply (Unit {0}) → M S (Unit {0})
  on_safety_added present (done _) = remove_old present
  on_safety_added present (failed cause) =
      let (kind, retryable) = describe cause in
      if is_user_already_exists kind
      then remove_old present
      else if is_inbound_not_found kind
      then create_dedicated_inbound a options work
      else if not retryable || is_unavailable kind
      then leave (retry options work cause)
      else check_safety present cause

  unfoldable pub add_safety : Bool → M S (Unit {0})
  add_safety present = do
    key ← or_fail a options work (options.generate_user_key work.template.method)
    fence options work
    reply ← rpc (a.add_user (add_command work (safety_id work) key))
    on_safety_added present reply

  unfoldable pub on_listed : Reply (List RemoteUser) → M S (Unit {0})
  on_listed (failed cause) =
      if is_inbound_not_found (describe cause).0
      then create_dedicated_inbound a options work
      else leave (retry options work cause)
  on_listed (done users) =
      let present = listed work.statistics_id users in
      if listed (safety_id work) users then remove_old present else add_safety present

  unfoldable pub rotate_within_inbound : M S (Unit {0})
  rotate_within_inbound = do
    fence options work
    reply ← rpc (a.list_users work.inbound.inbound_tag)
    on_listed reply
