-- ===== src/Worker/Tests.antt =====
-- A rotation on a node in memory, with a failure in its middle, and the worker's laws applied to it.
use xpanel.Prelude.{◌≡◌, false, refl, inl, inr, arith, true, List, [], ◌∷◌, none, some}
use xpanel.Prelude.Text.{Text, codes, text_eq}
use xpanel.Prelude.Int.{pos}
use xpanel.Prelude.Assoc.{lookup}
use xpanel.Domain.User.{
  LifecycleState, ProjectionState, within_limit, ManagedUser, AccessAllocation,
}
use xpanel.Domain.Sync.{SynchronizationOperation, leased, SyncPhase, rotate}
use xpanel.Store.Tables.{healthy, Db, TemplateRow, InboundRow, compatible}
use xpanel.Store.Sync.{renew_sync_lease, holds_lease, is_current}
use xpanel.Ports.{RemoteUser, managed, adapter_error, deadline_exceeded}
use xpanel.Fake.{Node, Operation, Failure, add_user_op, users_of, node_adapter}
use xpanel.Fake.Contract.{node_view, HonestFailures}
use xpanel.Fake.Contract.Adapter.{node_adapter-Lawful}
use xpanel.Worker.World.{SyncWork, Options, World}
use xpanel.Worker.Handle.{handle}
use xpanel.Store.Tables.{operation_by_id, allocation_by_id}
use xpanel.Prelude.{find, update_where}
use xpanel.Domain.Inbound.{rotation_safety_id, is_panel_namespace}
use xpanel.Prelude.Text.{has_prefix}
use xpanel.Prelude.Assoc.{insert, erase}
use xpanel.Store.Outcome.{confirm_sync, joined, confirm_row, settle_keys}
use xpanel.Prelude.{length}
use xpanel.Worker.Rotate.{
  rotate_within_inbound, on_listed, add_safety, on_safety_added, check_safety, remove_old,
  on_old_removed, add_new, on_new_added, remove_safety, on_safety_removed,
}
use xpanel.Worker.Create.{or_fail}
use xpanel.Worker.Ending.{carries_client, describe, confirm}
use xpanel.Worker.World.{fence, rpc, pass_time}
use xpanel.Fake.{
  list_users, add_user, remove_user, record_call, take_failure, add_client, ensure_users,
  remove_client, survivors,
}
use xpanel.Worker.Runs.{AllGood}
use xpanel.Worker.Guarded.{Good}
use xpanel.Worker.Guarded.Handling.{handle-Good}
use xpanel.Worker.Fenced.{IsLost, handle-lost}

abbrev carol : ManagedUser
carol = record { id = codes "carol"; lifecycle = LifecycleState.active; revision = 3 }

abbrev alloc : AccessAllocation
alloc = record {
  id = codes "a1";
  user_id = codes "carol";
  template_id = codes "t1";
  admin_enabled = true;
  quota_state = within_limit;
  projection_state = ProjectionState.present;
  observed_present = some true;
  desired_revision = 2;
  synced_revision = 1;
  desired_credential_version = 2;
  synced_credential_version = some 1;
}

abbrev template : TemplateRow
template = record {
  id = codes "t1";
  listen_address = codes "0.0.0.0";
  pool = record { first = 20000; last = 20009 };
  method = codes "aes";
  compatibility = compatible;
  archived = false;
  validated_generation = none;
  revision = 1;
}

abbrev row : InboundRow
row = record {
  allocation_id = codes "a1";
  template_id = codes "t1";
  inbound_tag = codes "xpanel-a1";
  listen_address = codes "0.0.0.0";
  port = 20000;
  server_key = 5 ∷ [];
  desired_present = true;
  observed_present = some true;
  released_at = none;
}

abbrev rotation : SynchronizationOperation
rotation = record {
  id = codes "o1";
  allocation_id = codes "a1";
  desired_revision = 2;
  desired_presence = true;
  desired_credential_version = some 2;
  reason = rotate;
  phase = SyncPhase.confirm;
  state = leased;
  attempt_count = 0;
  next_attempt_at = 100;
  lease_owner = some (codes "w1");
  lease_expires_at = some 500;
  created_at = 100;
  completed_at = none;
}

abbrev db : Db
db = record {
  users = carol ∷ [];
  allocations = alloc ∷ [];
  templates = template ∷ [];
  inbounds = row ∷ [];
  identities = [];
  credentials = [];
  operations = rotation ∷ [];
  instance_row = record {
    health = healthy;
    boot_epoch = none;
    capability_generation = 1;
    last_uptime_seconds = 0;
  };
  drift_removals = [];
  audit_events = [];
}

abbrev client : RemoteUser
client = record {
  statistics_id = codes "xpanel-u1";
  credential_version = 1;
  present = true;
  kind = managed;
}

-- The first addition of a client times out after the change is made.
abbrev failures : Operation → List Failure
failures add_user_op =
    record {
      error = some (
          adapter_error (record { kind = deadline_exceeded; retryable = true; safe_summary = "" }));
      applied = true;
    }
    ∷ []
failures _ = []

abbrev node : Node
node = record {
  inbounds =
      (
        codes "xpanel-a1",
        record {
          tag = codes "xpanel-a1";
          listen_address = codes "0.0.0.0";
          port = 20000;
          method = codes "aes";
          server_key = codes "s";
        },
      )
      ∷ [];
  users = (codes "xpanel-a1", (codes "xpanel-u1", client) ∷ []) ∷ [];
  failures = failures;
  calls = [];
  available = true;
  external_ports = [];
}

abbrev pub work : SyncWork
work = record {
  operation = rotation;
  lifecycle = LifecycleState.active;
  user_id = codes "carol";
  statistics_id = codes "xpanel-u1";
  template = template;
  inbound = row;
  credential_version = 2;
  credential_key = 9 ∷ [];
}

abbrev pub options : Text → Options
options owner = record {
  owner = owner;
  lease = 300;
  max_retry = pos 0;
  random = none;
  decrypt = some;
  generate_user_key = some;
}

abbrev pub world : World Node
world = record {
  node = node;
  db = db;
  now = 200;
  others = (10, λ d. d) ∷ [];
  failures = 0;
  trace = [];
}

honest : HonestFailures node
honest add_user_op = ground arith
honest _ = tt

pub node-Good : Good node_view work node
unfolding users_of lookup text_eq
node-Good = ((((refl, tt), tt), honest), inr (inl refl))

handle-Good_example :
    AllGood (Good node_view work) (handle node_adapter (options (codes "w1")) work world).1
handle-Good_example =
    handle-Good node_view node_adapter node_adapter-Lawful (options (codes "w1")) work world
      (node-Good, tt)

-- The second worker does not lease the operation.
stranger : IsLost node_adapter (options (codes "w2")) work world
unfolding renew_sync_lease holds_lease is_current text_eq
stranger = refl

handle-lost_example :
    ((handle node_adapter (options (codes "w2")) work world).1.node ≡ node)
    × ((handle node_adapter (options (codes "w2")) work world).1.trace ≡ [])
handle-lost_example = handle-lost node_adapter (options (codes "w2")) work world stranger

-- The rotation is read, the transition client is added and read back, the old client goes, the new one comes,
-- and the transition client goes.
rotated : length (handle node_adapter (options (codes "w1")) work world).1.trace ≡ 6
unfolding handle rotate_within_inbound on_listed add_safety on_safety_added check_safety remove_old
    on_old_removed add_new on_new_added remove_safety on_safety_removed or_fail carries_client fence
    rpc pass_time renew_sync_lease holds_lease is_current list_users add_user remove_user
    record_call take_failure users_of add_client ensure_users remove_client survivors describe
    confirm text_eq allocation_by_id find lookup rotation_safety_id update_where is_panel_namespace
    has_prefix insert erase confirm_sync joined operation_by_id confirm_row settle_keys
rotated = refl
