-- ===== src/Store/Tests.antt =====
-- Runs of the synchronization transactions on a small database, and their laws applied to it.
use xpanel.Prelude.{◌≤◌, ◌≡◌, ◌≢◌, refl, arith, true, false, [], ◌∷◌, none, some, find}
use xpanel.Prelude.Text.{codes, text_eq, text_eq_complete}
use xpanel.Domain.Errors.{ok}
use xpanel.Domain.User.{
  LifecycleState, ProjectionState, within_limit, ManagedUser, AccessAllocation, AccessCredential,
  CredentialState,
}
use xpanel.Domain.Sync.{SynchronizationOperation, leased, remove_inbound, delete}
use xpanel.Store.Tables.{
  healthy, Db, TemplateRow, InboundRow, compatible, operation_by_id, allocation_by_id, user_by_id,
  template_by_id,
}
use xpanel.Store.Sync.{is_due, is_projectable, lease_due_sync, lease_row, earliest}
use xpanel.Store.Sync.Lease.{IsKeyed}
use xpanel.Domain.Quota.{AllocationFacts, decide_transition}
use xpanel.Store.Intent.{enqueue_reconcile, apply_decision}
use xpanel.Store.Intent.Superseding.{IsReconciled, enqueue_reconcile_outcome}
use xpanel.Store.Intent.Deciding.{IsApplied, apply_decision_outcome}
use xpanel.Prelude.{count_if, ◌≢◌, ◌≡◌, none, some, true, false}
use xpanel.Domain.Sync.{SyncState}
use xpanel.Store.Outcome.{confirm_sync, reschedule_sync, fail_sync, joined}
use xpanel.Store.Outcome.Fencing.{takeover_fences}
use xpanel.Store.Outcome.Confirm.{IsConfirmation, confirm_sync_outcome}

abbrev carol : ManagedUser
carol = record { id = codes "carol"; lifecycle = LifecycleState.deleted; revision = 3 }

abbrev alloc : AccessAllocation
alloc = record {
  id = codes "a1";
  user_id = codes "carol";
  template_id = codes "t1";
  admin_enabled = true;
  quota_state = within_limit;
  projection_state = ProjectionState.present;
  observed_present = some true;
  desired_revision = 2;
  synced_revision = 1;
  desired_credential_version = 1;
  synced_credential_version = some 1;
}

abbrev template : TemplateRow
template = record {
  id = codes "t1";
  listen_address = codes "0.0.0.0";
  pool = record { first = 20000; last = 20009 };
  method = codes "aes";
  compatibility = compatible;
  archived = false;
  validated_generation = none;
  revision = 1;
}

abbrev inbound : InboundRow
inbound = record {
  allocation_id = codes "a1";
  template_id = codes "t1";
  inbound_tag = codes "xpanel-a1";
  listen_address = codes "0.0.0.0";
  port = 20000;
  server_key = 5 ∷ [];
  desired_present = false;
  observed_present = some true;
  released_at = none;
}

abbrev credential : AccessCredential
credential = record {
  id = codes "k1";
  allocation_id = codes "a1";
  version = 1;
  state = CredentialState.active;
  key_ciphertext = 7 ∷ [];
  key_nonce = 8 ∷ [];
}

-- The deletion of the user, leased by the first worker until 500.
abbrev deletion : SynchronizationOperation
deletion = record {
  id = codes "o1";
  allocation_id = codes "a1";
  desired_revision = 2;
  desired_presence = false;
  desired_credential_version = none;
  reason = delete;
  phase = remove_inbound;
  state = leased;
  attempt_count = 0;
  next_attempt_at = 100;
  lease_owner = some (codes "w1");
  lease_expires_at = some 500;
  created_at = 100;
  completed_at = none;
}

abbrev pub db : Db
db = record {
  users = carol ∷ [];
  allocations = alloc ∷ [];
  templates = template ∷ [];
  inbounds = inbound ∷ [];
  identities = [];
  credentials = credential ∷ [];
  operations = deletion ∷ [];
  instance_row = record {
    health = healthy;
    boot_epoch = none;
    capability_generation = 1;
    last_uptime_seconds = 0;
  };
  drift_removals = [];
  audit_events = [];
}

keyed : IsKeyed db.operations
keyed = (tt, tt)

-- At 1000 the lease has run out, and the second worker takes the operation over.
taken : (lease_due_sync (codes "w2") 1000 300 db).1 ≡ some deletion
unfolding lease_due_sync lease_row earliest is_due is_projectable allocation_by_id template_by_id
    find text_eq
taken = refl

other_worker : codes "w2" ≢ codes "w1"
other_worker e = ground (arith, text_eq_complete (codes "w2") (codes "w1") e)

takeover_fences_example :
    let db' = (lease_due_sync (codes "w2") 1000 300 db).0 in
    (confirm_sync deletion.id (codes "w1") 2 0 false 1100 db' ≡ (db', ok false))
    × (reschedule_sync deletion.id (codes "w1") 1100 1 1200 db' ≡ (db', ok tt))
    × (fail_sync deletion.id (codes "w1") 1100 1100 db' ≡ (db', ok tt))
takeover_fences_example =
    takeover_fences (codes "w2") (codes "w1") 1000 300 db deletion 2 0 1100 1100 1 1200 false keyed
      other_worker taken

joined_row : joined deletion.id db ≡ some (deletion, alloc)
unfolding joined operation_by_id allocation_by_id find text_eq
joined_row = refl

its_user : user_by_id alloc.user_id db.users ≡ some carol
unfolding user_by_id find text_eq
its_user = refl

confirm_sync_outcome_example :
    IsConfirmation deletion.id
      (codes "w1")
      2
      0
      false
      200
      db
      deletion
      alloc
      (confirm_sync deletion.id (codes "w1") 2 0 false 200 db)
confirm_sync_outcome_example =
    confirm_sync_outcome deletion.id (codes "w1") 2 0 200 false db deletion alloc carol joined_row
      its_user

-- The reconciler's intent for the next revision.
abbrev reconciliation : SynchronizationOperation
reconciliation = record deletion {
  id = codes "o2";
  desired_revision = 3;
  state = SyncState.pending;
  lease_owner = none;
  lease_expires_at = none;
}

its_allocation : allocation_by_id (codes "a1") db.allocations ≡ some alloc
unfolding allocation_by_id find text_eq
its_allocation = refl

one_row : count_if (λ r. text_eq r.id (codes "a1")) db.allocations ≤ 1
unfolding text_eq
one_row = omega arith

enqueue_reconcile_outcome_example :
    IsReconciled
      (codes "a1")
      2
      reconciliation
      db
      alloc
      (enqueue_reconcile (codes "a1") 2 reconciliation 600 db)
enqueue_reconcile_outcome_example =
    enqueue_reconcile_outcome (codes "a1") 2 reconciliation 600 db alloc its_allocation one_row

abbrev facts : AllocationFacts
facts = record {
  lifecycle = LifecycleState.active;
  admin_enabled = true;
  quota_state = within_limit;
  desired_revision = 2;
  desired_credential_version = 1;
}

apply_decision_outcome_example :
    let d = decide_transition facts true true in
    IsApplied
      (codes "a1")
      facts
      true
      reconciliation
      600
      db
      alloc
      d
      (apply_decision (codes "a1") facts d true (some reconciliation) 600 db)
apply_decision_outcome_example =
    apply_decision_outcome (codes "a1") facts true true reconciliation 600 db alloc its_allocation
