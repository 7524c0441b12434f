-- ===== src/Store/Intent.antt =====
-- internal/persistence/sqlite/store_sync.go: the reconciler's reads and writes, and `applyDecision` of
-- store_traffic.go, which turns a decision into an intent.
pub mod Superseding
pub mod Deciding
use xpanel.Prelude.{
  ℕ, ◌+◌, Bool, true, false, not, ◌&&◌, List, [], ◌∷◌, Option, none, some, ltb, ◌==◌, if◌then◌else◌,
  count_if, update_where,
}
use xpanel.Prelude.Text.{Text, text_eq}
use xpanel.Domain.Errors.{Result, ok, err, Error}
use xpanel.Domain.User.{AccessAllocation, ProjectionState, absent}
use xpanel.Domain.Sync.{SynchronizationOperation, SyncReason, SyncPhase, SyncState, rotate}
use xpanel.Domain.Quota.{AllocationFacts, TransitionDecision, needs_operation}
use xpanel.Store.Tables.{Db}
use xpanel.Store.Sync.{is_open, supersede_older, insert_operation}
use xpanel.Store.Outcome.{set_allocation}

abbrev is_rotation : SyncReason → Bool
is_rotation rotate = true
is_rotation _ = false

abbrev is_open_of : Text → SynchronizationOperation → Bool
is_open_of allocation_id o = text_eq o.allocation_id allocation_id && is_open o.state

unfoldable pub has_open_operation : Text → Db → Bool
has_open_operation allocation_id db = ltb 0 (count_if (is_open_of allocation_id) db.operations)

unfoldable pub has_open_rotation : Text → Db → Bool
has_open_rotation allocation_id db =
    ltb 0 (count_if (λ o. is_open_of allocation_id o && is_rotation o.reason) db.operations)

abbrev pub is_at : Text → ℕ → AccessAllocation → Bool
is_at id revision a = text_eq a.id id && a.desired_revision == revision

abbrev pub wanting : ℕ → AccessAllocation → AccessAllocation
wanting revision a = record a {
  desired_revision = revision;
  projection_state = ProjectionState.pending;
}

abbrev pub with_revision : Text → ℕ → ℕ → Db → Db
with_revision id expected revision db = record db {
  allocations = update_where (is_at id expected) (wanting revision) db.allocations;
}

-- `EnqueueReconcile`: a compare-and-set on the allocation's revision; an error rolls it back.
unfoldable pub enqueue_reconcile : Text → ℕ → SynchronizationOperation → ℕ → Db → Db × Result Bool
unfolding supersede_older insert_operation
enqueue_reconcile id expected o now db =
    if not (count_if (is_at id expected) db.allocations == 1)
    then (db, ok false)
    else elim (insert_operation o (
        supersede_older id o.desired_revision now
          (with_revision id expected o.desired_revision db))) [
            | err e ↦ (db, err e)
            | ok db' ↦ (db', ok true)
          ]

abbrev observed : Bool → AccessAllocation → AccessAllocation
observed present a = record a {
  observed_present = some present;
  projection_state =
      if a.desired_revision == a.synced_revision
      then (if present then ProjectionState.present else absent)
      else a.projection_state;
}

unfoldable pub record_observation : Text → Bool → Db → Db
record_observation id present = set_allocation id (observed present)

abbrev pub or_else : {A : Type 0} → A → Option A → A
or_else x none = x
or_else x (some y) = y

-- The intent that `applyDecision` makes of the template that its caller gives. A creation time of 0 stands
-- for the zero time. A decision that needs an operation has a reason and a phase.
unfoldable pub intended :
    Text
    → AllocationFacts
    → TransitionDecision
    → SynchronizationOperation
    → ℕ
    → SynchronizationOperation
intended id facts d template now = record template {
  allocation_id = id;
  desired_revision = facts.desired_revision + 1;
  desired_presence = d.will_be_present;
  desired_credential_version = some facts.desired_credential_version;
  reason = or_else template.reason d.reason;
  phase = or_else template.phase d.phase;
  state = SyncState.pending;
  attempt_count = 0;
  lease_owner = none;
  lease_expires_at = none;
  next_attempt_at = now;
  created_at = if template.created_at == 0 then now else template.created_at;
}

abbrev pub decided : Bool → TransitionDecision → AccessAllocation → AccessAllocation
decided admin_enabled d a = record a { admin_enabled = admin_enabled; quota_state = d.quota_state }

abbrev pub decided_anew : Bool → TransitionDecision → ℕ → AccessAllocation → AccessAllocation
decided_anew admin_enabled d revision a = record a {
  admin_enabled = admin_enabled;
  quota_state = d.quota_state;
  desired_revision = revision;
  projection_state = ProjectionState.pending;
}

unfoldable pub enqueue_decision :
    Text
    → AllocationFacts
    → TransitionDecision
    → Bool
    → SynchronizationOperation
    → ℕ
    → Db
    → Db × Result Bool
enqueue_decision id facts d admin_enabled template now db =
    let o = intended id facts d template now in
    elim (insert_operation o (supersede_older id o.desired_revision now db)) [
      | err e ↦ (db, err e)
      | ok db' ↦ (set_allocation id (decided_anew admin_enabled d o.desired_revision) db', ok true)
    ]

-- `applyDecision`; none for a caller that gives no template.
unfoldable pub apply_decision :
    Text
    → AllocationFacts
    → TransitionDecision
    → Bool
    → Option SynchronizationOperation
    → ℕ
    → Db
    → Db × Result Bool
unfolding needs_operation supersede_older insert_operation intended set_allocation
apply_decision id facts d admin_enabled none now db =
    (set_allocation id (decided admin_enabled d) db, ok false)
apply_decision id facts d admin_enabled (some template) now db =
    if needs_operation d
    then enqueue_decision id facts d admin_enabled template now db
    else (set_allocation id (decided admin_enabled d) db, ok false)
