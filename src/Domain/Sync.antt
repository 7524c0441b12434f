-- ===== src/Domain/Sync.antt =====
-- internal/domain/sync.go: synchronization operations, their supersession, and the retry delay.
pub mod Backoff
use xpanel.Prelude.{ℕ, ◌≤◌, Bool, true, false, ◌||◌, ◌++◌, Option, none, some, leb, if◌then◌else◌}
use xpanel.Prelude.Text.{Text, codes}

pub data SyncReason : Type 0 where
  create enable disable quota_block quota_restore rotate delete reconcile port_change : SyncReason

pub data SyncPhase : Type 0 where
  create_inbound remove_inbound remove_old add_desired confirm done : SyncPhase

pub data SyncState : Type 0 where
  pending leased retry_wait succeeded superseded permanent_failed : SyncState

-- `SynchronizationOperation`. Times are milliseconds; the error texts and `started_at` are left out.
pub record SynchronizationOperation : Type 0 where
  pub id : Text
  pub allocation_id : Text
  pub desired_revision : ℕ
  pub desired_presence : Bool
  pub desired_credential_version : Option ℕ
  pub reason : SyncReason
  pub phase : SyncPhase
  pub state : SyncState
  pub attempt_count : ℕ
  pub next_attempt_at : ℕ
  pub lease_owner : Option Text
  pub lease_expires_at : Option ℕ
  pub created_at : ℕ
  pub completed_at : Option ℕ

unfoldable pub inbound_phase_for : Bool → SyncPhase
inbound_phase_for true = create_inbound
inbound_phase_for false = remove_inbound

unfoldable pub new_synchronization_operation :
    Text → Text → ℕ → Bool → Option ℕ → SyncReason → SyncPhase → ℕ → SynchronizationOperation
new_synchronization_operation id allocation_id revision present credential_version reason phase
      now =
    record {
      id = id;
      allocation_id = allocation_id;
      desired_revision = revision;
      desired_presence = present;
      desired_credential_version = credential_version;
      reason = reason;
      phase = phase;
      state = pending;
      attempt_count = 0;
      next_attempt_at = now;
      lease_owner = none;
      lease_expires_at = none;
      created_at = now;
      completed_at = none;
    }

abbrev pub is_settled : SyncState → Bool
is_settled succeeded = true
is_settled superseded = true
is_settled _ = false

-- `(*SynchronizationOperation).Supersede`: the operation afterwards, and whether it was superseded.
unfoldable pub supersede : SynchronizationOperation → ℕ → ℕ → SynchronizationOperation × Bool
supersede o current now =
    if leb current o.desired_revision || is_settled o.state then (o, false) else (
      record o {
        state = superseded;
        completed_at = some now;
        lease_owner = none;
        lease_expires_at = none;
      },
      true,
    )
