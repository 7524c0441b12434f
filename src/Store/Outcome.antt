-- ===== src/Store/Outcome.antt =====
-- internal/persistence/sqlite/store_sync.go: the transactions with which a worker ends an operation that
-- it leases. A pair is the tables after the call and its result; an error leaves the tables as they were,
-- as the transaction is rolled back.
pub mod Fencing
pub mod Confirm
pub mod Keys
pub mod Release
use xpanel.Prelude.{
  ℕ, ◌+◌, Bool, true, false, not, ◌&&◌, ◌||◌, List, [], ◌∷◌, ◌++◌, Option, none, some, ltb, ◌==◌,
  if◌then◌else◌, update_where, any,
}
use xpanel.Prelude.Text.{Text, text_eq}
use xpanel.Domain.Errors.{Result, ok, err, Error}
use xpanel.Domain.User.{
  AccessAllocation, AccessCredential, CredentialState, ProjectionState, is_active, is_destroyed,
  destroyed, absent, error,
}
use xpanel.Domain.Sync.{
  SynchronizationOperation, SyncState, succeeded, superseded, permanent_failed, retry_wait, done,
  SyncReason, rotate,
}
use xpanel.Store.Tables.{Db, InboundRow, operation_by_id, allocation_by_id, user_by_id}
use xpanel.Store.Sync.{
  no_rows, is_open, holds_lease, end_superseded, is_unreleased_of, supersede_older,
  insert_operation,
}

-- `UPDATE synchronization_operations SET ... WHERE id=?`.
unfoldable pub set_operation :
    Text → (SynchronizationOperation → SynchronizationOperation) → Db → Db
set_operation id f db = record db {
  operations = update_where (λ o. text_eq o.id id) f db.operations;
}

-- `UPDATE access_allocations SET ... WHERE id=?`.
unfoldable pub set_allocation : Text → (AccessAllocation → AccessAllocation) → Db → Db
set_allocation id f db = record db {
  allocations = update_where (λ a. text_eq a.id id) f db.allocations;
}

abbrev pub destroy_key : AccessCredential → AccessCredential
destroy_key c = record c { state = destroyed; key_ciphertext = []; key_nonce = [] }

abbrev is_credential_of : Text → AccessCredential → Bool
is_credential_of allocation_id c = text_eq c.allocation_id allocation_id

abbrev is_pending_credential : CredentialState → Bool
is_pending_credential CredentialState.pending = true
is_pending_credential _ = false

-- The two statements for a confirmed presence: first the older versions lose their keys, then the
-- confirmed version becomes active.
unfoldable pub activate_credential : Text → ℕ → Db → Db
activate_credential allocation_id version db =
    let purged =
      update_where
        (λ c.
          is_credential_of allocation_id c && ltb c.version version && not (is_destroyed c.state))
        destroy_key db.credentials in
    record db {
      credentials =
          update_where
            (λ c.
              is_credential_of allocation_id c
              && c.version == version
              && is_pending_credential c.state)
            (λ c. record c { state = CredentialState.active }) purged;
    }

unfoldable pub destroy_credentials : Text → Db → Db
destroy_credentials allocation_id db = record db {
  credentials =
      update_where (λ c. is_credential_of allocation_id c && not (is_destroyed c.state)) destroy_key
        db.credentials;
}

unfoldable pub release_inbound_port : Text → ℕ → Db → Db
release_inbound_port allocation_id now db = record db {
  inbounds =
      update_where (is_unreleased_of allocation_id)
        (λ i. record i {
          released_at = some now;
          desired_present = false;
          observed_present = some false;
        })
        db.inbounds;
}

unfoldable pub confirm_inbound_presence : Text → Bool → Db → Db
confirm_inbound_presence allocation_id present db = record db {
  inbounds =
      update_where (is_unreleased_of allocation_id)
        (λ i. record i { observed_present = some present }) db.inbounds;
}

-- The branch on `present` of `ConfirmSync`; none where the query of the user's state has no row.
unfoldable pub settle_keys : AccessAllocation → ℕ → Bool → ℕ → Db → Option Db
settle_keys a version true now db = some (activate_credential a.id version db)
settle_keys a version false now db = elim (user_by_id a.user_id db.users) [
  | none ↦ none
  | some u ↦
      if is_active u.lifecycle
      then some db
      else some (release_inbound_port a.id now (destroy_credentials a.id db))
]

abbrev pub confirmed_allocation : ℕ → ℕ → Bool → AccessAllocation → AccessAllocation
confirmed_allocation revision version seen a = record a {
  projection_state = if seen then ProjectionState.present else absent;
  observed_present = some seen;
  synced_revision = revision;
  synced_credential_version = if seen then some version else none;
}

abbrev pub end_succeeded : ℕ → SynchronizationOperation → SynchronizationOperation
end_succeeded now o = record o {
  state = succeeded;
  phase = done;
  lease_owner = none;
  lease_expires_at = none;
  completed_at = some now;
}

-- The statements after the revision check, on the tables with the keys settled.
unfoldable pub commit_confirmation : Text → AccessAllocation → ℕ → ℕ → Bool → ℕ → Db → Db
commit_confirmation id a revision version present now db = set_operation id (end_succeeded now) (
    set_allocation a.id (confirmed_allocation revision version present)
      (confirm_inbound_presence a.id present db))

-- The checks of `ConfirmSync` once its row and the row's allocation are read.
unfoldable pub confirm_row :
    Text
    → Text
    → ℕ
    → ℕ
    → Bool
    → ℕ
    → Db
    → SynchronizationOperation
    → AccessAllocation
    → Db × Result Bool
confirm_row id owner revision version present now db o a =
    if not (holds_lease owner o)
    then (db, ok false)
    else if not (a.desired_revision == revision)
    then (set_operation id (end_superseded now) db, ok false)
    else elim (settle_keys a version present now db) [
      | none ↦ (db, err no_rows)
      | some settled ↦ (commit_confirmation id a revision version present now settled, ok true)
    ]

-- An operation and its allocation: the join that `ConfirmSync` and `finishLeased` begin with.
unfoldable pub joined : Text → Db → Option (SynchronizationOperation × AccessAllocation)
joined id db = elim (operation_by_id id db.operations) [
  | none ↦ none
  | some o ↦ elim (allocation_by_id o.allocation_id db.allocations) [
    | none ↦ none
    | some a ↦ some (o, a)
  ]
]

unfoldable pub confirm_sync : Text → Text → ℕ → ℕ → Bool → ℕ → Db → Db × Result Bool
confirm_sync id owner revision version present now db = elim (joined id db) [
  | none ↦ (db, err no_rows)
  | some (o, a) ↦ confirm_row id owner revision version present now db o a
]

-- `finishLeased`; `wall` is its own reading of the clock.
unfoldable pub finish_leased : Text → Text → ℕ → (Text → Db → Db) → Db → Db × Result (Unit {0})
finish_leased id owner wall apply db = elim (joined id db) [
  | none ↦ (db, err no_rows)
  | some (o, a) ↦
      if not (holds_lease owner o)
      then (db, ok tt)
      else if not (o.desired_revision == a.desired_revision)
      then (set_operation id (end_superseded wall) db, ok tt)
      else (apply a.id db, ok tt)
]

abbrev pub retry_operation : ℕ → ℕ → SynchronizationOperation → SynchronizationOperation
retry_operation attempts next o = record o {
  state = retry_wait;
  attempt_count = attempts;
  next_attempt_at = next;
  lease_owner = none;
  lease_expires_at = none;
}

abbrev pub fail_operation : ℕ → SynchronizationOperation → SynchronizationOperation
fail_operation now o = record o {
  state = permanent_failed;
  lease_owner = none;
  lease_expires_at = none;
  completed_at = some now;
}

unfoldable pub reschedule_sync : Text → Text → ℕ → ℕ → ℕ → Db → Db × Result (Unit {0})
reschedule_sync id owner wall attempts next = finish_leased id owner wall λ allocation_id db.
    set_allocation allocation_id (λ a. record a { projection_state = ProjectionState.pending })
      (set_operation id (retry_operation attempts next) db)

unfoldable pub fail_sync : Text → Text → ℕ → ℕ → Db → Db × Result (Unit {0})
fail_sync id owner wall now = finish_leased id owner wall λ allocation_id db.
    set_allocation allocation_id (λ a. record a { projection_state = error })
      (set_operation id (fail_operation now) db)
