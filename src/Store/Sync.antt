-- ===== src/Store/Sync.antt =====
-- internal/persistence/sqlite/store_sync.go: the queue of synchronization operations and its leases.
-- Times are milliseconds.
pub mod Lease
use Prim.Native.String.{String}
use xpanel.Prelude.{
  ℕ, ◌+◌, ◌≤◌, Bool, true, false, not, ◌&&◌, ◌||◌, List, [], ◌∷◌, ◌++◌, Option, none, some, ltb,
  leb, ◌==◌, if◌then◌else◌, find, update_where, count_if, any,
}
use xpanel.Prelude.Text.{Text, text_eq}
use xpanel.Domain.Errors.{Result, ok, err, plain_error, Error}
use xpanel.Domain.User.{
  AccessAllocation, AccessCredential, CredentialState, ManagedUser, ProjectionState, is_active,
  is_destroyed, destroyed,
}
use xpanel.Domain.Sync.{
  SynchronizationOperation, SyncState, SyncPhase, leased, retry_wait, succeeded, superseded,
  permanent_failed, done, SyncReason, rotate,
}
use xpanel.Store.Tables.{
  Db, InboundRow, TemplateRow, operation_by_id, allocation_by_id, user_by_id, template_by_id,
  is_incompatible,
}

abbrev pub no_rows : Error
no_rows = plain_error "sql: no rows in result set"

-- `state IN ('pending','leased','retry_wait')`, and with `'permanent_failed'`.
abbrev pub is_open : SyncState → Bool
is_open SyncState.pending = true
is_open leased = true
is_open retry_wait = true
is_open _ = false

abbrev pub is_open_or_failed : SyncState → Bool
is_open_or_failed permanent_failed = true
is_open_or_failed s = is_open s

abbrev pub is_leased : SyncState → Bool
is_leased leased = true
is_leased _ = false

-- `setInboundDesired`, and the `AND released_at IS NULL` of every write to an inbound.
abbrev pub is_unreleased_of : Text → InboundRow → Bool
is_unreleased_of allocation_id i =
    text_eq i.allocation_id allocation_id && elim i.released_at [ none ↦ true | some _ ↦ false ]

unfoldable pub set_inbound_desired : Text → Bool → Db → Db
set_inbound_desired allocation_id desired db = record db {
  inbounds =
      update_where (is_unreleased_of allocation_id) (λ i. record i { desired_present = desired })
        db.inbounds;
}

-- PRIMARY KEY(id) and UNIQUE(allocation_id, desired_revision).
abbrev pub clashes : SynchronizationOperation → SynchronizationOperation → Bool
clashes o p =
    text_eq p.id o.id
    || (text_eq p.allocation_id o.allocation_id && p.desired_revision == o.desired_revision)

abbrev pub unique_violation : Error
unique_violation = plain_error "UNIQUE constraint failed: synchronization_operations"

unfoldable pub insert_operation : SynchronizationOperation → Db → Result Db
unfolding set_inbound_desired
insert_operation o db =
    let db' = set_inbound_desired o.allocation_id o.desired_presence db in
    if any (clashes o) db.operations
    then err unique_violation
    else ok (record db' { operations = db'.operations ++ o ∷ [] })

abbrev pub end_superseded : ℕ → SynchronizationOperation → SynchronizationOperation
end_superseded now o = record o {
  state = superseded;
  lease_owner = none;
  lease_expires_at = none;
  completed_at = some now;
}

abbrev pub is_older : Text → ℕ → SynchronizationOperation → Bool
is_older allocation_id revision o =
    text_eq o.allocation_id allocation_id
    && ltb o.desired_revision revision
    && is_open_or_failed o.state

-- `supersedeOlder` of store_traffic.go, and the same statement in `Enqueue` and `Supersede`.
unfoldable pub supersede_older : Text → ℕ → ℕ → Db → Db
supersede_older allocation_id revision now db = record db {
  operations = update_where (is_older allocation_id revision) (end_superseded now) db.operations;
}

-- `Enqueue`: an error rolls the transaction back.
unfoldable pub enqueue : SynchronizationOperation → Db → Result Db
unfolding supersede_older insert_operation
enqueue o db =
    insert_operation o (supersede_older o.allocation_id o.desired_revision o.created_at db)

-- The `WHERE` of `LeaseDueSync` on the operation itself.
unfoldable pub is_due : ℕ → SynchronizationOperation → Bool
is_due now o = elim o.state [
  | SyncState.pending ↦ leb o.next_attempt_at now
  | retry_wait ↦ leb o.next_attempt_at now
  | leased ↦ elim o.lease_expires_at [ none ↦ false | some until ↦ leb until now ]
  | _ ↦ false
]

-- The joins, and `t.compatibility_state <> 'incompatible'`.
unfoldable pub is_projectable : Db → SynchronizationOperation → Bool
is_projectable db o = elim (allocation_by_id o.allocation_id db.allocations) [
  | none ↦ false
  | some a ↦ elim (template_by_id a.template_id db.templates) [
    | none ↦ false
    | some t ↦ not (is_incompatible t.compatibility)
  ]
]

abbrev pub comes_before : SynchronizationOperation → SynchronizationOperation → Bool
comes_before o p =
    ltb o.next_attempt_at p.next_attempt_at
    || (o.next_attempt_at == p.next_attempt_at && ltb o.created_at p.created_at)

-- `ORDER BY next_attempt_at,created_at LIMIT 1` over the rows that pass; equal keys in table order.
unfoldable pub earliest :
    (SynchronizationOperation → Bool)
    → List SynchronizationOperation
    → Option SynchronizationOperation
earliest p [] = none
earliest p (o ∷ os) =
    let rest = earliest p os in
    if p o
    then elim rest [ none ↦ some o | some q ↦ if comes_before q o then some q else some o ]
    else rest

abbrev pub same_owner : Option Text → Option Text → Bool
same_owner none none = true
same_owner none (some b) = text_eq [] b
same_owner (some a) none = text_eq a []
same_owner (some a) (some b) = text_eq a b

-- The compare-and-set of the lease: still due, and an expired lease still with the owner that was read.
abbrev pub may_take : ℕ → SynchronizationOperation → SynchronizationOperation → Bool
may_take now read o =
    text_eq o.id read.id
    && is_due now o
    && (not (is_leased o.state) || same_owner o.lease_owner read.lease_owner)

abbrev pub take_lease : Text → ℕ → SynchronizationOperation → SynchronizationOperation
take_lease owner until o = record o {
  state = leased;
  lease_owner = some owner;
  lease_expires_at = some until;
}

abbrev pub with_lease : Text → ℕ → ℕ → SynchronizationOperation → Db → Db
with_lease owner now duration o db = record db {
  operations = update_where (may_take now o) (take_lease owner (now + duration)) db.operations;
}

-- `LeaseDueSync` after its query: the compare-and-set must hit one row.
unfoldable pub lease_row :
    Text → ℕ → ℕ → Db → Option SynchronizationOperation → Db × Option SynchronizationOperation
lease_row owner now duration db none = (db, none)
lease_row owner now duration db (some o) =
    if count_if (may_take now o) db.operations == 1
    then (with_lease owner now duration o db, some o)
    else (db, none)

abbrev pub is_candidate : ℕ → Db → SynchronizationOperation → Bool
is_candidate now db o = is_due now o && is_projectable db o

-- `LeaseDueSync` up to its commit: the operation as it was read, with the tables after the lease.
unfoldable pub lease_due_sync : Text → ℕ → ℕ → Db → Db × Option SynchronizationOperation
lease_due_sync owner now duration db =
    lease_row owner now duration db (earliest (is_candidate now db) db.operations)

-- "Still leased, and by this owner."
unfoldable pub holds_lease : Text → SynchronizationOperation → Bool
holds_lease owner o =
    is_leased o.state && elim o.lease_owner [ none ↦ false | some w ↦ text_eq w owner ]

unfoldable pub is_current : Db → SynchronizationOperation → Bool
is_current db o = elim (allocation_by_id o.allocation_id db.allocations) [
  | none ↦ false
  | some a ↦ o.desired_revision == a.desired_revision
]

abbrev pub may_renew : Text → Text → Db → SynchronizationOperation → Bool
may_renew id owner db o = text_eq o.id id && holds_lease owner o && is_current db o

unfoldable pub renew_sync_lease : Text → Text → ℕ → ℕ → Db → Db × Bool
renew_sync_lease id owner now lease db = (
  record db {
    operations =
        update_where (may_renew id owner db)
          (λ o. record o { lease_expires_at = some (now + lease) }) db.operations;
  },
  count_if (may_renew id owner db) db.operations == 1,
)
