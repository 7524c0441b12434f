-- ===== src/Store/Accounts/Creation.antt =====
-- internal/persistence/sqlite/store_users.go, `CreateUser`: one transaction writes all rows of a new user.
-- Names are not modelled: whether another user holds the name is given. References between tables, which
-- the record's one allocation keeps, are left out.
pub mod Assigning
pub mod Tests
use xpanel.Prelude.{
  ℕ, Bool, true, false, ◌&&◌, ◌||◌, List, [], ◌∷◌, ◌++◌, Option, none, some, any, ◌==◌,
  if◌then◌else◌,
}
use xpanel.Prelude.Text.{Text, text_eq}
use xpanel.Domain.Errors.{Error, Result, ok, err, conflict_error, plain_error}
use xpanel.Domain.User.{ManagedUser, AccessAllocation, AccessCredential}
use xpanel.Domain.Quota.{validate_quota_policy}
use xpanel.Domain.Sync.{SynchronizationOperation}
use xpanel.Traffic.Update.{TrafficCursorRecord}
use xpanel.Store.Tables.{Db, InboundRow, IdentityRow, AuditEvent}
use xpanel.Store.Sync.{insert_operation}
use xpanel.Store.Users.{
  CommandRow, Panel, with_command, and_then, credential_clashes, insert_dedicated_inbound,
}
use xpanel.Store.Accounts.{Books, PolicyRow, CycleRow, TotalRow, CursorRow, is_open_cycle, audited}
use xpanel.Store.Accounts.Cycles.{cycle_clashes}

-- `ports.UserCreateRecord`.
pub record UserCreateRecord : Type 0 where
  pub user : ManagedUser
  pub name_taken : Bool
  pub identity : IdentityRow
  pub allocation : AccessAllocation
  pub inbound_row : InboundRow
  pub credential : AccessCredential
  pub policy : PolicyRow
  pub cycle : CycleRow
  pub operation : SynchronizationOperation
  pub command : CommandRow
  pub audit : AuditEvent
  pub port_audit : AuditEvent

-- A row is added to a table, unless it clashes with one that is there.
abbrev pub added_row : {A : Type 0} → (A → Bool) → Error → A → List A → Result (List A)
added_row clash why row rows = if any clash rows then err why else ok (rows ++ row ∷ [])

abbrev constraint : Error
constraint = plain_error "constraint failed"

-- The tables after the first three `INSERT`s, and after the credential's.
abbrev pub new_users : UserCreateRecord → Db → Result (List ManagedUser)
new_users r db =
    if r.name_taken
    then err (conflict_error "user name already exists")
    else added_row (λ u. text_eq u.id r.user.id) (conflict_error "user name already exists") r.user
        db.users

abbrev pub new_identities : UserCreateRecord → Db → Result (List IdentityRow)
new_identities r db =
    added_row (λ i. text_eq i.statistics_id r.identity.statistics_id)
      (conflict_error "statistics identity already exists") r.identity db.identities

abbrev pub new_allocations : UserCreateRecord → Db → Result (List AccessAllocation)
new_allocations r db =
    added_row (λ a. text_eq a.id r.allocation.id || text_eq a.user_id r.allocation.user_id)
      constraint r.allocation db.allocations

abbrev pub new_credentials : AccessCredential → Db → Result (List AccessCredential)
new_credentials c db = added_row (credential_clashes c) constraint c db.credentials

unfoldable pub add_owner : UserCreateRecord → Db → Result Db
add_owner r db = and_then (new_users r db) λ users. and_then (new_identities r db) λ identities.
    and_then (new_allocations r db) λ allocations.
      ok (record db { users = users; identities = identities; allocations = allocations })

unfoldable pub add_key : AccessCredential → Db → Result Db
add_key c db =
    and_then (new_credentials c db) λ credentials. ok (record db { credentials = credentials })

abbrev empty_cursor : TrafficCursorRecord
empty_cursor = record {
  boot_epoch = none;
  uplink_counter = none;
  downlink_counter = none;
  uplink_epoch = 0;
  downlink_epoch = 0;
  last_observed_at = none;
  last_success_at = none;
  missing_since = none;
}

abbrev cycle_row_clashes : CycleRow → CycleRow → Bool
cycle_row_clashes c d =
    text_eq d.id c.id
    || (text_eq d.allocation_id c.allocation_id && d.starts_at == c.starts_at)
    || (is_open_cycle c.status && text_eq d.allocation_id c.allocation_id && is_open_cycle d.status)

-- The tables after the `INSERT`s of the policy, the cycle, the totals and the cursor.
abbrev pub new_policies : UserCreateRecord → Books → Result (List PolicyRow)
new_policies r b = elim (validate_quota_policy r.policy.limit_bytes r.policy.reset_day) [
  | err _ ↦ err constraint
  | ok _ ↦
      added_row (λ p. text_eq p.allocation_id r.policy.allocation_id) constraint r.policy b.policies
]

abbrev pub new_cycles : UserCreateRecord → Books → Result (List CycleRow)
new_cycles r b = added_row (cycle_row_clashes r.cycle) constraint r.cycle b.cycles

abbrev pub new_totals : UserCreateRecord → Books → Result (List TotalRow)
new_totals r b =
    added_row (λ t. text_eq t.allocation_id r.allocation.id) constraint
      (record { allocation_id = r.allocation.id; uplink = 0; downlink = 0 }) b.totals

abbrev pub new_cursors : UserCreateRecord → Books → Result (List CursorRow)
new_cursors r b =
    added_row (λ k. text_eq k.allocation_id r.allocation.id) constraint
      (record { allocation_id = r.allocation.id; cursor = empty_cursor }) b.cursors

unfoldable pub open_books : UserCreateRecord → Books → Result Books
open_books r b = and_then (new_policies r b) λ policies. and_then (new_cycles r b) λ cycles.
    and_then (new_totals r b) λ totals. and_then (new_cursors r b) λ cursors.
      ok (record b { policies = policies; cycles = cycles; totals = totals; cursors = cursors })

-- The rows of the panel's own tables.
unfoldable pub create_rows : UserCreateRecord → Db → Result Db
unfolding add_owner insert_dedicated_inbound add_key insert_operation
create_rows r db = and_then (add_owner r db) λ db1.
    and_then (insert_dedicated_inbound r.inbound_row db1)
      λ db2. and_then (add_key r.credential db2) λ db3. insert_operation r.operation db3

-- The body of `CreateUser`. An error undoes all of it, so that the rows of quota and traffic are written
-- after the others, and the kind of the first error is the only difference.
unfoldable pub create_body : UserCreateRecord → Books → Result (Books × Unit {0})
unfolding create_rows open_books
create_body r b = and_then (create_rows r b.db) λ db.
    and_then (open_books r (record b { db = db }))
      λ b1. ok (audited r.port_audit (audited r.audit b1), tt)

unfoldable pub create_user :
    UserCreateRecord → Panel Books → Panel Books × Result (Option (Unit {0}))
unfolding with_command create_body
create_user r = with_command r.command (create_body r)
