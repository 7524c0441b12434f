-- ===== src/Store/Users.antt =====
-- internal/persistence/sqlite/store_users.go and store_inbounds.go: the transactions that a command makes
-- on a user. Texts of errors other than the domain's, times of rows and the columns that
-- nothing reads are left out. An error rolls the transaction back.
pub mod Replays
pub mod Holding
pub mod Ports
pub mod Tests
use xpanel.Prelude.{
  ℕ, ◌+◌, Bool, true, false, not, ◌&&◌, ◌||◌, List, [], ◌∷◌, ◌++◌, Option, none, some, ◌==◌,
  is_some, if◌then◌else◌, find, update_where, count_if, any,
}
use xpanel.Prelude.Text.{Text, text_eq}
use xpanel.Domain.Errors.{Error, Result, ok, err, conflict_error, validation_error, plain_error}
use xpanel.Domain.User.{
  LifecycleState, ManagedUser, AccessAllocation, AccessCredential, CredentialState, ProjectionState,
  is_active,
}
use xpanel.Domain.Inbound.{validate_inbound_tag}
use xpanel.Domain.Port.{PortPool, in_pool}
use xpanel.Domain.Sync.{SynchronizationOperation}
use xpanel.Store.Tables.{
  Db, InboundRow, IdentityRow, TemplateRow, AuditEvent, allocation_by_id, template_by_id,
}
use xpanel.Store.Sync.{no_rows, is_unreleased_of, supersede_older, insert_operation}
use xpanel.Store.Outcome.{set_allocation}

-- `domain_commands`.
pub record CommandRow : Type 0 where
  pub id : Text
  pub fingerprint : Text

-- Tables with the commands that were done on them.
pub record Panel (T : Type 0) : Type 0 where
  pub tables : T
  pub commands : List CommandRow

abbrev reused : Error
reused = conflict_error "request identifier was reused with different input"

-- `commandReplay`.
unfoldable pub command_replay : CommandRow → List CommandRow → Result Bool
command_replay c commands = elim (find (λ x. text_eq x.id c.id) commands) [
  | none ↦ ok false
  | some x ↦ if text_eq x.fingerprint c.fingerprint then ok true else err reused
]

-- What every command of this file does around its own writes, in one `WithWriteTx`: `commandReplay`, after
-- which a replay does nothing and answers none, and `SaveCommand` with what `body` does, or nothing.
unfoldable pub with_command :
    {T B : Type 0} → CommandRow → (T → Result (T × B)) → Panel T → Panel T × Result (Option B)
unfolding command_replay
with_command c body p = elim (command_replay c p.commands) [
  | err e ↦ (p, err e)
  | ok true ↦ (p, ok none)
  | ok false ↦ elim (body p.tables) [
    | err e ↦ (p, err e)
    | ok (t, b) ↦ (record { tables = t; commands = p.commands ++ c ∷ [] }, ok (some b))
  ]
]

-- `AppendAudit`, as the last statement.
abbrev pub audited : AuditEvent → Db → Result (Db × Unit {0})
audited event db = ok (record db { audit_events = db.audit_events ++ event ∷ [] }, tt)

-- `UPDATE managed_users SET revision=revision+1 WHERE id=? AND revision=? AND deleted_at IS NULL`, with
-- another column; a user is deleted where `deleted_at` is set.
abbrev pub is_at_revision : Text → ℕ → ManagedUser → Bool
is_at_revision id revision u = text_eq u.id id && u.revision == revision && is_active u.lifecycle

abbrev user_changed : Error
user_changed = conflict_error "user changed since the page was loaded"

unfoldable pub touch_user : Text → ℕ → (ManagedUser → ManagedUser) → Db → Result Db
touch_user id revision f db =
    if count_if (is_at_revision id revision) db.users == 1
    then ok (record db {
      users =
          update_where (is_at_revision id revision)
            (λ u. f (record u { revision = u.revision + 1 })) db.users;
    })
    else err user_changed

-- What a `Result` holds is passed on.
abbrev pub and_then : {A B : Type 0} → Result A → (A → Result B) → Result B
and_then (ok x) f = f x
and_then (err e) f = err e

-- The intent of a command, and the allocation that wants it.
unfoldable pub intend :
    SynchronizationOperation → Text → ℕ → (AccessAllocation → AccessAllocation) → Db → Result Db
unfolding supersede_older insert_operation set_allocation
intend o allocation_id now f db =
    and_then (insert_operation o (supersede_older o.allocation_id o.desired_revision now db)) λ db'.
      ok (
        set_allocation allocation_id
          (λ a. f (record a {
            desired_revision = o.desired_revision;
            projection_state = ProjectionState.pending;
          }))
          db')

-- dedicated_inbounds_port_idx, where `address` and `port` are held by a row that is not released.
abbrev pub is_bound : Text → ℕ → InboundRow → Bool
is_bound address port i =
    text_eq i.listen_address address && i.port == port && not (is_some i.released_at)

abbrev pub port_taken : Error
port_taken = conflict_error "port is already assigned to another user"

-- `insertDedicatedInbound`: the tag's check, and the keys of the table.
unfoldable pub insert_dedicated_inbound : InboundRow → Db → Result Db
insert_dedicated_inbound i db = and_then (validate_inbound_tag i.inbound_tag) λ _.
    if any (λ j. text_eq j.allocation_id i.allocation_id || text_eq j.inbound_tag i.inbound_tag)
        db.inbounds
      || (not (is_some i.released_at) && any (is_bound i.listen_address i.port) db.inbounds)
    then err port_taken
    else ok (record db { inbounds = db.inbounds ++ i ∷ [] })

-- `ports.PortChangeRecord`.
pub record PortChangeRecord : Type 0 where
  pub user_id : Text
  pub allocation_id : Text
  pub expected_revision : ℕ
  pub old_port : ℕ
  pub new_port : ℕ
  pub operation : SynchronizationOperation
  pub command : CommandRow
  pub audit : AuditEvent
  pub now : ℕ

abbrev pub is_listening_at : Text → ℕ → InboundRow → Bool
is_listening_at allocation_id port i = is_unreleased_of allocation_id i && i.port == port

abbrev pub moved_to : ℕ → InboundRow → InboundRow
moved_to port i = record i { port = port; observed_present = some false }

abbrev port_moved : Error
port_moved = conflict_error "port assignment changed since the page was loaded"

-- The `UPDATE dedicated_inbounds`: allocation_id is the key, so one row at most is updated, and it clashes
-- with any other row that holds the new port on its address.
unfoldable pub move_port : Text → ℕ → ℕ → Db → Result Db
move_port allocation_id old_port new_port db =
    elim (find (is_listening_at allocation_id old_port) db.inbounds) [
      | none ↦ err port_moved
      | some i ↦
          if any
            (λ j.
              is_bound i.listen_address new_port j && not (text_eq j.allocation_id allocation_id))
            db.inbounds
          then err port_taken
          else ok (record db {
            inbounds =
                update_where (is_listening_at allocation_id old_port) (moved_to new_port)
                  db.inbounds;
          })
    ]

-- The pool of the allocation's template.
unfoldable pub pool_of : Text → Db → Option PortPool
pool_of allocation_id db = elim (allocation_by_id allocation_id db.allocations) [
  | none ↦ none
  | some a ↦ elim (template_by_id a.template_id db.templates) [ none ↦ none | some t ↦ some t.pool ]
]

abbrev outside_pool : Error
outside_pool = validation_error "port" "port is outside the template port pool"

unfoldable pub check_pool : Text → ℕ → Db → Result (Unit {0})
check_pool allocation_id port db = elim (pool_of allocation_id db) [
  | none ↦ err no_rows
  | some pool ↦ if in_pool pool port then ok tt else err outside_pool
]

-- The body of `ChangeInboundPort`.
unfoldable pub change_port_body : PortChangeRecord → Db → Result Db
unfolding touch_user check_pool move_port intend
change_port_body r db = and_then (touch_user r.user_id r.expected_revision (λ u. u) db) λ db1.
    and_then (check_pool r.allocation_id r.new_port db1) λ _.
      and_then (move_port r.allocation_id r.old_port r.new_port db1) λ db2.
        intend r.operation r.allocation_id r.now (λ a. record a { observed_present = some false })
          db2

unfoldable pub change_inbound_port :
    PortChangeRecord → Panel Db → Panel Db × Result (Option (Unit {0}))
unfolding with_command change_port_body
change_inbound_port r =
    with_command r.command λ db. and_then (change_port_body r db) (audited r.audit)

-- `ports.RotationRecord`.
pub record RotationRecord : Type 0 where
  pub user_id : Text
  pub allocation_id : Text
  pub expected_revision : ℕ
  pub credential : AccessCredential
  pub operation : SynchronizationOperation
  pub command : CommandRow
  pub audit : AuditEvent
  pub now : ℕ

abbrev is_pending : CredentialState → Bool
is_pending CredentialState.pending = true
is_pending _ = false

abbrev pub is_pending_of : Text → AccessCredential → Bool
is_pending_of allocation_id c = text_eq c.allocation_id allocation_id && is_pending c.state

abbrev is_active_credential : CredentialState → Bool
is_active_credential CredentialState.active = true
is_active_credential _ = false

abbrev rotating_already : Error
rotating_already = conflict_error "credential rotation already in progress"

-- UNIQUE(id), UNIQUE(allocation_id, version), and the unique indexes on pending and active credentials.
abbrev pub credential_clashes : AccessCredential → AccessCredential → Bool
credential_clashes c x =
    text_eq x.id c.id
    || (text_eq x.allocation_id c.allocation_id
        && (x.version == c.version
            || (is_pending x.state && is_pending c.state)
            || (is_active_credential x.state && is_active_credential c.state)))

-- The check for a pending credential, and the insertion.
unfoldable pub add_credential : Text → AccessCredential → Db → Result Db
add_credential allocation_id c db =
    if any (is_pending_of allocation_id) db.credentials || any (credential_clashes c) db.credentials
    then err rotating_already
    else ok (record db { credentials = db.credentials ++ c ∷ [] })

unfoldable pub rotate_body : RotationRecord → Db → Result Db
unfolding touch_user add_credential intend
rotate_body r db = and_then (touch_user r.user_id r.expected_revision (λ u. u) db) λ db1.
    and_then (add_credential r.allocation_id r.credential db1) λ db2.
      intend r.operation r.allocation_id r.now
        (λ a. record a { desired_credential_version = r.credential.version }) db2

unfoldable pub rotate_credential : RotationRecord → Panel Db → Panel Db × Result (Option (Unit {0}))
unfolding with_command rotate_body
rotate_credential r = with_command r.command λ db. and_then (rotate_body r db) (audited r.audit)

-- `ports.DeleteRecord`.
pub record DeleteRecord : Type 0 where
  pub user_id : Text
  pub allocation_id : Text
  pub expected_revision : ℕ
  pub operation : SynchronizationOperation
  pub command : CommandRow
  pub audit : AuditEvent
  pub now : ℕ

unfoldable pub delete_body : DeleteRecord → Db → Result Db
unfolding touch_user intend
delete_body r db =
    and_then
      (touch_user r.user_id r.expected_revision
        (λ u. record u { lifecycle = LifecycleState.deleted }) db)
      λ db1. intend r.operation r.allocation_id r.now (λ a. record a { admin_enabled = false }) db1

unfoldable pub soft_delete_user : DeleteRecord → Panel Db → Panel Db × Result (Option (Unit {0}))
unfolding with_command delete_body
soft_delete_user r = with_command r.command λ db. and_then (delete_body r db) (audited r.audit)
