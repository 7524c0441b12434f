-- ===== src/Store/Accounts/Commands.antt =====
-- internal/persistence/sqlite/store_quota.go, `UpdateUser` and `ResetCycleTraffic`: the commands that change
-- what the quota allows or what is counted against it. Names of users are not modelled: whether another
-- user holds the new name is given.
pub mod Judging
pub mod Clearing
pub mod Tests
use xpanel.Prelude.{
  ℕ, zero, suc, ◌+◌, Bool, true, false, not, ◌&&◌, ◌||◌, List, [], ◌∷◌, ◌++◌, Option, none, some,
  find, any, if◌then◌else◌, update_where,
}
use xpanel.Prelude.Text.{Text, text_eq}
use xpanel.Prelude.Int.{ℤ, pos}
use xpanel.Domain.Errors.{Error, Result, ok, err, conflict_error, plain_error}
use xpanel.Domain.User.{is_within_limit}
use xpanel.Domain.Sync.{SynchronizationOperation}
use xpanel.Domain.Quota.{decide_transition, is_quota_exceeded, validate_quota_policy}
use xpanel.Store.Tables.{Db, Action, AuditEvent, quota_exceeded, cycle_restored}
use xpanel.Store.Sync.{no_rows}
use xpanel.Store.Intent.{apply_decision}
use xpanel.Store.Accounts.{Books, CycleRow, Facts, ResetRow, is_open_cycle, read_facts, audited}
use xpanel.Store.Users.{CommandRow, Panel, with_command, touch_user, and_then}

-- `DecideTransition` on the facts just read, and `applyDecision`.
unfoldable pub decide :
    Text → Facts → Bool → Bool → SynchronizationOperation → ℕ → Books → Result (Books × Bool)
decide id f admin_enabled over template now b =
    let d = decide_transition f.facts admin_enabled over in
    let applied = apply_decision id f.facts d admin_enabled (some template) now b.db in
    elim applied.1 [ err e ↦ err e | ok created ↦ ok (record b { db = applied.0 }, created) ]

-- `ports.UserUpdateRecord`; `quota_audit` is the target of the audit template.
pub record UserUpdateRecord : Type 0 where
  pub user_id : Text
  pub expected_revision : ℕ
  pub name_taken : Bool
  pub limit_bytes : Option ℤ
  pub reset_day : ℤ
  pub admin_enabled : Bool
  pub operation_template : SynchronizationOperation
  pub quota_audit : Option Text
  pub command : CommandRow
  pub audits : List AuditEvent
  pub now : ℕ

-- The two `UPDATE`s before the facts are read again.
unfoldable pub rename : UserUpdateRecord → Books → Result Books
unfolding touch_user
rename r b = and_then (touch_user r.user_id r.expected_revision (λ u. u) b.db) λ db.
    if r.name_taken
    then err (conflict_error "user name already exists")
    else ok (record b { db = db })

unfoldable pub allocation_of : Text → Books → Option Text
allocation_of user_id b = elim (find (λ a. text_eq a.user_id user_id) b.db.allocations) [
  | none ↦ none
  | some a ↦ some a.id
]

-- The table's checks are those of `ValidateQuotaPolicy`.
unfoldable pub set_policy : Text → Option ℤ → ℤ → Books → Result Books
set_policy id limit reset_day b = elim (validate_quota_policy limit reset_day) [
  | err _ ↦ err (plain_error "CHECK constraint failed: quota_policies")
  | ok _ ↦ ok (record b {
    policies =
        update_where (λ p. text_eq p.allocation_id id)
          (λ p. record p { limit_bytes = limit; reset_day = reset_day }) b.policies;
  })
]

abbrev event : Action → Text → AuditEvent
event action target = record { action = action; target_id = target; succeeded = true }

-- The `switch`: a change of the quota's state is audited.
unfoldable pub audit_quota : Option Text → Bool → Bool → Books → Books
audit_quota none over within b = b
audit_quota (some target) over within b =
    if over && within
    then audited (event quota_exceeded target) b
    else if not over && not within
    then audited (event cycle_restored target) b
    else b

abbrev pub over_of : Facts → Bool
over_of f = is_quota_exceeded f.limit (pos f.accounted_uplink) (pos f.accounted_downlink)

abbrev pub with_audits : List AuditEvent → Books → Books
with_audits events b = record b { db = record b.db { audit_events = b.db.audit_events ++ events } }

-- The statements from the policy on, for the user's allocation.
unfoldable pub apply_policy : Text → UserUpdateRecord → Books → Result (Books × Bool)
unfolding set_policy decide audit_quota
apply_policy id r b = and_then (set_policy id r.limit_bytes r.reset_day b) λ b1.
    and_then (read_facts id b1) λ f.
      and_then (decide id f r.admin_enabled (over_of f) r.operation_template r.now b1) λ d. ok (
        with_audits r.audits
            (audit_quota r.quota_audit (over_of f) (is_within_limit f.facts.quota_state) d.0),
        d.1,
      )

unfoldable pub update_body : UserUpdateRecord → Books → Result (Books × Bool)
unfolding rename allocation_of apply_policy
update_body r b =
    and_then (rename r b) λ b1. elim (allocation_of r.user_id b1) [
      | none ↦ err no_rows
      | some id ↦ apply_policy id r b1
    ]

unfoldable pub update_user : UserUpdateRecord → Panel Books → Panel Books × Result (Option Bool)
unfolding with_command update_body
update_user r = with_command r.command (update_body r)

-- `ports.QuotaResetRecord`.
pub record QuotaResetRecord : Type 0 where
  pub allocation_id : Text
  pub cycle_id : Text
  pub event_id : Text
  pub actor_id : Text
  pub command : CommandRow
  pub operation_template : SynchronizationOperation
  pub audit : AuditEvent
  pub now : ℕ

abbrev pub reset_row : QuotaResetRecord → CycleRow → Option ℕ → Option ℕ → ResetRow
reset_row r c uplink downlink = record {
  id = r.event_id;
  allocation_id = r.allocation_id;
  cycle_id = r.cycle_id;
  command_id = r.command.id;
  previous_uplink = c.accounted_uplink;
  previous_downlink = c.accounted_downlink;
  uplink_cursor = uplink;
  downlink_cursor = downlink;
  actor_id = r.actor_id;
  occurred_at = r.now;
}

abbrev pub cleared : CycleRow → CycleRow
cleared c = record c {
  accounted_uplink = 0;
  accounted_downlink = 0;
  manual_reset_count = c.manual_reset_count + 1;
}

-- The `INSERT` of the event, with its keys, and the `UPDATE` of the cycle.
unfoldable pub clear_cycle : ResetRow → Books → Result Books
clear_cycle e b =
    if any (λ x. text_eq x.id e.id || text_eq x.command_id e.command_id) b.resets
    then err (plain_error "UNIQUE constraint failed: quota_reset_events")
    else ok (record b {
      resets = b.resets ++ e ∷ [];
      cycles = update_where (λ c. text_eq c.id e.cycle_id) cleared b.cycles;
    })

unfoldable pub reset_body : QuotaResetRecord → Books → Result (Books × Bool)
unfolding clear_cycle decide
reset_body r b = elim (find (λ c. text_eq c.id r.cycle_id && is_open_cycle c.status) b.cycles) [
  | none ↦ err (conflict_error "quota cycle is no longer open")
  | some c ↦ elim (find (λ x. text_eq x.allocation_id r.allocation_id) b.cursors) [
    | none ↦ err no_rows
    | some x ↦
        and_then (clear_cycle (reset_row r c x.cursor.uplink_counter x.cursor.downlink_counter) b)
          λ b1. and_then (read_facts r.allocation_id b1) λ f.
            and_then
              (decide r.allocation_id f f.facts.admin_enabled false r.operation_template r.now b1)
              λ d. ok (audited r.audit d.0, d.1)
  ]
]

unfoldable pub reset_cycle_traffic :
    QuotaResetRecord → Panel Books → Panel Books × Result (Option Bool)
unfolding with_command reset_body
reset_cycle_traffic r = with_command r.command (reset_body r)
