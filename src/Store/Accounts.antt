-- ===== src/Store/Accounts.antt =====
-- internal/persistence/sqlite/store_traffic.go and store_quota.go: the tables of traffic and quota beside
-- those of the panel, and the facts that the transactions read again. Sums are columns that are never
-- negative; their bounds keep an addition in range. Times are milliseconds.
pub mod Cycles
pub mod Batch
pub mod Settling
pub mod Enforcing
pub mod Counting
pub mod Commands
pub mod Creation
pub mod Tests
use xpanel.Prelude.{
  ℕ, Bool, true, false, ◌&&◌, List, [], ◌∷◌, ◌++◌, Option, none, some, if◌then◌else◌, find,
}
use xpanel.Prelude.Text.{Text, text_eq}
use xpanel.Prelude.Int.{ℤ, pos}
use xpanel.Domain.Errors.{Error, Result, ok, err}
use xpanel.Domain.User.{AccessAllocation, ManagedUser}
use xpanel.Domain.Traffic.{ContinuityEvent}
use xpanel.Domain.Quota.{AllocationFacts}
use xpanel.Traffic.Update.{TrafficCursorRecord}
use xpanel.Store.Tables.{Db, AuditEvent, allocation_by_id, user_by_id}
use xpanel.Store.Sync.{no_rows}

-- `quota_policies`.
pub record PolicyRow : Type 0 where
  pub allocation_id : Text
  pub limit_bytes : Option ℤ
  pub reset_day : ℤ

pub data CycleStatus : Type 0 where
  opened closed : CycleStatus

-- `quota_cycles`.
pub record CycleRow : Type 0 where
  pub id : Text
  pub allocation_id : Text
  pub starts_at : ℕ
  pub ends_at : ℕ
  pub timezone : Text
  pub reset_day : ℤ
  pub status : CycleStatus
  pub gross_uplink : ℕ
  pub gross_downlink : ℕ
  pub accounted_uplink : ℕ
  pub accounted_downlink : ℕ
  pub manual_reset_count : ℕ

-- `traffic_cursors`.
pub record CursorRow : Type 0 where
  pub allocation_id : Text
  pub cursor : TrafficCursorRecord

-- `allocation_traffic_totals`.
pub record TotalRow : Type 0 where
  pub allocation_id : Text
  pub uplink : ℕ
  pub downlink : ℕ

-- `daily_traffic_aggregates`.
pub record DailyRow : Type 0 where
  pub allocation_id : Text
  pub day_start_utc : ℕ
  pub local_date : Text
  pub timezone : Text
  pub uplink : ℕ
  pub downlink : ℕ

-- `traffic_continuity_events`.
pub record EventRow : Type 0 where
  pub allocation_id : Text
  pub event : ContinuityEvent
  pub occurred_at : ℕ

-- `quota_reset_events`.
pub record ResetRow : Type 0 where
  pub id : Text
  pub allocation_id : Text
  pub cycle_id : Text
  pub command_id : Text
  pub previous_uplink : ℕ
  pub previous_downlink : ℕ
  pub uplink_cursor : Option ℕ
  pub downlink_cursor : Option ℕ
  pub actor_id : Text
  pub occurred_at : ℕ

pub record Books : Type 0 where
  pub db : Db
  pub quota_timezone : Text
  pub policies : List PolicyRow
  pub cycles : List CycleRow
  pub cursors : List CursorRow
  pub totals : List TotalRow
  pub daily : List DailyRow
  pub continuity : List EventRow
  pub resets : List ResetRow

abbrev pub is_open_cycle : CycleStatus → Bool
is_open_cycle opened = true
is_open_cycle closed = false

-- `WHERE allocation_id=? AND status='open'`.
abbrev pub is_open_of : Text → CycleRow → Bool
is_open_of id c = text_eq c.allocation_id id && is_open_cycle c.status

unfoldable pub open_cycle : Text → Books → Option CycleRow
open_cycle id b = find (is_open_of id) b.cycles

unfoldable pub policy_of : Text → Books → Option PolicyRow
policy_of id b = find (λ p. text_eq p.allocation_id id) b.policies

-- `allocationFacts`.
pub record Facts : Type 0 where
  pub facts : AllocationFacts
  pub limit : Option ℤ
  pub accounted_uplink : ℕ
  pub accounted_downlink : ℕ

abbrev pub facts_from : AccessAllocation → ManagedUser → PolicyRow → CycleRow → Facts
facts_from a u p c = record {
  facts = record {
    lifecycle = u.lifecycle;
    admin_enabled = a.admin_enabled;
    quota_state = a.quota_state;
    desired_revision = a.desired_revision;
    desired_credential_version = a.desired_credential_version;
  };
  limit = p.limit_bytes;
  accounted_uplink = c.accounted_uplink;
  accounted_downlink = c.accounted_downlink;
}

-- `readFacts`: a join, whose missing row is an error.
unfoldable pub read_facts : Text → Books → Result Facts
read_facts id b = elim (allocation_by_id id b.db.allocations) [
  | none ↦ err no_rows
  | some a ↦ elim (user_by_id a.user_id b.db.users) [
    | none ↦ err no_rows
    | some u ↦ elim (policy_of id b) [
      | none ↦ err no_rows
      | some p ↦ elim (open_cycle id b) [ none ↦ err no_rows | some c ↦ ok (facts_from a u p c) ]
    ]
  ]
]

-- `AppendAudit` in the same transaction.
abbrev pub audited : AuditEvent → Books → Books
audited event b = record b { db = record b.db { audit_events = b.db.audit_events ++ event ∷ [] } }
