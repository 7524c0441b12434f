-- ===== src/Store/Tables.antt =====
-- The tables that the synchronization transactions read and write, as lists of rows. A column that the
-- modelled statements neither read nor branch on (times of creation, texts of errors) is left out, and
-- `NULL` is `none`. Statements on these tables do not fail but by the constraints that are modelled.
use xpanel.Prelude.{ℕ, Bool, true, false, List, Option, find}
use xpanel.Prelude.Text.{Text, text_eq}
use xpanel.Domain.User.{ManagedUser, AccessAllocation, AccessCredential}
use xpanel.Domain.Sync.{SynchronizationOperation, SyncState}
use xpanel.Domain.Port.{PortPool}

-- internal/domain/template.go: `CompatibilityState`.
pub data CompatibilityState : Type 0 where
  unverified compatible incompatible unreachable : CompatibilityState

abbrev pub is_incompatible : CompatibilityState → Bool
is_incompatible incompatible = true
is_incompatible _ = false

-- `inbound_templates`.
pub record TemplateRow : Type 0 where
  pub id : Text
  pub listen_address : Text
  pub pool : PortPool
  pub method : Text
  pub compatibility : CompatibilityState
  pub archived : Bool
  pub validated_generation : Option ℕ
  pub revision : ℕ

-- `dedicated_inbounds`.
pub record InboundRow : Type 0 where
  pub allocation_id : Text
  pub template_id : Text
  pub inbound_tag : Text
  pub listen_address : Text
  pub port : ℕ
  pub server_key : List ℕ
  pub desired_present : Bool
  pub observed_present : Option Bool
  pub released_at : Option ℕ

-- `xray_user_identities`, joined by allocation.
pub record IdentityRow : Type 0 where
  pub allocation_id : Text
  pub statistics_id : Text

-- internal/domain/identity.go: the actions that the synchronizer audits.
pub data Action : Type 0 where
  sync_succeeded sync_failed inbound_created inbound_removed port_released : Action
  user_updated user_deleted credential_rotated port_changed reconcile_removed_unknown : Action
  quota_exceeded cycle_restored : Action

pub record AuditEvent : Type 0 where
  pub action : Action
  pub target_id : Text
  pub succeeded : Bool

-- `health_state` of `managed_xray_instances`.
pub data Health : Type 0 where
  unknown healthy unreachable incompatible : Health

-- `managed_xray_instances`, its one row. The boot epoch is the time that its text denotes.
pub record InstanceRow : Type 0 where
  pub health : Health
  pub boot_epoch : Option ℕ
  pub capability_generation : ℕ
  pub last_uptime_seconds : ℕ

pub data DriftKind : Type 0 where
  identity inbound : DriftKind

-- `drift_removals`, without the texts of errors.
pub record DriftRow : Type 0 where
  pub id : Text
  pub template_id : Option Text
  pub inbound_tag : Text
  pub kind : DriftKind
  pub statistics_id : Text
  pub state : SyncState
  pub attempt_count : ℕ
  pub next_attempt_at : ℕ
  pub lease_owner : Option Text
  pub lease_expires_at : Option ℕ
  pub created_at : ℕ
  pub superseded_by : Option Text

pub record Db : Type 0 where
  pub instance_row : InstanceRow
  pub users : List ManagedUser
  pub allocations : List AccessAllocation
  pub templates : List TemplateRow
  pub inbounds : List InboundRow
  pub identities : List IdentityRow
  pub credentials : List AccessCredential
  pub operations : List SynchronizationOperation
  pub drift_removals : List DriftRow
  pub audit_events : List AuditEvent

-- `SELECT ... WHERE id=?`.
unfoldable pub operation_by_id :
    Text → List SynchronizationOperation → Option SynchronizationOperation
operation_by_id id = find (λ o. text_eq o.id id)

unfoldable pub allocation_by_id : Text → List AccessAllocation → Option AccessAllocation
allocation_by_id id = find (λ a. text_eq a.id id)

unfoldable pub user_by_id : Text → List ManagedUser → Option ManagedUser
user_by_id id = find (λ u. text_eq u.id id)

unfoldable pub template_by_id : Text → List TemplateRow → Option TemplateRow
template_by_id id = find (λ t. text_eq t.id id)
