-- ===== src/Reconcile.antt =====
-- internal/application/reconciliation_service.go: one round of reconciliation. The callback that runs a
-- validation again, the count of stuck allocations, which only a summary shows, and the log are left out.
-- Times are milliseconds.
pub mod Queueing
pub mod Orphans
pub mod Tests
use xpanel.Prelude.{
  ℕ, ◌+◌, Bool, true, false, not, ◌&&◌, ◌||◌, List, [], ◌∷◌, ◌++◌, Option, none, some, ltb, ◌==◌,
  any, count_if, find, select, map, Bool_eq, is_some, if◌then◌else◌,
}
use xpanel.Prelude.Text.{Text, text_eq}
use xpanel.Domain.Errors.{Error, Result, ok, err, plain_error}
use xpanel.Domain.User.{ManagedUser, AccessAllocation, desired_present, pending_sync}
use xpanel.Domain.Inbound.{rotation_safety_id}
use xpanel.Domain.Sync.{
  SynchronizationOperation, new_synchronization_operation, inbound_phase_for, SyncReason,
}
use xpanel.Ports.{CallError, Reply, done, failed, RemoteInbound, RemoteUser, Adapter}
use xpanel.Store.Tables.{
  Db, InboundRow, TemplateRow, DriftRow, DriftKind, identity, inbound, user_by_id, template_by_id,
  is_incompatible,
}
use xpanel.Store.Outcome.{confirm_inbound_presence}
use xpanel.Store.Intent.{
  has_open_rotation, has_open_operation, enqueue_reconcile, record_observation,
}
use xpanel.Store.Drift.{
  enqueue_drift_removal, stale_drift_removals, orphan_stale_drift_removals, owner_key,
}
use xpanel.Store.Templates.{
  CapabilitySignal, advance_capability_generation, mark_instance_healthy, mark_instance_unreachable,
  invalidate_stale_capability_evidence,
}
use xpanel.Traffic.Counters.{InstanceObservation}
use xpanel.Traffic.Update.{epoch_string}
use xpanel.Worker.World.{World, M, Flow, go, stop, ◌>>=◌, ◌>>◌, continue, rpc}

-- `ports.UserRecord`, as far as the service reads it.
pub record UserRecord : Type 0 where
  pub user : ManagedUser
  pub allocation : AccessAllocation
  pub inbound_row : InboundRow
  pub statistics_id : Text

abbrev record_of : Db → AccessAllocation → List UserRecord
record_of db a = elim (user_by_id a.user_id db.users) [
  | none ↦ []
  | some u ↦ elim (find (λ i. text_eq i.allocation_id a.id) db.inbounds) [
    | none ↦ []
    | some i ↦ elim (find (λ x. text_eq x.allocation_id a.id) db.identities) [
      | none ↦ []
      | some x ↦
          record { user = u; allocation = a; inbound_row = i; statistics_id = x.statistics_id } ∷ []
    ]
  ]
]

-- `ListUsers` with the deleted ones, in table order: the joins on the keys.
unfoldable pub all_records : Db → List AccessAllocation → List UserRecord
all_records db [] = []
all_records db (a ∷ rest) = record_of db a ++ all_records db rest

-- `Templates(ctx, false)`.
unfoldable pub live_templates : Db → List TemplateRow
live_templates db = select (λ t. not t.archived) db.templates

-- `remoteInbounds`.
unfoldable pub panel_tags : List RemoteInbound → List Text
panel_tags inbounds = map (λ i. i.inbound_tag) (select (λ i. i.panel_managed) inbounds)

abbrev pub has_tag : List Text → Text → Bool
has_tag tags tag = any (λ t. text_eq t tag) tags

abbrev wanted : UserRecord → Bool
wanted r = desired_present r.allocation r.user

abbrev was_observed : UserRecord → Bool
was_observed r = elim r.inbound_row.observed_present [ none ↦ false | some seen ↦ seen ]

-- All that should listen are gone, and one of them was listening before.
unfoldable pub vanished : List Text → List UserRecord → Bool
vanished tags records =
    ltb 0 (count_if wanted records)
    && count_if (λ r. wanted r && has_tag tags r.inbound_row.inbound_tag) records == 0
    && ltb 0 (count_if (λ r. wanted r && was_observed r) records)

-- `anyTemplateID`.
unfoldable pub any_template_id : List TemplateRow → Text
any_template_id ts = elim (find (λ t. not t.archived) ts) [ none ↦ [] | some t ↦ t.id ]

-- The arguments of one `EnqueueDriftRemoval`.
pub record Request : Type 0 where
  pub template : Text
  pub tag : Text
  pub kind : DriftKind
  pub statistics : Text

-- The calls of a loop, one after another; the k-th call draws an identifier from the tables it finds.
unfoldable pub queue_all : (Db → Text) → ℕ → List Request → Db → Result Db
queue_all fresh now [] db = ok db
queue_all fresh now (q ∷ qs) db =
    let (db', r) = enqueue_drift_removal (fresh db) q.template q.tag q.kind q.statistics now db in
    elim r [ err e ↦ err e | ok _ ↦ queue_all fresh now qs db' ]

-- The inbounds of the panel that no record names.
unfoldable pub orphans : Text → List Text → List UserRecord → List Request
orphans template tags records =
    map (λ tag. record { template = template; tag = tag; kind = inbound; statistics = tag })
      (select (λ tag. not (any (λ r. text_eq r.inbound_row.inbound_tag tag) records)) tags)

-- The clients that the inner loop does not pass over.
abbrev pub is_unknown : Text → Bool → RemoteUser → Bool
is_unknown own rotating u =
    u.present
    && not (text_eq u.statistics_id own)
    && not (rotating && text_eq u.statistics_id (rotation_safety_id own))

unfoldable pub unknown_clients : Text → Text → Text → Bool → List RemoteUser → List Request
unknown_clients template tag own rotating users =
    map
      (λ u. record {
        template = template;
        tag = tag;
        kind = identity;
        statistics = u.statistics_id;
      })
      (select (is_unknown own rotating) users)

-- The failed removals whose inbound is gone, to be confirmed.
unfoldable pub to_confirm : Text → List Text → List DriftRow → List Request
to_confirm template tags rows =
    map
      (λ r. record {
        template = template;
        tag = r.inbound_tag;
        kind = r.kind;
        statistics = r.statistics_id;
      })
      (select (λ r. not (has_tag tags r.inbound_tag)) rows)

-- The operation of a drift.
abbrev reconcile_operation : Text → UserRecord → ℕ → SynchronizationOperation
reconcile_operation id r now =
    new_synchronization_operation id r.allocation.id (r.allocation.desired_revision + 1) (wanted r)
      (some r.allocation.desired_credential_version) SyncReason.reconcile
      (inbound_phase_for (wanted r)) now

-- The end of a record's turn, once its state is observed.
unfoldable pub settle_record : (Db → Text) → ℕ → UserRecord → Bool → Db → Result Db
settle_record fresh now r actual db =
    let seen =
      confirm_inbound_presence r.allocation.id actual
        (record_observation r.allocation.id actual db) in
    if pending_sync r.allocation
      || Bool_eq actual (wanted r)
      || has_open_operation r.allocation.id seen
    then ok seen
    else let (db', queued) =
        enqueue_reconcile r.allocation.id r.allocation.desired_revision
          (reconcile_operation (fresh seen) r now) now seen in
      elim queued [ err e ↦ err e | ok _ ↦ ok db' ]

abbrev rpc_error : Error
rpc_error = plain_error "Xray operation failed"

module _ {S : Type 0} (a : Adapter S) (probe : S → S × Reply InstanceObservation)
    (fresh : Db → Text) (now : ℕ) where
  -- A change of the tables that may fail.
  abbrev change : (Db → Result Db) → M S (Unit {0})
  change f w = elim (f w.db) [ err e ↦ (stop (some e), w) | ok db ↦ (go tt, record w { db = db }) ]

  abbrev read : {A : Type 0} → (Db → A) → M S A
  read f w = (go (f w.db), w)

  -- `markDegraded`, and the return of the error.
  unfoldable pub degraded : {A : Type 0} → M S A
  degraded w = (stop (some rpc_error), record w { db = mark_instance_unreachable w.db })

  unfoldable pub call : {A : Type 0} → (S → S × Reply A) → M S A
  unfolding degraded
  call f = do reply ← rpc f; elim reply [ failed _ ↦ degraded | done x ↦ continue x ]

  -- A record's inbound is there: its clients are looked at, and whether the user's own is among them.
  unfoldable pub check_clients : UserRecord → M S Bool
  unfolding call
  check_clients r = do
    users ← call (a.list_users r.inbound_row.inbound_tag)
    rotating ← read (has_open_rotation r.allocation.id)
    change (
        queue_all fresh now (
          unknown_clients r.allocation.template_id r.inbound_row.inbound_tag r.statistics_id
            rotating users))
    continue (any (λ u. u.present && text_eq u.statistics_id r.statistics_id) users)

  unfoldable pub reconcile_record : List Text → UserRecord → M S (Unit {0})
  unfolding check_clients settle_record
  reconcile_record tags r = do
    actual ← (if has_tag tags r.inbound_row.inbound_tag then check_clients r else continue false)
    change (settle_record fresh now r actual)

  abbrev is_projected : List TemplateRow → UserRecord → Bool
  is_projected templates r = elim (template_by_id r.allocation.template_id templates) [
    | none ↦ false
    | some t ↦ not (is_incompatible t.compatibility)
  ]

  unfoldable pub reconcile_records : List Text → List TemplateRow → List UserRecord → M S (Unit {0})
  unfolding reconcile_record
  reconcile_records tags templates [] = continue tt
  reconcile_records tags templates (r ∷ rs) = do
    (if is_projected templates r then reconcile_record tags r else continue tt)
    reconcile_records tags templates rs

  -- The failed removals of each template.
  unfoldable pub confirm_stale : List Text → List TemplateRow → M S (Unit {0})
  confirm_stale tags [] = continue tt
  confirm_stale tags (t ∷ ts) = do
    rows ← read (stale_drift_removals t.id)
    change (queue_all fresh now (to_confirm t.id tags rows))
    confirm_stale tags ts

  -- What the process shows, before anything is compared.
  unfoldable pub judge_process : Bool → Bool → InstanceObservation → Db → Db
  judge_process reconnected gone o db =
      let (db1, (generation, _)) =
        advance_capability_generation
          (record {
            boot_epoch = o.boot_epoch;
            uptime_seconds = o.uptime_seconds;
            known = o.boot_epoch_known;
            suspected_restart = reconnected || gone;
          })
          1000 db in
      (invalidate_stale_capability_evidence generation
        (mark_instance_healthy (epoch_string o) db1)).0

  -- `ReconcileOnce`; `reconnected` is what `clearDegraded` returns.
  unfoldable pub reconcile_once : Bool → M S (Unit {0})
  unfolding call judge_process reconcile_records confirm_stale
  reconcile_once reconnected = do
    observation ← call probe
    templates ← read live_templates
    records ← read (λ db. all_records db db.allocations)
    inbounds ← call a.list_inbounds
    change
        λ db. ok (judge_process reconnected (vanished (panel_tags inbounds) records) observation db)
    change (queue_all fresh now (orphans (any_template_id templates) (panel_tags inbounds) records))
    reconcile_records (panel_tags inbounds) templates records
    confirm_stale (panel_tags inbounds) templates
    rows ← read orphan_stale_drift_removals
    change (queue_all fresh now (to_confirm [] (panel_tags inbounds) rows))
