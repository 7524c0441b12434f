-- ===== src/Store/Drift.antt =====
-- internal/persistence/sqlite/store_drift.go: the queue of removals of what the panel does not know. A
-- missing template is none in the table and the empty text in a call. Times are milliseconds.
pub mod Steps
pub mod Single
pub mod Tests
use xpanel.Prelude.{
  ℕ, ◌+◌, Bool, true, false, not, ◌&&◌, ◌||◌, List, [], ◌∷◌, ◌++◌, Option, none, some, ltb, leb,
  ◌==◌, is_some, if◌then◌else◌, find, update_where, count_if, any, select,
}
use xpanel.Prelude.Text.{Text, text_eq}
use xpanel.Domain.Errors.{Result, ok, err, plain_error, Error}
use xpanel.Domain.Sync.{SyncState, leased, retry_wait, succeeded, permanent_failed}
use xpanel.Domain.User.{is_empty}
use xpanel.Store.Tables.{
  Db, DriftRow, DriftKind, identity, inbound, AuditEvent, InboundRow, template_by_id,
  is_incompatible,
}
use xpanel.Store.Sync.{is_open, is_leased, no_rows, same_owner}

-- `COALESCE(template_id,'')`.
abbrev pub owner_key : Option Text → Text
owner_key none = []
owner_key (some t) = t

-- `nullString`.
abbrev pub null_text : Text → Option Text
null_text t = if is_empty t then none else some t

abbrev pub has_key : Text → Text → DriftRow → Bool
has_key template statistics r =
    text_eq (owner_key r.template_id) template && text_eq r.statistics_id statistics

-- The rows of the unique index.
abbrev pub is_open_removal : Text → Text → DriftRow → Bool
is_open_removal template statistics r = has_key template statistics r && is_open r.state

abbrev is_failed : SyncState → Bool
is_failed permanent_failed = true
is_failed _ = false

abbrev pub is_stale : DriftRow → Bool
is_stale r = is_failed r.state && not (is_some r.superseded_by)

abbrev pub new_removal : Text → Text → Text → DriftKind → Text → ℕ → DriftRow
new_removal id template tag kind statistics now = record {
  id = id;
  template_id = null_text template;
  inbound_tag = tag;
  kind = kind;
  statistics_id = statistics;
  state = SyncState.pending;
  attempt_count = 0;
  next_attempt_at = now;
  lease_owner = none;
  lease_expires_at = none;
  created_at = now;
  superseded_by = none;
}

-- The causal link from the failures of the key to the new intent.
abbrev pub supersede_failed : Text → Text → Text → List DriftRow → List DriftRow
supersede_failed id template statistics =
    update_where (λ r. has_key template statistics r && is_stale r && not (text_eq r.id id))
      λ r. record r { superseded_by = some id }

-- `EnqueueDriftRemoval` with the identifier that it draws: a conflict with an open row does nothing, and
-- one with the primary key is an error.
unfoldable pub enqueue_drift_removal :
    Text → Text → Text → DriftKind → Text → ℕ → Db → Db × Result Bool
enqueue_drift_removal id template tag kind statistics now db =
    if any (λ r. text_eq r.id id) db.drift_removals
    then (db, err (plain_error "UNIQUE constraint failed: drift_removals.id"))
    else if any (is_open_removal template statistics) db.drift_removals
    then (db, ok false)
    else (
      record db {
        drift_removals =
            supersede_failed id template statistics
              (db.drift_removals ++ new_removal id template tag kind statistics now ∷ []);
      },
      ok true,
    )

unfoldable pub is_removal_due : ℕ → DriftRow → Bool
is_removal_due now r = elim r.state [
  | SyncState.pending ↦ leb r.next_attempt_at now
  | retry_wait ↦ leb r.next_attempt_at now
  | leased ↦ elim r.lease_expires_at [ none ↦ false | some until ↦ leb until now ]
  | _ ↦ false
]

-- `d.kind='inbound' OR t.compatibility_state <> 'incompatible'`.
unfoldable pub may_remove : Db → DriftRow → Bool
may_remove db r = elim r.kind [
  | inbound ↦ true
  | identity ↦ elim (template_by_id (owner_key r.template_id) db.templates) [
    | none ↦ false
    | some t ↦ not (is_incompatible t.compatibility)
  ]
]

abbrev removal_before : DriftRow → DriftRow → Bool
removal_before r q =
    ltb r.next_attempt_at q.next_attempt_at
    || (r.next_attempt_at == q.next_attempt_at && ltb r.created_at q.created_at)

-- `ORDER BY d.next_attempt_at,d.created_at LIMIT 1`.
unfoldable pub earliest_removal : (DriftRow → Bool) → List DriftRow → Option DriftRow
earliest_removal p [] = none
earliest_removal p (r ∷ rs) =
    let rest = earliest_removal p rs in
    if p r
    then elim rest [ none ↦ some r | some q ↦ if removal_before q r then some q else some r ]
    else rest

abbrev is_unreleased : InboundRow → Bool
is_unreleased i = not (is_some i.released_at)

-- The identity of the user whose inbound has the tag, by the joins.
unfoldable pub expected_identity : Text → Db → Text
expected_identity tag db =
    elim (find (λ i. text_eq i.inbound_tag tag && is_unreleased i) db.inbounds) [
      | none ↦ []
      | some i ↦ elim (find (λ x. text_eq x.allocation_id i.allocation_id) db.identities) [
        | none ↦ []
        | some x ↦ x.statistics_id
      ]
    ]

-- `ports.DriftRemoval`: the row as it was read, and what the joins add.
pub record DriftRemoval : Type 0 where
  pub row : DriftRow
  pub expected_statistics_id : Text
  pub reclaimed : Bool

abbrev pub may_lease : ℕ → DriftRow → DriftRow → Bool
may_lease now read r =
    text_eq r.id read.id
    && is_removal_due now r
    && (not (is_leased r.state) || same_owner r.lease_owner read.lease_owner)

-- `UPDATE drift_removals`.
abbrev pub with_removals : (List DriftRow → List DriftRow) → Db → Db
with_removals f db = record db { drift_removals = f db.drift_removals }

abbrev pub leased_until : Text → ℕ → DriftRow → DriftRow
leased_until owner until r = record r {
  state = leased;
  lease_owner = some owner;
  lease_expires_at = some until;
}

unfoldable pub lease_removal : Text → ℕ → ℕ → Db → Option DriftRow → Db × Option DriftRemoval
unfolding expected_identity
lease_removal owner now lease db none = (db, none)
lease_removal owner now lease db (some r) =
    if count_if (may_lease now r) db.drift_removals == 1
    then (
      with_removals (update_where (may_lease now r) (leased_until owner (now + lease))) db,
      some (record {
        row = r;
        expected_statistics_id = expected_identity r.inbound_tag db;
        reclaimed = is_leased r.state;
      }),
    )
    else (db, none)

unfoldable pub lease_due_drift_removal : Text → ℕ → ℕ → Db → Db × Option DriftRemoval
unfolding lease_removal
lease_due_drift_removal owner now lease db =
    lease_removal owner now lease db
      (earliest_removal (λ r. is_removal_due now r && may_remove db r) db.drift_removals)

unfoldable pub holds_removal : Text → DriftRow → Bool
holds_removal owner r =
    is_leased r.state && elim r.lease_owner [ none ↦ false | some w ↦ text_eq w owner ]

abbrev pub may_renew_removal : Text → Text → DriftRow → Bool
may_renew_removal id owner r = text_eq r.id id && holds_removal owner r

unfoldable pub renew_drift_removal_lease : Text → Text → ℕ → ℕ → Db → Db × Bool
renew_drift_removal_lease id owner now lease db = (
  with_removals
      (update_where (may_renew_removal id owner)
        λ r. record r { lease_expires_at = some (now + lease) })
      db,
  count_if (may_renew_removal id owner) db.drift_removals == 1,
)

-- `UPDATE drift_removals SET ... WHERE id=?`.
abbrev pub set_removal : Text → (DriftRow → DriftRow) → Db → Db
set_removal id f = with_removals (update_where (λ r. text_eq r.id id) f)

-- `finishDriftRemoval`.
unfoldable pub finish_drift_removal : Text → Text → (Db → Db) → Db → Db × Result (Unit {0})
finish_drift_removal id owner apply db = elim (find (λ r. text_eq r.id id) db.drift_removals) [
  | none ↦ (db, err no_rows)
  | some r ↦ if holds_removal owner r then (apply db, ok tt) else (db, ok tt)
]

abbrev pub removal_ended : SyncState → DriftRow → DriftRow
removal_ended state r = record r { state = state; lease_owner = none; lease_expires_at = none }

abbrev pub with_audit : AuditEvent → Db → Db
with_audit event db = record db { audit_events = db.audit_events ++ event ∷ [] }

abbrev pub completing : Text → AuditEvent → Db → Db
completing id event db = with_audit event (set_removal id (removal_ended succeeded) db)

abbrev pub rescheduling : Text → ℕ → ℕ → Db → Db
rescheduling id attempts next =
    set_removal id
      λ r. record (removal_ended retry_wait r) { attempt_count = attempts; next_attempt_at = next }

abbrev pub failing : Text → AuditEvent → Db → Db
failing id event db = with_audit event (set_removal id (removal_ended permanent_failed) db)

unfoldable pub complete_drift_removal : Text → Text → AuditEvent → Db → Db × Result (Unit {0})
unfolding finish_drift_removal
complete_drift_removal id owner event = finish_drift_removal id owner (completing id event)

unfoldable pub reschedule_drift_removal : Text → Text → ℕ → ℕ → Db → Db × Result (Unit {0})
unfolding finish_drift_removal
reschedule_drift_removal id owner attempts next =
    finish_drift_removal id owner (rescheduling id attempts next)

unfoldable pub fail_drift_removal : Text → Text → AuditEvent → Db → Db × Result (Unit {0})
unfolding finish_drift_removal
fail_drift_removal id owner event = finish_drift_removal id owner (failing id event)

-- `OrphanStaleDriftRemovals` and `StaleDriftRemovals`, in table order.
unfoldable pub orphan_stale_drift_removals : Db → List DriftRow
orphan_stale_drift_removals db =
    select (λ r. not (is_some r.template_id) && is_stale r) db.drift_removals

unfoldable pub stale_drift_removals : Text → Db → List DriftRow
stale_drift_removals template db =
    if is_some (template_by_id template db.templates)
    then select
        (λ r. elim r.template_id [ none ↦ false | some t ↦ text_eq t template ] && is_stale r)
        db.drift_removals
    else []
