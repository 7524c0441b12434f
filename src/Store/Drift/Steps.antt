-- ===== src/Store/Drift/Steps.antt =====
-- internal/persistence/sqlite/store_drift.go: the writes to the queue, one after another, by any callers.
use xpanel.Prelude.{ℕ, ◌≡◌}
use xpanel.Prelude.Text.{Text}
use xpanel.Store.Tables.{Db, DriftKind, AuditEvent}
use xpanel.Store.Drift.{
  enqueue_drift_removal, lease_due_drift_removal, renew_drift_removal_lease, complete_drift_removal,
  reschedule_drift_removal, fail_drift_removal,
}

-- One call, with any arguments.
pub data Step (db : Db) (db' : Db) : Type 0 where
  enqueue :
      (id template tag : Text) (kind : DriftKind) (statistics : Text) (now : ℕ)
      → db' ≡ (enqueue_drift_removal id template tag kind statistics now db).0
      → Step db db'
  lease :
      (owner : Text) (now duration : ℕ)
      → db' ≡ (lease_due_drift_removal owner now duration db).0
      → Step db db'
  renew :
      (id owner : Text) (now duration : ℕ)
      → db' ≡ (renew_drift_removal_lease id owner now duration db).0
      → Step db db'
  complete :
      (id owner : Text) (event : AuditEvent)
      → db' ≡ (complete_drift_removal id owner event db).0
      → Step db db'
  reschedule :
      (id owner : Text) (attempts next : ℕ)
      → db' ≡ (reschedule_drift_removal id owner attempts next db).0
      → Step db db'
  fail :
      (id owner : Text) (event : AuditEvent)
      → db' ≡ (fail_drift_removal id owner event db).0
      → Step db db'

-- Any number of calls.
pub data Reach (s : Db) : Db → Type 0 where
  here : Reach s s
  next : {t u : Db} → Reach s t → Step t u → Reach s u
