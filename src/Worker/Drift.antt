-- ===== src/Worker/Drift.antt =====
-- internal/worker/synchronizer.go: the removal of what the panel does not know, `handleDriftRemoval`.
pub mod Harmless
pub mod Tests
use xpanel.Prelude.{
  ℕ, ◌+◌, Bool, true, false, not, ◌&&◌, ◌||◌, [], ◌∷◌, ◌++◌, Option, none, some, leb, if◌then◌else◌,
  any, List,
}
use xpanel.Prelude.Text.{Text, text_eq}
use xpanel.Prelude.Int.{pos}
use xpanel.Domain.Errors.{Error, Result, ok, err}
use xpanel.Domain.Sync.Backoff.{next_backoff}
use xpanel.Store.Tables.{Db, AuditEvent, DriftKind, identity, inbound, reconcile_removed_unknown}
use xpanel.Store.Drift.{
  DriftRemoval, owner_key, renew_drift_removal_lease, complete_drift_removal,
  reschedule_drift_removal, fail_drift_removal,
}
use xpanel.Ports.{
  ErrorKind, user_not_found, inbound_not_found, CallError, Reply, done, failed, Adapter, RemoteUser,
  RemoveUserCommand,
}
use xpanel.Worker.World.{Flow, go, stop, Options, World, M, ◌>>=◌, ◌>>◌, continue, Exit, leave, rpc}
use xpanel.Worker.Ending.{
  describe, is_internal, is_unavailable, max_internal_attempts, to_millis, inbound_present,
}

abbrev pub is_gone : ErrorKind → Bool
is_gone user_not_found = true
is_gone inbound_not_found = true
is_gone _ = false

-- The first client of the name, and whether it is present: `observe`'s loop.
unfoldable pub observed_in : Text → List RemoteUser → Bool
observed_in id [] = false
observed_in id (u ∷ us) =
    let rest = observed_in id us in if text_eq u.statistics_id id then u.present else rest

module _ {S : Type 0} (a : Adapter S) (options : Options) (removal : DriftRemoval) where
  -- `fenceDrift`.
  unfoldable pub fence_drift : M S (Unit {0})
  fence_drift w =
      let (db, held) =
        renew_drift_removal_lease removal.row.id options.owner w.now options.lease w.db in
      (if held then go tt else stop none, record w { db = db })

  abbrev drift_audit : Bool → AuditEvent
  drift_audit success = record {
    action = reconcile_removed_unknown;
    target_id = owner_key removal.row.template_id;
    succeeded = success;
  }

  -- The store's answer is the handler's.
  abbrev ended : World S → Db × Result (Unit {0}) → Option Error × World S
  ended w (db, err e) = (some e, record w { db = db })
  ended w (db, ok _) = (none, record w { db = db })

  unfoldable pub complete : Exit S
  complete w = ended w (complete_drift_removal removal.row.id options.owner (drift_audit true) w.db)

  unfoldable pub fail_removal : Exit S
  fail_removal w =
      ended w (fail_drift_removal removal.row.id options.owner (drift_audit false) w.db)

  abbrev tries : ℕ
  tries = removal.row.attempt_count + 1

  -- `started` is the handler's first reading of the clock.
  unfoldable pub reschedule : ℕ → Exit S
  reschedule started w = ended w (
      reschedule_drift_removal removal.row.id options.owner tries
        (started + to_millis (next_backoff (pos tries) options.max_retry options.random)) w.db)

  -- `observe`; none for an error.
  unfoldable pub observe_user : M S (Option Bool)
  observe_user = do
    reply ← rpc (a.list_users removal.row.inbound_tag)
    continue (elim reply [
      | failed _ ↦ none
      | done users ↦ some (observed_in removal.row.statistics_id users)
    ])

  unfoldable pub observe : M S (Option Bool)
  unfolding observe_user
  observe = elim removal.row.kind [
    | inbound ↦ inbound_present a removal.row.inbound_tag
    | identity ↦ observe_user
  ]

  abbrev pub removal_command : RemoveUserCommand
  removal_command = record {
    inbound_tag = removal.row.inbound_tag;
    statistics_id = removal.row.statistics_id;
    expected_statistics_id = removal.expected_statistics_id;
  }

  unfoldable pub call_removal : M S (Reply (Unit {0}))
  call_removal = elim removal.row.kind [
    | inbound ↦ rpc (a.remove_inbound removal.row.inbound_tag)
    | identity ↦ rpc (a.remove_user removal_command)
  ]

  -- The end of a failed removal that has not converged.
  unfoldable pub not_converged : ℕ → CallError → Exit S
  unfolding fail_removal reschedule
  not_converged started cause =
      let (kind, retryable) = describe cause in
      if not retryable || (is_internal kind && leb max_internal_attempts tries)
      then fail_removal
      else reschedule started

  abbrev pub is_absent : Option Bool → Bool
  is_absent (some seen) = not seen
  is_absent none = false

  -- After a failed call: a read decides, where the call may have been applied.
  unfoldable pub on_removal_failed : ℕ → CallError → M S (Unit {0})
  unfolding fence_drift observe not_converged complete
  on_removal_failed started cause =
      let (kind, retryable) = describe cause in
      if is_gone kind
      then leave complete
      else if retryable && not (is_unavailable kind)
      then (do
        fence_drift
        seen ← observe
        if is_absent seen then leave complete else leave (not_converged started cause))
      else leave (not_converged started cause)

  unfoldable pub on_removal : ℕ → Reply (Unit {0}) → M S (Unit {0})
  unfolding on_removal_failed complete
  on_removal started (done _) = leave complete
  on_removal started (failed cause) = on_removal_failed started cause

  unfoldable pub remove_drift : ℕ → M S (Unit {0})
  unfolding call_removal on_removal
  remove_drift started = do reply ← call_removal; on_removal started reply

  -- The read before a removal that another worker may have done already.
  unfoldable pub check_reclaimed : ℕ → M S (Unit {0})
  unfolding observe remove_drift complete
  check_reclaimed started = do
    seen ← observe
    if is_absent seen then leave complete else remove_drift started

  unfoldable pub handle_drift : M S (Unit {0})
  unfolding fence_drift check_reclaimed remove_drift
  handle_drift w =
      (fence_drift >> (if removal.reclaimed then check_reclaimed w.now else remove_drift w.now)) w
