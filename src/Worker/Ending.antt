-- ===== src/Worker/Ending.antt =====
-- internal/worker/synchronizer.go: the ways in which the handling of an operation ends, `describe`, and
-- the reads after which it decides. The instance's health row, the callback on recovery and the log
-- lines are left out.
use xpanel.Prelude.{
  ℕ, ◌+◌, ◌/◌, Bool, true, false, not, ◌&&◌, ◌||◌, [], ◌∷◌, ◌++◌, Option, none, some, leb,
  if◌then◌else◌, update_where, any,
}
use xpanel.Prelude.Text.{Text, text_eq}
use xpanel.Prelude.Int.{ℤ, pos, pos_part}
use xpanel.Domain.Errors.{ok, err}
use xpanel.Domain.User.{is_active}
use xpanel.Domain.Sync.{SyncReason, rotate}
use xpanel.Domain.Sync.Backoff.{next_backoff}
use xpanel.Store.Tables.{
  Db, AuditEvent, Action, sync_succeeded, sync_failed, inbound_created, inbound_removed,
  port_released, CompatibilityState, compatible, incompatible, unreachable,
}
use xpanel.Store.Outcome.{confirm_sync, reschedule_sync, fail_sync}
use xpanel.Ports.{
  ErrorKind, incompatible_profile, unsupported_protocol, profile_not_found, version_mismatch,
  instance_unavailable, deadline_exceeded, internal, inbound_not_found, CallError, adapter_error,
  context_deadline, other_error, done, failed, Adapter,
}
use xpanel.Worker.World.{SyncWork, Options, World, M, ◌>>=◌, continue, Exit, rpc}

unfoldable pub describe : CallError → ErrorKind × Bool
describe (adapter_error e) = (e.kind, e.retryable)
describe context_deadline = (deadline_exceeded, true)
describe other_error = (internal, true)

abbrev pub max_internal_attempts : ℕ
max_internal_attempts = 20

abbrev pub unreachable_threshold : ℕ
unreachable_threshold = 3

abbrev pub is_internal : ErrorKind → Bool
is_internal internal = true
is_internal _ = false

abbrev pub is_unavailable : ErrorKind → Bool
is_unavailable instance_unavailable = true
is_unavailable _ = false

abbrev pub is_inbound_not_found : ErrorKind → Bool
is_inbound_not_found inbound_not_found = true
is_inbound_not_found _ = false

abbrev is_rotate : SyncReason → Bool
is_rotate rotate = true
is_rotate _ = false

-- A backoff in nanoseconds, in the milliseconds of the tables.
abbrev pub to_millis : ℤ → ℕ
to_millis d = pos_part d / 1_000_000

abbrev pub attempts : SyncWork → ℕ
attempts work = work.operation.attempt_count + 1

-- `SetTemplateCompatibility`; its error is only logged.
unfoldable pub set_template_compatibility : Text → CompatibilityState → Db → Db
set_template_compatibility id state db = record db {
  templates =
      update_where (λ t. text_eq t.id id) (λ t. record t { compatibility = state }) db.templates;
}

abbrev is_compatible : CompatibilityState → Bool
is_compatible compatible = true
is_compatible _ = false

module _ {S : Type 0} (options : Options) (work : SyncWork) where
  unfoldable pub audit : Action → Bool → World S → World S
  audit action succeeded w =
      let event : AuditEvent = record {
        action = action;
        target_id = work.user_id;
        succeeded = succeeded;
      } in
      record w { db = record (w.db) { audit_events = w.db.audit_events ++ event ∷ [] } }

  -- The audit entries of a confirmed operation.
  unfoldable pub audit_confirmed : Bool → World S → World S
  unfolding audit
  audit_confirmed seen w =
      let confirmed = audit sync_succeeded true w in
      if is_rotate work.operation.reason
      then confirmed
      else let moved = audit (if seen then inbound_created else inbound_removed) true confirmed in
        if not seen && not (is_active work.lifecycle) then audit port_released true moved else moved

  unfoldable pub confirm : Bool → ℕ → Exit S
  unfolding audit_confirmed
  confirm seen version w =
      let o = work.operation in
      let (db, r) = confirm_sync o.id options.owner o.desired_revision version seen w.now w.db in
      elim r [
        | err e ↦ (some e, record w { db = db })
        | ok confirmed ↦
            let settled = record w { db = db; failures = 0 } in
            (none, if confirmed then audit_confirmed seen settled else settled)
      ]

  unfoldable pub fail : Exit S
  unfolding audit
  fail w =
      let (db, r) = fail_sync work.operation.id options.owner w.now w.now w.db in
      elim r [
        | err e ↦ (some e, record w { db = db })
        | ok _ ↦ (none, audit sync_failed false (record w { db = db }))
      ]

  -- `RescheduleSync` after the backoff: the end of `retry` and of `retryLater`.
  unfoldable pub retry_later : Exit S
  retry_later w =
      let next =
        w.now + to_millis (next_backoff (pos (attempts work)) options.max_retry options.random) in
      let (db, r) =
        reschedule_sync work.operation.id options.owner w.now (attempts work) next w.db in
      (elim r [ err e ↦ some e | ok _ ↦ none ], record w { db = db })

  mark_template : CompatibilityState → World S → World S
  unfolding set_template_compatibility
  mark_template state w = record w { db = set_template_compatibility work.template.id state w.db }

  count_failure : World S → World S
  unfolding mark_template
  count_failure w =
      let counted = record w { failures = w.failures + 1 } in
      if leb unreachable_threshold counted.failures && is_compatible work.template.compatibility
      then mark_template unreachable counted
      else counted

  unfoldable pub track_drift : ErrorKind → World S → World S
  unfolding mark_template count_failure
  track_drift incompatible_profile w = mark_template incompatible w
  track_drift unsupported_protocol w = mark_template incompatible w
  track_drift profile_not_found w = mark_template incompatible w
  track_drift version_mismatch w = mark_template incompatible w
  track_drift instance_unavailable w = count_failure w
  track_drift deadline_exceeded w = count_failure w
  track_drift _ w = w

  unfoldable pub retry : CallError → Exit S
  unfolding track_drift
  retry cause w =
      let (kind, retryable) = describe cause in
      let tracked = track_drift kind w in
      if not retryable || (is_internal kind && leb max_internal_attempts (attempts work))
      then fail tracked
      else retry_later tracked

module _ {S : Type 0} (a : Adapter S) where
  -- `inboundPresent`; none for an error.
  unfoldable pub inbound_present : Text → M S (Option Bool)
  inbound_present tag = do
    reply ← rpc a.list_inbounds
    continue (elim reply [
      | failed _ ↦ none
      | done inbounds ↦ some (any (λ i. text_eq i.inbound_tag tag) inbounds)
    ])

  unfoldable pub carries_client : Text → Text → M S (Option Bool)
  carries_client tag statistics_id = do
    reply ← rpc (a.list_users tag)
    continue (elim reply [
      | failed _ ↦ none
      | done users ↦ some (any (λ u. text_eq u.statistics_id statistics_id && u.present) users)
    ])
