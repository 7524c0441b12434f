-- ===== src/Store/Accounts/Batch.antt =====
-- internal/persistence/sqlite/store_traffic.go, `CommitTrafficBatch`: one transaction for a round.
use xpanel.Prelude.{
  ℕ, ◌+◌, Bool, true, false, not, ◌&&◌, ◌||◌, List, [], ◌∷◌, ◌++◌, map, Option, none, some, ◌==◌,
  any, if◌then◌else◌, update_where,
}
use xpanel.Prelude.Text.{Text, text_eq}
use xpanel.Prelude.Int.{ℤ, pos}
use xpanel.Domain.Errors.{Result, ok, err}
use xpanel.Domain.User.{is_within_limit}
use xpanel.Domain.Sync.{SynchronizationOperation, new_synchronization_operation, reconcile, confirm}
use xpanel.Domain.Quota.{decide_transition, is_quota_exceeded}
use xpanel.Traffic.Update.{TrafficUpdate}
use xpanel.Store.Tables.{AuditEvent, quota_exceeded}
use xpanel.Store.Intent.{apply_decision}
use xpanel.Store.Accounts.{Books, CycleRow, DailyRow, Facts, is_open_of, read_facts, audited}
use xpanel.Store.Accounts.Cycles.{settle_cycles}

-- `UPDATE traffic_cursors`.
unfoldable pub write_cursor : TrafficUpdate → Books → Books
write_cursor u b = record b {
  cursors =
      update_where (λ r. text_eq r.allocation_id u.allocation_id)
        (λ r. record r { cursor = u.cursor }) b.cursors;
}

-- The three statements under `UplinkDelta != 0 || DownlinkDelta != 0`.
unfoldable pub add_totals : TrafficUpdate → Books → Books
add_totals u b = record b {
  totals =
      update_where (λ r. text_eq r.allocation_id u.allocation_id)
        (λ r. record r {
          uplink = r.uplink + u.uplink_delta;
          downlink = r.downlink + u.downlink_delta;
        })
        b.totals;
}

abbrev pub is_day_of : TrafficUpdate → DailyRow → Bool
is_day_of u r = text_eq r.allocation_id u.allocation_id && r.day_start_utc == u.day_start_utc

-- The insertion, or the update on a conflict.
unfoldable pub add_daily : TrafficUpdate → Books → Books
add_daily u b = record b {
  daily =
      if any (is_day_of u) b.daily
      then update_where (is_day_of u)
          (λ r. record r {
            uplink = r.uplink + u.uplink_delta;
            downlink = r.downlink + u.downlink_delta;
          })
          b.daily
      else b.daily
        ++ record {
          allocation_id = u.allocation_id;
          day_start_utc = u.day_start_utc;
          local_date = u.local_date;
          timezone = u.timezone;
          uplink = u.uplink_delta;
          downlink = u.downlink_delta;
        }
          ∷ [];
}

abbrev pub charged : TrafficUpdate → CycleRow → CycleRow
charged u c = record c {
  gross_uplink = c.gross_uplink + u.uplink_delta;
  gross_downlink = c.gross_downlink + u.downlink_delta;
  accounted_uplink = c.accounted_uplink + u.uplink_delta;
  accounted_downlink = c.accounted_downlink + u.downlink_delta;
}

unfoldable pub charge_cycle : TrafficUpdate → Books → Books
charge_cycle u b = record b {
  cycles = update_where (is_open_of u.allocation_id) (charged u) b.cycles;
}

unfoldable pub count_traffic : TrafficUpdate → Books → Books
unfolding add_totals add_daily charge_cycle
count_traffic u b =
    if not (u.uplink_delta == 0) || not (u.downlink_delta == 0)
    then charge_cycle u (add_daily u (add_totals u b))
    else b

-- `insertContinuityEvent` for each event.
unfoldable pub write_events : TrafficUpdate → ℕ → Books → Books
write_events u now b = record b {
  continuity =
      b.continuity
      ++ map (λ e. record { allocation_id = u.allocation_id; event = e; occurred_at = now })
          u.events;
}

-- The writes of one update before the quota is judged.
unfoldable pub write_traffic : TrafficUpdate → ℕ → Books → Books
unfolding write_cursor count_traffic write_events
write_traffic u now b = write_events u now (count_traffic u (write_cursor u b))

abbrev block_audit : TrafficUpdate → AuditEvent
block_audit u = record { action = quota_exceeded; target_id = u.audit_target; succeeded = true }

-- Whether the facts read again call for a block: over the limit, and not yet marked so.
abbrev pub must_block : Facts → Bool
must_block f =
    is_quota_exceeded f.limit (pos f.accounted_uplink) (pos f.accounted_downlink)
    && is_within_limit f.facts.quota_state

-- The block itself; the result tells whether an operation was made.
unfoldable pub block : TrafficUpdate → Facts → ℕ → Books → Result (Books × Bool)
block u f now b =
    let d = decide_transition f.facts f.facts.admin_enabled true in
    let applied =
      apply_decision u.allocation_id f.facts d f.facts.admin_enabled (some u.quota_block) now
        b.db in
    elim applied.1 [
      | err e ↦ err e
      | ok created ↦ ok (audited (block_audit u) (record b { db = applied.0 }), created)
    ]

-- What a batch has done so far: `TrafficCommitResult`.
pub record TrafficCommitResult : Type 0 where
  pub blocked : ℕ
  pub rolled : ℕ
  pub restored : ℕ

abbrev bump : Bool → ℕ → ℕ
bump true n = n + 1
bump false n = n

-- The writes and the verdict, after the cycles are settled.
unfoldable pub commit_settled : ℕ → TrafficUpdate → Books → Result (Books × Bool)
unfolding write_traffic block
commit_settled now u b =
    let b' = write_traffic u now b in
    elim (read_facts u.allocation_id b') [
      | err e ↦ err e
      | ok f ↦ if must_block f then block u f now b' else ok (b', false)
    ]

module _ (cycle_end : ℕ → Text → ℤ → Option ℕ) (fresh : Text → ℕ → Text) (restore_id : Text → Text)
    (now : ℕ) where
  -- The operation that `settleCycles` draws for itself.
  abbrev pub restore_template : Text → SynchronizationOperation
  restore_template id =
      new_synchronization_operation (restore_id id) id 0 false none reconcile confirm now

  -- One turn of the loop.
  unfoldable pub commit_update :
      TrafficUpdate → TrafficCommitResult → Books → Result (Books × TrafficCommitResult)
  unfolding commit_settled
  commit_update u counts b =
      elim (settle_cycles cycle_end (fresh u.allocation_id) u.allocation_id now
        (restore_template u.allocation_id) none b) [
          | err e ↦ err e
          | ok (b', (rolled, restored)) ↦ elim (commit_settled now u b') [
            | err e ↦ err e
            | ok (b'', created) ↦ ok (
              b'',
              record {
                blocked = bump created counts.blocked;
                rolled = counts.rolled + rolled;
                restored = bump restored counts.restored;
              },
            )
          ]
        ]

  unfoldable pub commit_loop :
      List TrafficUpdate → TrafficCommitResult → Books → Result (Books × TrafficCommitResult)
  unfolding commit_update
  commit_loop [] counts b = ok (b, counts)
  commit_loop (u ∷ us) counts b = elim (commit_update u counts b) [
    | err e ↦ err e
    | ok (b', counts') ↦ commit_loop us counts' b'
  ]

  -- `CommitTrafficBatch`: an error rolls the whole batch back.
  unfoldable pub commit_traffic_batch :
      List TrafficUpdate → Books → Books × Result TrafficCommitResult
  unfolding commit_loop
  commit_traffic_batch us b =
      elim (commit_loop us (record { blocked = 0; rolled = 0; restored = 0 }) b) [
        | err e ↦ (b, err e)
        | ok (b', counts) ↦ (b', ok counts)
      ]
