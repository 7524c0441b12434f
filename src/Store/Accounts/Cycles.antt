-- ===== src/Store/Accounts/Cycles.antt =====
-- internal/persistence/sqlite/store_quota.go, `settleCycles` and `RolloverCycle`: the end of quota cycles.
-- The end that `CycleBounds` computes with the calendar is a parameter; none is its error. The k-th cycle
-- that a call opens gets the k-th fresh identifier.
use xpanel.Prelude.{
  ℕ, zero, suc, Bool, true, false, ◌&&◌, ◌||◌, [], ◌∷◌, ◌++◌, Option, none, some, ltb, leb, ◌==◌,
  any, if◌then◌else◌, update_where,
}
use xpanel.Prelude.Text.{Text, text_eq}
use xpanel.Prelude.Int.{ℤ}
use xpanel.Domain.Errors.{Error, Result, ok, err, plain_error}
use xpanel.Domain.Sync.{SynchronizationOperation}
use xpanel.Domain.Quota.{decide_transition}
use xpanel.Store.Tables.{AuditEvent, cycle_restored, allocation_by_id}
use xpanel.Store.Sync.{no_rows}
use xpanel.Store.Intent.{apply_decision}
use xpanel.Store.Accounts.{
  Books, CycleRow, Facts, opened, closed, is_open_cycle, is_open_of, open_cycle, policy_of,
  read_facts, audited,
}

-- PRIMARY KEY(id), UNIQUE(allocation_id, starts_at_utc), and the unique index on open cycles.
abbrev pub cycle_clashes : CycleRow → CycleRow → Bool
cycle_clashes c d =
    text_eq d.id c.id
    || (text_eq d.allocation_id c.allocation_id && d.starts_at == c.starts_at)
    || is_open_of c.allocation_id d

-- `UPDATE quota_cycles SET status='closed' WHERE id=? AND status='open'`.
abbrev pub close_cycle : CycleRow → Books → Books
close_cycle c b = record b {
  cycles =
      update_where (λ d. text_eq d.id c.id && is_open_cycle d.status)
        (λ d. record d { status = closed }) b.cycles;
}

abbrev pub next_cycle : Text → Text → ℤ → CycleRow → ℕ → CycleRow
next_cycle id timezone reset_day c end = record {
  id = id;
  allocation_id = c.allocation_id;
  starts_at = c.ends_at;
  ends_at = end;
  timezone = timezone;
  reset_day = reset_day;
  status = opened;
  gross_uplink = 0;
  gross_downlink = 0;
  accounted_uplink = 0;
  accounted_downlink = 0;
  manual_reset_count = 0;
}

-- The `INSERT`; the row is for the allocation that the closed cycle was selected by.
unfoldable pub insert_cycle : CycleRow → Books → Result Books
insert_cycle c b =
    if any (cycle_clashes c) b.cycles
    then err (plain_error "open cycle")
    else ok (record b { cycles = b.cycles ++ c ∷ [] })

-- How the loop ends: with the number of cycles it closed, with an error, or out of fuel.
pub data Loop : Type 0 where
  settled : ℕ → Books → Loop
  loop_failed : Error → Loop
  unfinished : Loop

abbrev bad_end : Error
bad_end = plain_error "computed cycle end is not after its start"

module _ (cycle_end : ℕ → Text → ℤ → Option ℕ) (fresh : ℕ → Text) (id : Text) (now : ℕ) where
  -- One turn after the open cycle `c` was found to be over.
  unfoldable pub roll : ℕ → CycleRow → Books → Result Books
  unfolding insert_cycle
  roll rolled c b = elim (policy_of id b) [
    | none ↦ err no_rows
    | some p ↦ elim (cycle_end c.ends_at b.quota_timezone p.reset_day) [
      | none ↦ err bad_end
      | some end ↦
          if leb end c.ends_at
          then err bad_end
          else insert_cycle (next_cycle (fresh rolled) b.quota_timezone p.reset_day c end)
              (close_cycle c b)
    ]
  ]

  -- The `for` of `settleCycles`.
  unfoldable pub settle_loop : ℕ → ℕ → Books → Loop
  unfolding roll
  settle_loop zero rolled b = unfinished
  settle_loop (suc fuel) rolled b = elim (open_cycle id b) [
    | none ↦ loop_failed no_rows
    | some c ↦ elim (ltb now c.ends_at) [
      | true ↦ settled rolled b
      | false ↦ elim (roll rolled c b) [
        | err e ↦ loop_failed e
        | ok b' ↦ settle_loop fuel (suc rolled) b'
      ]
    ]
  ]

  -- The audit event of a restored access: the caller's, or one for the allocation's user.
  unfoldable pub restore_audit : Option AuditEvent → Books → Result AuditEvent
  restore_audit (some event) b = ok event
  restore_audit none b = elim (allocation_by_id id b.db.allocations) [
    | none ↦ err no_rows
    | some a ↦ ok (record { action = cycle_restored; target_id = a.user_id; succeeded = true })
  ]

  -- The statements after the loop, if it closed a cycle; the result tells whether access was restored.
  unfoldable pub restore :
      SynchronizationOperation → Option AuditEvent → Facts → Books → Result (Books × Bool)
  restore template audit facts b =
      let d = decide_transition facts.facts facts.facts.admin_enabled false in
      let applied =
        apply_decision id facts.facts d facts.facts.admin_enabled (some template) now b.db in
      let b' = record b { db = applied.0 } in
      elim applied.1 [
        | err e ↦ err e
        | ok false ↦ ok (b', false)
        | ok true ↦ elim (restore_audit audit b') [
          | err e ↦ err e
          | ok event ↦ ok (audited event b', true)
        ]
      ]

  -- `settleCycles`: the tables, the cycles closed, and whether access was restored. `template` is the
  -- caller's or the one that the source draws for it.
  unfoldable pub settle_cycles :
      SynchronizationOperation → Option AuditEvent → Books → Result (Books × (ℕ × Bool))
  unfolding settle_loop restore
  settle_cycles template audit b = elim (settle_loop (suc (suc now)) 0 b) [
    | unfinished ↦ err bad_end
    | loop_failed e ↦ err e
    | settled rolled b' ↦ if rolled == 0 then ok (b', (0, false)) else elim (read_facts id b') [
      | err e ↦ err e
      | ok facts ↦ elim (restore template audit facts b') [
        | err e ↦ err e
        | ok (b'', restored) ↦ ok (b'', (rolled, restored))
      ]
    ]
  ]

  -- `RolloverCycle`: an error rolls the transaction back.
  unfoldable pub rollover_cycle :
      SynchronizationOperation → Option AuditEvent → Books → Books × Result (ℕ × Bool)
  rollover_cycle template audit b = elim (settle_cycles template audit b) [
    | err e ↦ (b, err e)
    | ok (b', counts) ↦ (b', ok counts)
  ]
