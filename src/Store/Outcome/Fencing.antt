-- ===== src/Store/Outcome/Fencing.antt =====
-- internal/persistence/sqlite/store_sync.go: a confirmation, a retry or a failure of a worker without lease.
use xpanel.Prelude.{ℕ, ◌+◌, ◌≡◌, ◌≢◌, Bool, true, false, some, arith, inl, inr, Option-cases}
use xpanel.Prelude.Text.{Text, text_ne}
use xpanel.Domain.Errors.{ok}
use xpanel.Domain.User.{AccessAllocation}
use xpanel.Domain.Sync.{SynchronizationOperation}
use xpanel.Store.Tables.{Db, operation_by_id, allocation_by_id}
use xpanel.Store.Sync.{holds_lease, lease_due_sync, take_lease, is_projectable}
use xpanel.Store.Sync.Lease.{IsKeyed, leased_row, allocations-lease_due_sync}
use xpanel.Store.Outcome.{
  confirm_row, joined, confirm_sync, finish_leased, reschedule_sync, fail_sync,
}

-- For an operation that the worker does not lease, a confirmation, a retry and a failure change nothing
-- at all, and report no error.
pub not_holder_unchanged :
    (id owner : Text) (revision version wall now attempts next : ℕ) (seen : Bool) (db : Db)
    (o : SynchronizationOperation) (a : AccessAllocation)
    → joined id db ≡ some (o, a)
    → holds_lease owner o ≡ false
    → (confirm_sync id owner revision version seen now db ≡ (db, ok false))
      × (reschedule_sync id owner wall attempts next db ≡ (db, ok tt))
      × (fail_sync id owner wall now db ≡ (db, ok tt))
unfolding confirm_sync reschedule_sync fail_sync finish_leased confirm_row
not_holder_unchanged id owner revision version wall now attempts next seen db o a row lost =
    (ground arith, ground arith, ground arith)

pub joined_inv :
    (id : Text) (db : Db) (o : SynchronizationOperation) (a : AccessAllocation)
    → operation_by_id id db.operations ≡ some o
    → allocation_by_id o.allocation_id db.allocations ≡ some a
    → joined id db ≡ some (o, a)
unfolding joined
joined_inv id db o a p q = ground arith

-- What `is_projectable` says of the row's allocation.
projectable-allocation :
    (db : Db) (o : SynchronizationOperation)
    → is_projectable db o ≡ true
    → (a : AccessAllocation) × (allocation_by_id o.allocation_id db.allocations ≡ some a)
unfolding is_projectable
projectable-allocation db o h =
    elim (Option-cases (allocation_by_id o.allocation_id db.allocations)) [
      | inl nothing ↦ ground arith
      | inr found ↦ found
    ]

not-holds-take_lease :
    (owner other : Text) (until : ℕ) (o : SynchronizationOperation)
    → owner ≢ other
    → holds_lease other (take_lease owner until o) ≡ false
unfolding holds_lease
not-holds-take_lease owner other until o n = text_ne owner other n

-- Once a worker has leased an operation, and in particular has taken over an expired lease, the result of
-- every other worker for that operation is discarded: its confirmation, its retry and its failure
-- leave all tables as the new holder's lease left them.
pub takeover_fences :
    (owner other : Text) (now duration : ℕ) (db : Db) (o : SynchronizationOperation)
    (revision version wall later attempts next : ℕ) (seen : Bool)
    → IsKeyed db.operations
    → owner ≢ other
    → (lease_due_sync owner now duration db).1 ≡ some o
    → let db' = (lease_due_sync owner now duration db).0 in
      (confirm_sync o.id other revision version seen later db' ≡ (db', ok false))
      × (reschedule_sync o.id other wall attempts next db' ≡ (db', ok tt))
      × (fail_sync o.id other wall later db' ≡ (db', ok tt))
takeover_fences owner other now duration db o revision version wall later attempts next seen k n e =
    let (_, _, ready, row) = leased_row owner now duration db o k e in
    let (a, found) = projectable-allocation db o ready in
    not_holder_unchanged o.id other revision version wall later attempts next seen _ _ a
      (joined_inv o.id _ _ a row (rw (allocations-lease_due_sync owner now duration db) found))
      (not-holds-take_lease owner other (now + duration) o n)
