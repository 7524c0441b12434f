-- ===== src/Store/Drift/Tests.antt =====
-- Calls on an empty queue.
use xpanel.Prelude.{refl, arith, false}
use xpanel.Prelude.Text.{codes}
use xpanel.Store.Tables.{Db, AuditEvent, identity, reconcile_removed_unknown}
use xpanel.Store.Drift.{enqueue_drift_removal, lease_due_drift_removal, fail_drift_removal}
use xpanel.Store.Drift.Steps.{Reach, here, next, enqueue, lease, fail}
use xpanel.Store.Drift.Single.{IsSound, Reach-IsSound}
use xpanel.Store.Accounts.Tests.{books}

abbrev gave_up : AuditEvent
gave_up = record { action = reconcile_removed_unknown; target_id = codes "t1"; succeeded = false }

abbrev db0 : Db
db0 = books.db

abbrev db1 : Db
db1 =
    (enqueue_drift_removal (codes "r1") (codes "t1") (codes "xpanel-a1") identity (codes "guest") 5
      db0).0

abbrev db2 : Db
db2 = (lease_due_drift_removal (codes "w1") 6 300 db1).0

abbrev db3 : Db
db3 = (fail_drift_removal (codes "r1") (codes "w1") gave_up db2).0

abbrev db4 : Db
db4 =
    (enqueue_drift_removal (codes "r2") (codes "t1") (codes "xpanel-a1") identity (codes "guest") 9
      db3).0

four_calls : Reach db0 db4
four_calls =
    next
      (next
        (next
          (next here
            (enqueue (codes "r1") (codes "t1") (codes "xpanel-a1") identity (codes "guest") 5 refl))
          (lease (codes "w1") 6 300 refl))
        (fail (codes "r1") (codes "w1") gave_up refl))
      (enqueue (codes "r2") (codes "t1") (codes "xpanel-a1") identity (codes "guest") 9 refl)

empty-IsSound : IsSound db0.drift_removals
empty-IsSound = record { single = λ _ _. omega arith; keyed = λ _. omega arith }

Reach-IsSound_example : IsSound db4.drift_removals
Reach-IsSound_example = Reach-IsSound empty-IsSound four_calls
