-- ===== src/Lib.antt =====
-- XPanel manages users of a proxy node: each user has an inbound of its own, with its own port, in a
-- running Xray process. The panel's database holds the wanted state; a worker projects it to Xray.
--
-- The parts and their files.
-- - Domain: internal/domain, the pure rules. Domain/User, Domain/Inbound, Domain/Sync, Domain/Quota,
--   Domain/Port, Domain/Traffic and Domain/Errors stand for the files of the same names. An operation
--   keeps its Go name in snake case; ValidateX gives ok or the Go error value.
-- - Store: internal/persistence/sqlite. Store/Tables has the rows; Store/Sync the queue of synchronization
--   operations with its leases (Enqueue, LeaseDueSync, RenewSyncLease); Store/Outcome the transactions
--   that end an operation (ConfirmSync, RescheduleSync, FailSync); Store/Intent those that make one
--   (applyDecision, EnqueueReconcile). A transaction is a function on the tables; an error or a rollback
--   leaves them as they were. Store/Accounts has the rows of traffic and quota, with the settlement of
--   cycles (settleCycles) in Store/Accounts/Cycles, CommitTrafficBatch in Store/Accounts/Batch, UpdateUser
--   and ResetCycleTraffic in Store/Accounts/Commands, and CreateUser in Store/Accounts/Creation;
--   Store/Drift the queue of removals of what the panel does not know; Store/Templates the capability
--   generation and the evidence of templates; Store/Users the commands on a user (ChangeInboundPort,
--   RotateCredential, SoftDeleteUser) with their replay.
-- - Traffic: Traffic/Counters is internal/adapter/xray/stats.go; Traffic/Reading and Traffic/Update are
--   readAll and buildUpdate of internal/application/traffic_service.go.
-- - Collect: CollectOnce of the same file, from the targets to the commit. The two writes of the instance's
--   row after the commit are transactions of their own, which may fail with given errors (WriteErrors).
-- - Reconcile: internal/application/reconciliation_service.go, ReconcileOnce on the world of Worker.
-- - Ports: internal/ports/xray.go. The Adapter interface is a record of functions on the state of a node.
--   Ports/Contract says what the worker relies on: reads change nothing and tell the truth, additions and
--   removals touch what they name, and a failed call may have been applied.
-- - Worker: internal/worker/synchronizer.go. A handler is a function on a world: the node, the database,
--   the clock, and a schedule of what other processes commit during each call to Xray. Returning early is
--   a value of Flow. Worker/Handle is handle; Worker/Create createDedicatedInbound; Worker/Rotate
--   rotateWithinInbound; Worker/Ending the ways to end; Worker/Drift handleDriftRemoval. A branch of a
--   long Go function is a definition.
-- - Fake: internal/adapter/xray/fake/fake.go, the in-memory node of the repository's tests, with injected
--   failures, which may also answer success (a nil Err). It fills the interface of Ports; Fake/Contract is about the contract of Ports.
-- - Xray: internal/adapter/xray/errors.go, the mapping of API errors to the kinds of Ports.
-- - Auth: the throttle on failed logins of internal/application/auth_service.go. Authenticate is a
--   function of the answer of the password comparison, and of what other attempts do to the failures
--   between the two times it takes the lock.
-- - Prelude: lists, texts, association lists and integers.
--
-- The worker reads its work from Store/Sync and Store/Drift, renews its lease there before it calls the
-- adapter of Ports, and ends in a transaction of Store/Outcome or Store/Drift; reconciliation compares the
-- tables with the adapter and fills both queues; a round of traffic is read by Traffic and committed by
-- Store/Accounts, which may make an intent for the worker. The rules of Domain decide phases, delays,
-- identities and sums.
--
-- Bounds. Times are milliseconds, and delays nanoseconds, as natural numbers; int64 values whose sign is
-- tested are integers, and sums are tested for overflow as in the source. A loop is recursion on a list,
-- on the ports left or on the attempts left. Two run on fuel: the loop over batches on the number of
-- identities left, since each batch takes one at least, and the loop over quota cycles on the present time
-- and two, since each cycle ends later than the one before.
--
-- Not modelled: the gRPC calls of the adapter, the web pages, services other than the above, failures of the
-- database itself (but for the two writes named under Collect), cryptography
-- (decryption and key generation are parameters of the worker), logging, and the calendar, whose day and
-- cycle bounds are parameters. Of the store's transactions, the editing of templates is not there yet. The
-- order of Go's iteration over a map is the order of a list.
pub mod Prelude
pub mod Domain
pub mod Store
pub mod Ports
pub mod Fake
pub mod Xray
pub mod Auth
pub mod Traffic
pub mod Reconcile
pub mod Collect
pub mod Worker
