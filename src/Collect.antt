-- ===== src/Collect.antt =====
-- internal/application/traffic_service.go, `CollectOnce`, with `CollectionTargets` of
-- internal/persistence/sqlite/store_traffic.go: a round of collection from the targets to the commit. The
-- order of the targets, which is by name, is that of the tables; the log, the summary's counts and the
-- notice to the worker are left out. `now` is what the clock shows if the node gives no time.
pub mod Outcomes
pub mod Tests
use xpanel.Prelude.{
  ℕ, ◌+◌, Bool, true, false, not, ◌&&◌, List, [], ◌∷◌, ◌++◌, map, Option, none, some, find, is_some,
  if◌then◌else◌,
}
use xpanel.Prelude.Text.{Text, text_eq}
use xpanel.Prelude.Int.{ℤ}
use xpanel.Domain.Errors.{Error, Result, ok, err}
use xpanel.Domain.User.{ProjectionState, AccessAllocation, is_active}
use xpanel.Domain.Traffic.{TrafficSample}
use xpanel.Ports.{CallError, Reply, done, failed}
use xpanel.Traffic.Counters.{
  Direction, uplink, downlink, InstanceObservation, CounterSnapshot, TrafficRound,
}
use xpanel.Traffic.Reading.{Mismatch, Reading, round, rpc_failed, inconsistent, read_all}
use xpanel.Traffic.Update.{CollectionTarget, TrafficUpdate, epoch_string, build_update}
use xpanel.Store.Tables.{Db, user_by_id}
use xpanel.Store.Sync.{is_unreleased_of}
use xpanel.Store.Templates.{
  advance_capability_generation, mark_instance_healthy, mark_instance_unreachable,
}
use xpanel.Store.Accounts.{Books, policy_of, open_cycle}
use xpanel.Store.Accounts.Batch.{TrafficCommitResult, commit_traffic_batch}

abbrev is_present : ProjectionState → Bool
is_present ProjectionState.present = true
is_present _ = false

infixl 5 ◌>>=◌
abbrev ◌>>=◌ : {A B : Type 0} → Option A → (A → Option B) → Option B
none >>= f = none
(some x) >>= f = f x

-- The joins on one allocation, and the conditions.
unfoldable pub target_of : Books → AccessAllocation → Option CollectionTarget
target_of b a = do
  u ← user_by_id a.user_id b.db.users
  i ← find (λ x. text_eq x.allocation_id a.id) b.db.identities
  _ ← find (is_unreleased_of a.id) b.db.inbounds
  _ ← policy_of a.id b
  c ← open_cycle a.id b
  k ← find (λ x. text_eq x.allocation_id a.id) b.cursors
  t ← find (λ x. text_eq x.allocation_id a.id) b.totals
  (if is_active u.lifecycle && is_present a.projection_state
      then some (record {
        allocation_id = a.id;
        user_id = u.id;
        statistics_id = i.statistics_id;
        timezone = c.timezone;
        cursor = k.cursor;
        total_uplink = t.uplink;
        total_downlink = t.downlink;
        accounted_uplink = c.accounted_uplink;
        accounted_downlink = c.accounted_downlink;
      })
      else none)

-- What there is of a list of options.
unfoldable pub present_ones : {A B : Type 0} → (A → Option B) → List A → List B
present_ones f [] = []
present_ones f (x ∷ xs) =
    let rest = present_ones f xs in elim (f x) [ none ↦ rest | some y ↦ y ∷ rest ]

unfoldable pub collection_targets : Books → List CollectionTarget
unfolding target_of present_ones
collection_targets b = present_ones (target_of b) b.db.allocations

abbrev same_direction : Direction → Direction → Bool
same_direction uplink uplink = true
same_direction downlink downlink = true
same_direction _ _ = false

-- The map of samples: a later snapshot replaces an earlier one, and what is not there was not found.
unfoldable pub sample_in : Text → Direction → List CounterSnapshot → Option TrafficSample
sample_in id d [] = none
sample_in id d (c ∷ cs) =
    let later = sample_in id d cs in
    if is_some later
    then later
    else if text_eq c.statistics_id id && same_direction c.direction d
    then some (record { found = c.found; bytes = c.bytes })
    else none

unfoldable pub sample_of : Text → Direction → List CounterSnapshot → TrafficSample
unfolding sample_in
sample_of id d cs = elim (sample_in id d cs) [
  | none ↦ record { found = false; bytes = 0 }
  | some s ↦ s
]

-- How a round ends.
pub data Collected : Type 0 where
  probed : Collected
  committed : TrafficCommitResult → Collected
  rpc_error : CallError → Collected
  discarded : Mismatch → Collected
  store_error : Error → Collected

abbrev pub is_committed : Collected → Bool
is_committed (committed _) = true
is_committed _ = false

abbrev pub on_db : (Db → Db) → Books → Books
on_db f b = record b { db = f b.db }

-- `recordFailure`.
unfoldable pub record_failure : Db → Db
record_failure db = mark_instance_unreachable db

-- The errors with which the database fails the two writes after a commit, each of which is a transaction of
-- its own: that of `advanceGeneration`, and that of `MarkInstanceHealthy`.
pub record WriteErrors : Type 0 where
  pub advancing : Option Error
  pub marking : Option Error

-- `MarkInstanceHealthy`, unless it fails.
unfoldable pub mark_unless : Option Error → Option ℕ → Db → Db × Option Error
mark_unless (some e) epoch db = (db, some e)
mark_unless none epoch db = (mark_instance_healthy epoch db, none)

-- `advanceGeneration`, and `MarkInstanceHealthy` after it; the second is left out if the first fails.
unfoldable pub record_process : WriteErrors → InstanceObservation → Db → Db × Option Error
unfolding mark_unless
record_process w o db = elim w.advancing [
  | some e ↦ (db, some e)
  | none ↦
      mark_unless w.marking (epoch_string o)
        (advance_capability_generation
          (record {
            boot_epoch = o.boot_epoch;
            uptime_seconds = o.uptime_seconds;
            known = o.boot_epoch_known;
            suspected_restart = false;
          })
          1000 db).0
]

-- The result of a round whose last writes are done.
abbrev pub ended : Collected → Books → Db × Option Error → Books × Collected
ended result b (db, none) = (record b { db = db }, result)
ended result b (db, some e) = (record b { db = db }, store_error e)

-- `recordInconsistency`, with the last epoch that was seen.
unfoldable pub record_inconsistency : Option ℕ → Db → Db
record_inconsistency none db = mark_instance_healthy none db
record_inconsistency (some epoch) db =
    mark_instance_healthy (some epoch)
      (advance_capability_generation
        (record { boot_epoch = epoch; uptime_seconds = 0; known = true; suspected_restart = true })
        1000 db).0

abbrev pub or_now : Option ℕ → ℕ → ℕ
or_now none now = now
or_now (some t) now = t

module _ (interval : ℕ) (day_bounds : ℕ → Text → ℕ × Text) (operation_id : Text → Text)
    (cycle_end : ℕ → Text → ℤ → Option ℕ) (fresh : Text → ℕ → Text) (restore_id : Text → Text)
    (now : ℕ) (writes : WriteErrors) where
  -- The update of one target; none is a late sample.
  unfoldable pub update_of : TrafficRound → ℕ → CollectionTarget → Option TrafficUpdate
  unfolding sample_of
  update_of r observed_at t =
      build_update interval t (sample_of t.statistics_id uplink r.snapshots)
        (sample_of t.statistics_id downlink r.snapshots) r.observation observed_at day_bounds
        (operation_id t.allocation_id)

  -- A round that was read: the updates, their commit, and the signs of the process.
  unfoldable pub commit_round : List CollectionTarget → TrafficRound → Books → Books × Collected
  unfolding update_of present_ones record_process
  commit_round targets r b =
      let observed_at = or_now r.observation.observed_at now in
      let (b', result) =
        commit_traffic_batch cycle_end fresh restore_id observed_at
          (present_ones (update_of r observed_at) targets) b in
      elim result [
        | err e ↦ (b', store_error e)
        | ok counts ↦ ended (committed counts) b' (record_process writes r.observation b'.db)
      ]

  -- What is done with a reading.
  unfoldable pub on_reading : List CollectionTarget → Reading → Books → Books × Collected
  unfolding commit_round record_inconsistency record_failure
  on_reading targets (round r) b = commit_round targets r b
  on_reading targets (rpc_failed e) b = (on_db record_failure b, rpc_error e)
  on_reading targets (inconsistent reason first last) b =
      (on_db (record_inconsistency (epoch_string last)) b, discarded reason)

  module _ {S : Type 0} (probe : S → S × Reply InstanceObservation)
      (read : List Text → S → S × Reply TrafficRound) where
    -- The round without targets.
    unfoldable pub probe_once : Books → S → S × (Books × Collected)
    unfolding record_process record_failure
    probe_once b s =
        let (s', reply) = probe s in
        (
          s',
          elim reply [
            | failed e ↦ (on_db record_failure b, rpc_error e)
            | done o ↦ ended probed b (record_process writes o b.db)
          ],
        )

    -- The round for the targets that were found.
    unfoldable pub collect_for : List CollectionTarget → Books → S → S × (Books × Collected)
    unfolding on_reading probe_once
    collect_for [] b s = probe_once b s
    collect_for (t ∷ ts) b s =
        let (s', reading) = read_all read (map (λ x. x.statistics_id) (t ∷ ts)) s in
        (s', on_reading (t ∷ ts) reading b)

    -- `CollectOnce`.
    unfoldable pub collect_once : Books → S → S × (Books × Collected)
    unfolding collection_targets collect_for
    collect_once b s = collect_for (collection_targets b) b s
