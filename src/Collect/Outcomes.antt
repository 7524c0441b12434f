-- ===== src/Collect/Outcomes.antt =====
-- internal/application/traffic_service.go: what a round of collection leaves.
use xpanel.Prelude.{ℕ, ◌≡◌, ◌≢◌, ◌⊎◌, false, List, [], map, Option, none, some}
use xpanel.Prelude.Text.{Text}
use xpanel.Prelude.Int.{ℤ}
use xpanel.Domain.Errors.{Error, Result, ok, err}
use xpanel.Ports.{Reply}
use xpanel.Traffic.Counters.{InstanceObservation, TrafficRound}
use xpanel.Traffic.Reading.{Reading, round, read_all}
use xpanel.Traffic.Reading.Covering.{named, twice}
use xpanel.Traffic.Update.{CollectionTarget}
use xpanel.Store.Tables.{InstanceRow}
use xpanel.Store.Accounts.{Books}
use xpanel.Store.Accounts.Batch.{TrafficCommitResult, commit_traffic_batch}
use xpanel.Collect.{
  Collected, committed, store_error, WriteErrors, on_reading, update_of, present_ones, is_committed,
  or_now,
}

-- The tables with another row of the instance.
abbrev pub with_instance : Books → InstanceRow → Books
with_instance b i = record b { db = record b.db { instance_row = i } }

abbrev errors : Option Error → Option Error → WriteErrors
errors advancing marking = record { advancing = advancing; marking = marking }

-- What a round answers after its commit, by the errors of the two writes that follow.
abbrev pub answered : Option Error → Option Error → TrafficCommitResult → Collected
answered (some e) q counts = store_error e
answered none (some e) counts = store_error e
answered none none counts = committed counts

module _ (interval : ℕ) (day_bounds : ℕ → Text → ℕ × Text) (operation_id : Text → Text)
    (cycle_end : ℕ → Text → ℤ → Option ℕ) (fresh : Text → ℕ → Text) (restore_id : Text → Text)
    (now : ℕ) (writes : WriteErrors) where
  -- The commit of all updates of a round that was read.
  abbrev pub batch :
      List CollectionTarget → TrafficRound → Books → Books × Result TrafficCommitResult
  batch targets r b =
      let observed_at = or_now r.observation.observed_at now in
      commit_traffic_batch cycle_end fresh restore_id observed_at
        (present_ones
          (update_of interval day_bounds operation_id cycle_end fresh restore_id now writes r
            observed_at)
          targets)
        b

  abbrev pub ids_of : List CollectionTarget → List Text
  ids_of targets = map (λ (x : CollectionTarget). x.statistics_id) targets

  -- Either the whole round was read and its whole batch is committed, or nothing is, for one of three
  -- reasons; and in both cases the instance's row may be another.
  abbrev pub IsAllOrNothing : List CollectionTarget → Reading → Books → Books × Collected → Type 0
  IsAllOrNothing targets reading b (b', result) =
      ((r : TrafficRound) × (counts : TrafficCommitResult) × (after : Books) × (i : InstanceRow)
        × (reading ≡ round r)
        × (named r.snapshots ≡ twice (ids_of targets))
        × (batch targets r b ≡ (after, ok counts))
        × (result ≡ answered writes.advancing writes.marking counts)
        × (b' ≡ with_instance after i))
      ⊎ ((i : InstanceRow) × (is_committed result ≡ false)
          × (b' ≡ with_instance b i)
          × ((targets ≡ [])
              ⊎ ((r : TrafficRound) → reading ≢ round r)
              ⊎ ((r : TrafficRound) × (e : Error) × (reading ≡ round r)
                  × (result ≡ store_error e)
                  × ((batch targets r b).1 ≡ err e))))

  abbrev reacted : List CollectionTarget → Reading → Books → Books × Collected
  reacted = on_reading interval day_bounds operation_id cycle_end fresh restore_id now writes

  module _ {S : Type 0} (probe : S → S × Reply InstanceObservation)
      (read : List Text → S → S × Reply TrafficRound) where
    abbrev pub reading_of : List CollectionTarget → S → Reading
    reading_of targets s = (read_all read (ids_of targets) s).1
