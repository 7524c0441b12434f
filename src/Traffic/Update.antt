-- ===== src/Traffic/Update.antt =====
-- internal/application/traffic_service.go, `buildUpdate`: what one round writes for one allocation. Times
-- and the interval are milliseconds; the boot epoch of a cursor is the time that its text denotes, a whole
-- second. The calendar's `DayBounds` is a parameter, and identifiers are drawn by the caller.
pub mod Bounds
pub mod Events
pub mod Gaps
use Prim.Native.String.{String}
use xpanel.Prelude.{
  ℕ, ◌+◌, ◌*◌, ◌/◌, Bool, true, false, not, ◌&&◌, ◌||◌, List, [], ◌∷◌, ◌++◌, Option, none, some,
  ltb, is_some, if◌then◌else◌,
}
use xpanel.Prelude.Text.{Text}
use xpanel.Prelude.Int.{ℤ, pos}
use xpanel.Domain.Sync.{SynchronizationOperation, new_synchronization_operation, reconcile, confirm}
use xpanel.Domain.Quota.{add_delta}
use xpanel.Domain.Traffic.{
  TrafficDirectionCursor, TrafficSample, EventType, ContinuityEvent, DeltaResult, node_restart,
  boundary_gap, overflow, apply_sample, restart_confirmed, is_boundary_gap,
}
use xpanel.Traffic.Counters.{InstanceObservation}

-- internal/ports/store.go: `TrafficCursorRecord`, without its allocation.
pub record TrafficCursorRecord : Type 0 where
  pub boot_epoch : Option ℕ
  pub uplink_counter : Option ℕ
  pub downlink_counter : Option ℕ
  pub uplink_epoch : ℕ
  pub downlink_epoch : ℕ
  pub last_observed_at : Option ℕ
  pub last_success_at : Option ℕ
  pub missing_since : Option ℕ

-- `CollectionTarget`, as far as the service reads it. The sums are columns that are never negative.
pub record CollectionTarget : Type 0 where
  pub allocation_id : Text
  pub user_id : Text
  pub statistics_id : Text
  pub timezone : Text
  pub cursor : TrafficCursorRecord
  pub total_uplink : ℕ
  pub total_downlink : ℕ
  pub accounted_uplink : ℕ
  pub accounted_downlink : ℕ

-- `TrafficUpdate`; an event is written with the update's allocation and time. `audit_target` is the user
-- that the audit template names.
pub record TrafficUpdate : Type 0 where
  pub allocation_id : Text
  pub cursor : TrafficCursorRecord
  pub uplink_delta : ℕ
  pub downlink_delta : ℕ
  pub day_start_utc : ℕ
  pub local_date : Text
  pub timezone : Text
  pub events : List ContinuityEvent
  pub quota_block : SynchronizationOperation
  pub audit_target : Text

-- `epochString`: the text keeps whole seconds.
unfoldable pub epoch_string : InstanceObservation → Option ℕ
epoch_string o = if not o.boot_epoch_known then none else some (o.boot_epoch / 1000 * 1000)

abbrev pub is_restart : EventType → Bool
is_restart node_restart = true
is_restart _ = false

-- The loop of `dedupeRestart`.
unfoldable pub dedupe_loop : Bool → List ContinuityEvent → List ContinuityEvent
dedupe_loop seen [] = []
dedupe_loop seen (e ∷ es) =
    let rest = dedupe_loop (seen || is_restart e.type) es in
    if is_restart e.type
    then (if seen then rest else record e { direction = "" } ∷ rest)
    else e ∷ rest

unfoldable pub dedupe_restart : List ContinuityEvent → List ContinuityEvent
unfolding dedupe_loop
dedupe_restart events = dedupe_loop false events

abbrev bare_event : EventType → String → String → ContinuityEvent
bare_event type direction summary = record {
  type = type;
  direction = direction;
  old_counter = none;
  new_counter = none;
  counter_epoch = 0;
  summary = summary;
}

abbrev fits : ℕ → ℕ → Bool
fits base delta = is_some (add_delta (pos base) (pos delta))

-- The delta after the check of the lifetime total, and after that of the cycle.
unfoldable pub lifetime_delta : ℕ → ℕ → ℕ
lifetime_delta total delta = if fits total delta then delta else 0

unfoldable pub cycle_delta : ℕ → ℕ → ℕ
cycle_delta accounted delta = if fits accounted delta then delta else 0

abbrev pub overflow_event : String → ℕ → ℕ → List ContinuityEvent
overflow_event direction total delta =
    if fits total delta
    then []
    else bare_event overflow direction "lifetime total would overflow" ∷ []

abbrev pub is_late : Option ℕ → ℕ → Bool
is_late none observed_at = false
is_late (some last) observed_at = ltb observed_at last

module _ (interval : ℕ) (target : CollectionTarget) (up_sample down_sample : TrafficSample)
    (observation : InstanceObservation) (observed_at : ℕ) where
  abbrev pub restart : Bool
  restart =
      restart_confirmed target.cursor.boot_epoch observation.boot_epoch observation.boot_epoch_known
        interval

  abbrev pub was_missing : Bool
  was_missing = is_some target.cursor.missing_since

  abbrev pub up : DeltaResult
  up =
      apply_sample "uplink"
        (record { counter = target.cursor.uplink_counter; epoch = target.cursor.uplink_epoch })
        up_sample restart was_missing

  abbrev pub down : DeltaResult
  down =
      apply_sample "downlink"
        (record { counter = target.cursor.downlink_counter; epoch = target.cursor.downlink_epoch })
        down_sample restart was_missing

  -- `events` before and after the restarts are merged, and with the gap and the overflows.
  abbrev pub sample_events : List ContinuityEvent
  sample_events =
      if restart then dedupe_restart (up.events ++ down.events) else up.events ++ down.events

  abbrev pub gap_events : List ContinuityEvent
  gap_events =
      if is_boundary_gap target.cursor.last_observed_at observed_at interval
      then bare_event boundary_gap "" "collection gap exceeded two intervals" ∷ []
      else []

  unfoldable pub all_events : List ContinuityEvent
  all_events =
      sample_events
      ++ (gap_events
          ++ (overflow_event "uplink" target.total_uplink up.delta
              ++ overflow_event "downlink" target.total_downlink down.delta))

  unfoldable pub new_cursor : TrafficCursorRecord
  new_cursor = record {
    boot_epoch =
        if observation.boot_epoch_known && (not up.missing || not down.missing)
        then epoch_string observation
        else target.cursor.boot_epoch;
    uplink_counter = up.cursor.counter;
    downlink_counter = down.cursor.counter;
    uplink_epoch = up.cursor.epoch;
    downlink_epoch = down.cursor.epoch;
    last_observed_at = some observed_at;
    last_success_at =
        if not up.missing || not down.missing
        then some observed_at
        else target.cursor.last_success_at;
    missing_since =
        if up.missing || down.missing
        then (if is_some target.cursor.missing_since
            then target.cursor.missing_since
            else some observed_at)
        else none;
  }

  -- `buildUpdate`; none is a late sample that is dropped.
  unfoldable pub build_update : (ℕ → Text → ℕ × Text) → Text → Option TrafficUpdate
  unfolding all_events new_cursor lifetime_delta cycle_delta
  build_update day_bounds operation_id =
      if is_late target.cursor.last_observed_at observed_at
      then none
      else some (record {
        allocation_id = target.allocation_id;
        cursor = new_cursor;
        uplink_delta =
            cycle_delta target.accounted_uplink (lifetime_delta target.total_uplink up.delta);
        downlink_delta =
            cycle_delta target.accounted_downlink (lifetime_delta target.total_downlink down.delta);
        day_start_utc = (day_bounds observed_at target.timezone).0;
        local_date = (day_bounds observed_at target.timezone).1;
        timezone = target.timezone;
        events = all_events;
        quota_block =
            new_synchronization_operation operation_id target.allocation_id 0 false none reconcile
              confirm observed_at;
        audit_target = target.user_id;
      })
