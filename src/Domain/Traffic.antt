-- ===== src/Domain/Traffic.antt =====
-- internal/domain/traffic.go: the traffic counters of one direction. A counter is an int64 that is read
-- from a uint64 after the range test, so it is never negative; times and intervals are numbers, and
-- the zero time is `none`.
pub mod Accounting
use Prim.Native.String.{String}
use xpanel.Prelude.{
  ℕ, ◌+◌, ◌-◌, ◌*◌, ◌^◌, Bool, true, false, not, ◌&&◌, ◌||◌, List, [], ◌∷◌, ◌++◌, Option, none,
  some, ltb, leb, if◌then◌else◌,
}

pub record TrafficDirectionCursor : Type 0 where
  pub counter : Option ℕ
  pub epoch : ℕ

pub record TrafficSample : Type 0 where
  pub found : Bool
  pub bytes : ℕ

pub data EventType : Type 0 where
  counter_decrease missing reappeared boundary_gap node_restart baseline overflow : EventType

pub record ContinuityEvent : Type 0 where
  pub type : EventType
  pub direction : String
  pub old_counter : Option ℕ
  pub new_counter : Option ℕ
  pub counter_epoch : ℕ
  pub summary : String

pub record DeltaResult : Type 0 where
  pub delta : ℕ
  pub cursor : TrafficDirectionCursor
  pub missing : Bool
  pub events : List ContinuityEvent

abbrev pub max_counter : ℕ
max_counter = 2 ^ 63 - 1

abbrev event : EventType → String → Option ℕ → Option ℕ → ℕ → String → ContinuityEvent
event type direction old new epoch summary = record {
  type = type;
  direction = direction;
  old_counter = old;
  new_counter = new;
  counter_epoch = epoch;
  summary = summary;
}

-- The branch `!sample.Found`.
abbrev on_missing : String → TrafficDirectionCursor → Bool → DeltaResult
on_missing direction cursor was_missing = record {
  delta = 0;
  cursor = cursor;
  missing = true;
  events = elim cursor.counter [
    | none ↦ []
    | some old ↦
        if was_missing
        then []
        else event missing direction (some old) none cursor.epoch "counter temporarily missing" ∷ []
  ];
}

-- The branch `sample.Bytes > MaxInt64`.
abbrev on_overflow : String → TrafficDirectionCursor → DeltaResult
on_overflow direction cursor = record {
  delta = 0;
  cursor = record cursor { epoch = cursor.epoch + 1 };
  missing = false;
  events =
      event overflow direction cursor.counter none (cursor.epoch + 1)
        "counter exceeded the representable range"
      ∷ [];
}

-- The `switch` on a counter that was read before, after the events `before`.
abbrev on_counter : String → ℕ → ℕ → ℕ → Bool → List ContinuityEvent → DeltaResult
on_counter direction old epoch current restart_confirmed before =
    if restart_confirmed
    then record {
      delta = current;
      cursor = record { counter = some current; epoch = epoch + 1 };
      missing = false;
      events =
          before
          ++ event node_restart direction (some old) (some current) (epoch + 1)
              "node restarted; counting resumed from the new epoch"
            ∷ [];
    }
    else if ltb current old
    then record {
      delta = 0;
      cursor = record { counter = some current; epoch = epoch + 1 };
      missing = false;
      events =
          before
          ++ event counter_decrease direction (some old) (some current) (epoch + 1)
              "counter decreased without a confirmed restart; new baseline established"
            ∷ [];
    }
    else record {
      delta = current - old;
      cursor = record { counter = some current; epoch = epoch };
      missing = false;
      events = before;
    }

abbrev on_baseline : String → ℕ → ℕ → DeltaResult
on_baseline direction epoch current = record {
  delta = current;
  cursor = record { counter = some current; epoch = epoch };
  missing = false;
  events =
      event baseline direction none (some current) epoch "first sample established the baseline"
      ∷ [];
}

abbrev on_found : String → TrafficDirectionCursor → ℕ → Bool → Bool → DeltaResult
on_found direction cursor current restart_confirmed was_missing = elim cursor.counter [
  | none ↦ on_baseline direction cursor.epoch current
  | some old ↦ on_counter direction old cursor.epoch current restart_confirmed (
      if was_missing
      then event reappeared direction (some old) (some current) cursor.epoch "counter reappeared"
        ∷ []
      else [])
]

unfoldable pub apply_sample :
    String → TrafficDirectionCursor → TrafficSample → Bool → Bool → DeltaResult
apply_sample direction cursor sample restart_confirmed was_missing =
    if not sample.found
    then on_missing direction cursor was_missing
    else if ltb max_counter sample.bytes
    then on_overflow direction cursor
    else on_found direction cursor sample.bytes restart_confirmed was_missing

abbrev pub distance : ℕ → ℕ → ℕ
distance a b = if ltb a b then b - a else a - b

unfoldable pub restart_confirmed : Option ℕ → ℕ → Bool → ℕ → Bool
restart_confirmed none observed known interval = false
restart_confirmed (some stored) observed known interval =
    if not known then false else ltb interval (distance stored observed)

-- `BoundaryGap`, for a current time that is not before the previous one or is (no gap then).
unfoldable pub is_boundary_gap : Option ℕ → ℕ → ℕ → Bool
is_boundary_gap none current interval = false
is_boundary_gap (some previous) current interval =
    if leb interval 0 then false else ltb (2 * interval) (current - previous)
