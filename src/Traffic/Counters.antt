-- ===== src/Traffic/Counters.antt =====
-- internal/adapter/xray/stats.go: the names of Xray's counters and the exact read of them. The gRPC calls
-- are parameters: `probe`, and `get_stats` by name, whose answer is a value, a missing counter, a
-- malformed answer or an error already mapped. Times are milliseconds; the zero time is none.
pub mod Names
use xpanel.Prelude.{
  ℕ, ◌+◌, Bool, true, false, not, ◌&&◌, ◌||◌, List, [], ◌∷◌, ◌++◌, Option, none, some, ltb, length,
  if◌then◌else◌,
}
use xpanel.Prelude.Text.{Text, codes, has_prefix}
use xpanel.Domain.User.{is_empty}
use xpanel.Ports.{CallError, adapter_error, invalid_argument, internal, Reply, done, failed}

-- internal/ports/xray.go.
pub data Direction : Type 0 where
  uplink downlink : Direction

pub record InstanceObservation : Type 0 where
  pub observed_at : Option ℕ
  pub uptime_seconds : ℕ
  pub boot_epoch : ℕ
  pub boot_epoch_known : Bool

pub record CounterSnapshot : Type 0 where
  pub statistics_id : Text
  pub direction : Direction
  pub bytes : ℕ
  pub found : Bool

pub record TrafficRound : Type 0 where
  pub observation : InstanceObservation
  pub snapshots : List CounterSnapshot

abbrev pub direction_name : Direction → Text
direction_name uplink = codes "uplink"
direction_name downlink = codes "downlink"

-- `CounterName`; none is its error. A `Direction` is one of the two, so the test for others is not needed.
unfoldable pub counter_name : Text → Direction → Option Text
counter_name identity direction =
    if is_empty identity
    then none
    else some (codes "user>>>" ++ (identity ++ (codes ">>>traffic>>>" ++ direction_name direction)))

-- What `GetStats` answers: a value, no such counter, an answer that fails the checks, or an error.
pub data StatReply : Type 0 where
  value : ℕ → StatReply
  not_found malformed : StatReply
  stat_failed : CallError → StatReply

abbrev bad_name : CallError
bad_name = adapter_error (record {
  kind = invalid_argument;
  retryable = false;
  safe_summary = "invalid counter identity or direction";
})

abbrev too_many : CallError
too_many = adapter_error (record {
  kind = invalid_argument;
  retryable = false;
  safe_summary = "traffic query exceeds supported allocation count";
})

abbrev malformed_answer : CallError
malformed_answer = adapter_error (record {
  kind = internal;
  retryable = true;
  safe_summary = "malformed Xray statistics response";
})

-- The calls of one client, and its clock.
pub record Node (S : Type 0) : Type 0 where
  pub probe : S → S × Reply InstanceObservation
  pub get_stats : Text → S → S × StatReply
  pub clock : S → Option ℕ

abbrev snapshot : Text → Direction → StatReply → Reply CounterSnapshot
snapshot identity direction (value n) =
    done (record { statistics_id = identity; direction = direction; bytes = n; found = true })
snapshot identity direction not_found =
    done (record { statistics_id = identity; direction = direction; bytes = 0; found = false })
snapshot identity direction malformed = failed malformed_answer
snapshot identity direction (stat_failed e) = failed e

module _ {S : Type 0} (node : Node S) where
  -- The body of the inner loop.
  unfoldable pub read_counter : Text → Direction → S → S × Reply CounterSnapshot
  read_counter identity direction s = elim (counter_name identity direction) [
    | none ↦ (s, failed bad_name)
    | some name ↦ let (s', reply) = node.get_stats name s in (s', snapshot identity direction reply)
  ]

  -- The inner loop over both directions.
  unfoldable pub read_identity : Text → S → S × Reply (CounterSnapshot × CounterSnapshot)
  read_identity identity s =
      let (s', up) = read_counter identity uplink s in
      elim up [
        | failed e ↦ (s', failed e)
        | done u ↦
            let (s'', down) = read_counter identity downlink s' in
            (s'', elim down [ failed e ↦ failed e | done d ↦ done (u, d) ])
      ]

  -- The outer loop over the identities.
  unfoldable pub read_identities : List Text → S → S × Reply (List CounterSnapshot)
  read_identities [] s = (s, done [])
  read_identities (identity ∷ rest) s =
      let (s', pair) = read_identity identity s in
      let later = read_identities rest s' in
      elim pair [
        | failed e ↦ (s', failed e)
        | done (u, d) ↦
            (later.0, elim later.1 [ failed e ↦ failed e | done more ↦ done (u ∷ d ∷ more) ])
      ]

  abbrev unobserved : S → InstanceObservation
  unobserved s = record {
    observed_at = node.clock s;
    uptime_seconds = 0;
    boot_epoch = 0;
    boot_epoch_known = false;
  }

  abbrev observed : Reply InstanceObservation → S → InstanceObservation
  observed (done o) s = o
  observed (failed _) s = unobserved s

  unfoldable pub read_traffic : List Text → S → S × Reply TrafficRound
  read_traffic ids s =
      if ltb 20 (length ids)
      then (s, failed too_many)
      else let (s', probed) = node.probe s in
        let observation = observed probed s' in
        let (s'', snapshots) = read_identities ids s' in
        (
          s'',
          elim snapshots [
            | failed e ↦ failed e
            | done list ↦ done (record { observation = observation; snapshots = list })
          ],
        )
