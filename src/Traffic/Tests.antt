-- ===== src/Traffic/Tests.antt =====
-- Rounds of collection on concrete counters.
use xpanel.Prelude.{
  ℕ, zero, suc, ◌+◌, ◌-◌, ◌*◌, ◌/◌, ◌==◌, ◌≤◌, ◌≡◌, refl, arith, true, false, List, [], ◌∷◌, Option,
  none, some, if◌then◌else◌,
}
use xpanel.Prelude.Text.{Text, codes}
use xpanel.Ports.{done}
use xpanel.Domain.Sync.{new_synchronization_operation, reconcile, confirm}
use xpanel.Domain.Traffic.{TrafficSample, max_counter, apply_sample, restart_confirmed}
use xpanel.Domain.Quota.{add_delta, add_bytes}
use xpanel.Traffic.Counters.{
  uplink, InstanceObservation, TrafficRound, value, not_found, Node, counter_name, read_counter,
  read_identity, read_identities, read_traffic,
}
use xpanel.Traffic.Counters.Names.{counter_name_injective}
use xpanel.Traffic.Reading.{
  Reading, round, read_rest, read_all, observation_mismatch, with_last_time,
}
use xpanel.Traffic.Reading.Covering.{twice, named, read_all-covers, read_traffic-Answers}
use xpanel.Traffic.Update.{
  TrafficCursorRecord, CollectionTarget, TrafficUpdate, build_update, lifetime_delta, cycle_delta,
}
use xpanel.Traffic.Update.Bounds.{build_update-bounds}

abbrev identities : ℕ → List Text
identities zero = []
identities (suc n) = (97 ∷ n ∷ []) ∷ identities n

abbrev seen : ℕ → InstanceObservation
seen n = record {
  observed_at = some (60000 + n);
  uptime_seconds = 50;
  boot_epoch = 10000;
  boot_epoch_known = true;
}

-- A node that counts the calls that it gets.
abbrev pub counting_node : Node ℕ
counting_node = record {
  probe = λ n. (n + 1, done (seen n));
  get_stats = λ _ n. (n + 1, if n == 3 then not_found else value n);
  clock = λ n. some n;
}

abbrev twenty_one : List Text
twenty_one = identities 21

abbrev the_round : Reading → TrafficRound
the_round (round r) = r
the_round _ = record { observation = seen 0; snapshots = [] }

abbrev read_twenty_one : Reading
read_twenty_one = (read_all (read_traffic counting_node) twenty_one 0).1

twenty_one-read : read_twenty_one ≡ round (the_round read_twenty_one)
unfolding read_all read_rest read_traffic read_identities read_identity read_counter counter_name
    observation_mismatch with_last_time
twenty_one-read = refl

read_all-covers_example : named (the_round read_twenty_one).snapshots ≡ twice twenty_one
read_all-covers_example =
    read_all-covers (read_traffic counting_node) (read_traffic-Answers counting_node) twenty_one 0
      (the_round read_twenty_one) twenty_one-read

abbrev odd_name : Text
odd_name = codes "user>>>a>>>traffic>>>up>>>traffic>>>uplink"

odd_name-named : counter_name (codes "a>>>traffic>>>up") uplink ≡ some odd_name
unfolding counter_name
odd_name-named = refl

counter_name_injective_example :
    (codes "a>>>traffic>>>up" ≡ codes "a>>>traffic>>>up") × (uplink ≡ uplink)
counter_name_injective_example =
    counter_name_injective (codes "a>>>traffic>>>up") (codes "a>>>traffic>>>up") uplink uplink
      odd_name odd_name-named odd_name-named

abbrev cursor : TrafficCursorRecord
cursor = record {
  boot_epoch = some 10000;
  uplink_counter = some 500;
  downlink_counter = some 700;
  uplink_epoch = 0;
  downlink_epoch = 0;
  last_observed_at = some 60000;
  last_success_at = some 60000;
  missing_since = none;
}

abbrev target : CollectionTarget
target = record {
  allocation_id = codes "a1";
  user_id = codes "carol";
  statistics_id = codes "s1";
  timezone = codes "UTC";
  cursor = cursor;
  total_uplink = max_counter - 10;
  total_downlink = 900;
  accounted_uplink = 500;
  accounted_downlink = max_counter;
}

abbrev sample : ℕ → TrafficSample
sample n = record { found = true; bytes = n }

abbrev gone : TrafficSample
gone = record { found = false; bytes = 0 }

abbrev rebooted : InstanceObservation
rebooted = record {
  observed_at = some 65000;
  uptime_seconds = 2;
  boot_epoch = 63000;
  boot_epoch_known = true;
}

abbrev days : ℕ → Text → ℕ × Text
days now zone = (now / 86400000 * 86400000, codes "1970-01-01")

abbrev built : TrafficSample → TrafficSample → Option TrafficUpdate
built x y = build_update 5000 target x y rebooted 65000 days (codes "o1")

abbrev the_update : Option TrafficUpdate → TrafficUpdate
the_update (some u) = u
the_update none = record {
  allocation_id = [];
  cursor = cursor;
  uplink_delta = 0;
  downlink_delta = 0;
  day_start_utc = 0;
  local_date = [];
  timezone = [];
  events = [];
  quota_block = new_synchronization_operation [] [] 0 false none reconcile confirm 0;
  audit_target = [];
}

restarted_update : built (sample 30) (sample 40) ≡ some (the_update (built (sample 30) (sample 40)))
unfolding build_update
restarted_update = refl

-- The uplink's total would overflow, and the downlink's cycle.
restarted_update-deltas :
    ((the_update (built (sample 30) (sample 40))).uplink_delta ≡ 0)
    × ((the_update (built (sample 30) (sample 40))).downlink_delta ≡ 0)
unfolding build_update lifetime_delta cycle_delta add_delta add_bytes apply_sample restart_confirmed
restarted_update-deltas = (refl, refl)

build_update-bounds_example :
    let u = the_update (built (sample 30) (sample 40)) in
    (target.total_uplink + u.uplink_delta ≤ max_counter)
    × (target.total_downlink + u.downlink_delta ≤ max_counter)
    × (target.accounted_uplink + u.uplink_delta ≤ max_counter)
    × (target.accounted_downlink + u.downlink_delta ≤ max_counter)
    × (u.uplink_delta ≤ 30)
    × (u.downlink_delta ≤ 40)
build_update-bounds_example =
    build_update-bounds 5000 target (sample 30) (sample 40) rebooted 65000 days (codes "o1")
      (the_update (built (sample 30) (sample 40))) (omega arith) (omega arith) (omega arith)
      (omega arith) (omega arith) (omega arith) restarted_update

unread_update : built gone gone ≡ some (the_update (built gone gone))
unfolding build_update
unread_update = refl
