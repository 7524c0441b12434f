-- ===== src/Traffic/Update/Bounds.antt =====
-- internal/application/traffic_service.go, `buildUpdate`: the deltas and the sums they are added to.
use xpanel.Prelude.{ℕ, ◌+◌, ◌≤◌, ◌≡◌, some, arith}
use xpanel.Prelude.Text.{Text}
use xpanel.Domain.Quota.{add_bytes, add_delta}
use xpanel.Domain.Traffic.{TrafficSample, max_counter}
use xpanel.Domain.Traffic.Accounting.{apply_sample-SampleSpec, counter_of}
use xpanel.Traffic.Counters.{InstanceObservation}
use xpanel.Traffic.Update.{
  CollectionTarget, TrafficUpdate, lifetime_delta, cycle_delta, build_update, up, down, restart,
  was_missing,
}

lifetime_delta-fits :
    (total delta : ℕ)
    → total ≤ max_counter
    → (total + lifetime_delta total delta ≤ max_counter) × (lifetime_delta total delta ≤ delta)
unfolding lifetime_delta add_delta add_bytes
lifetime_delta-fits total delta h = ground arith

cycle_delta-fits :
    (accounted delta : ℕ)
    → accounted ≤ max_counter
    → (accounted + cycle_delta accounted delta ≤ max_counter)
      × (cycle_delta accounted delta ≤ delta)
unfolding cycle_delta add_delta add_bytes
cycle_delta-fits accounted delta h = ground arith

module _ (interval : ℕ) (target : CollectionTarget) (up_sample down_sample : TrafficSample)
    (observation : InstanceObservation) (observed_at : ℕ) (day_bounds : ℕ → Text → ℕ × Text)
    (operation_id : Text) (u : TrafficUpdate) where
  -- For an allocation whose sums and counters fit in an int64, the deltas of its update never take the
  -- lifetime totals or the cycle's accounted bytes beyond the int64 range, and are never more than the
  -- counters that were read.
  pub build_update-bounds :
      target.total_uplink ≤ max_counter
      → target.total_downlink ≤ max_counter
      → target.accounted_uplink ≤ max_counter
      → target.accounted_downlink ≤ max_counter
      → counter_of
          (record { counter = target.cursor.uplink_counter; epoch = target.cursor.uplink_epoch })
        ≤ max_counter
      → counter_of (record {
        counter = target.cursor.downlink_counter;
        epoch = target.cursor.downlink_epoch;
      })
        ≤ max_counter
      → build_update interval target up_sample down_sample observation observed_at day_bounds
          operation_id
        ≡ some u
      → (target.total_uplink + u.uplink_delta ≤ max_counter)
        × (target.total_downlink + u.downlink_delta ≤ max_counter)
        × (target.accounted_uplink + u.uplink_delta ≤ max_counter)
        × (target.accounted_downlink + u.downlink_delta ≤ max_counter)
        × (u.uplink_delta ≤ up_sample.bytes)
        × (u.downlink_delta ≤ down_sample.bytes)
  unfolding build_update
  build_update-bounds tu td au ad cu cd e =
      let du = (up interval target up_sample down_sample observation observed_at).delta in
      let dd = (down interval target up_sample down_sample observation observed_at).delta in
      let seen = restart interval target up_sample down_sample observation observed_at in
      let gone = was_missing interval target up_sample down_sample observation observed_at in
      ground (
        arith,
        e,
        lifetime_delta-fits target.total_uplink du tu,
        lifetime_delta-fits target.total_downlink dd td,
        cycle_delta-fits target.accounted_uplink (lifetime_delta target.total_uplink du) au,
        cycle_delta-fits target.accounted_downlink (lifetime_delta target.total_downlink dd) ad,
        apply_sample-SampleSpec "uplink"
            (record { counter = target.cursor.uplink_counter; epoch = target.cursor.uplink_epoch })
            up_sample seen gone cu,
        apply_sample-SampleSpec "downlink"
            (record {
              counter = target.cursor.downlink_counter;
              epoch = target.cursor.downlink_epoch;
            })
            down_sample seen gone cd,
      )
