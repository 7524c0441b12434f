-- ===== src/Traffic/Update/Gaps.antt =====
-- internal/application/traffic_service.go, `buildUpdate`: late samples and counters that are not there.
use xpanel.Prelude.{ℕ, ◌≡◌, false, Option, none, some, arith}
use xpanel.Prelude.Text.{Text}
use xpanel.Domain.Traffic.{TrafficSample, apply_sample}
use xpanel.Traffic.Counters.{InstanceObservation}
use xpanel.Traffic.Update.{
  TrafficCursorRecord, CollectionTarget, TrafficUpdate, build_update, new_cursor, lifetime_delta,
  cycle_delta,
}

abbrev pub or_now : Option ℕ → ℕ → Option ℕ
or_now none now = some now
or_now (some t) now = some t

-- What a round without either counter leaves of a cursor.
abbrev pub unread : TrafficCursorRecord → ℕ → TrafficCursorRecord
unread c now = record c { last_observed_at = some now; missing_since = or_now c.missing_since now }

module _ (interval : ℕ) (target : CollectionTarget) (up_sample down_sample : TrafficSample)
    (observation : InstanceObservation) (observed_at : ℕ) (day_bounds : ℕ → Text → ℕ × Text)
    (operation_id : Text) (u : TrafficUpdate) where
  -- A round that finds neither counter counts nothing and keeps the counters, their epochs, the boot epoch
  -- and the time of the last success: it notes its own time, and since when the counters are missing.
  pub build_update-unread :
      up_sample.found ≡ false
      → down_sample.found ≡ false
      → build_update interval target up_sample down_sample observation observed_at day_bounds
          operation_id
        ≡ some u
      → (u.uplink_delta ≡ 0)
        × (u.downlink_delta ≡ 0)
        × (u.cursor ≡ unread target.cursor observed_at)
  unfolding build_update new_cursor lifetime_delta cycle_delta apply_sample
  build_update-unread x y e = ground (arith, e, x, y)
