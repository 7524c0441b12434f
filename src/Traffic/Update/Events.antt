-- ===== src/Traffic/Update/Events.antt =====
-- internal/application/traffic_service.go, `buildUpdate` and `dedupeRestart`: the events of an update.
use Prim.Native.String.{String}
use xpanel.Prelude.{
  ℕ, ◌+◌, ◌≤◌, ◌≡◌, Bool, true, false, List, [], ◌∷◌, ◌++◌, some, arith, count_if, if◌then◌else◌,
}
use xpanel.Prelude.Text.{Text}
use xpanel.Domain.Traffic.{TrafficDirectionCursor, TrafficSample, ContinuityEvent, apply_sample}
use xpanel.Traffic.Counters.{InstanceObservation}
use xpanel.Traffic.Update.{
  CollectionTarget, TrafficUpdate, is_restart, dedupe_loop, dedupe_restart, all_events,
  build_update, restart, up, down, was_missing, sample_events, gap_events, overflow_event,
}

abbrev pub restarts : List ContinuityEvent → ℕ
restarts = count_if λ e. is_restart e.type

restarts-append : (xs ys : List ContinuityEvent) → restarts (xs ++ ys) ≡ restarts xs + restarts ys
restarts-append [] ys = omega arith
restarts-append (x ∷ xs) ys = ground (arith, restarts-append xs ys)

restarts-dedupe_loop :
    (seen : Bool) (es : List ContinuityEvent)
    → restarts (dedupe_loop seen es) ≤ (if seen then 0 else 1)
unfolding dedupe_loop
restarts-dedupe_loop seen [] = ground arith
restarts-dedupe_loop true (e ∷ es) = ground (arith, restarts-dedupe_loop true es)
restarts-dedupe_loop false (e ∷ es) =
    ground (arith, restarts-dedupe_loop true es, restarts-dedupe_loop false es)

-- A sample that saw no restart makes no restart event.
restarts-apply_sample :
    (direction : String) (c : TrafficDirectionCursor) (s : TrafficSample) (was_missing : Bool)
    → restarts (apply_sample direction c s false was_missing).events ≡ 0
unfolding apply_sample
restarts-apply_sample direction c s was_missing = ground arith

-- The events of both directions, merged if a restart was confirmed.
restarts-merged :
    (restarted was_missing : Bool) (a b : TrafficDirectionCursor) (x y : TrafficSample)
    → let events =
        (apply_sample "uplink" a x restarted was_missing).events
        ++ (apply_sample "downlink" b y restarted was_missing).events in
      restarts (if restarted then dedupe_restart events else events) ≤ (if restarted then 1 else 0)
unfolding dedupe_restart
restarts-merged true was_missing a b x y = restarts-dedupe_loop false (
    (apply_sample "uplink" a x true was_missing).events
    ++ (apply_sample "downlink" b y true was_missing).events)
restarts-merged false was_missing a b x y =
    rw
      (
        restarts-append (apply_sample "uplink" a x false was_missing).events _,
        restarts-apply_sample "uplink" a x was_missing,
        restarts-apply_sample "downlink" b y was_missing,
      )
      (omega arith)

restarts-overflow :
    (direction : String) (total delta : ℕ) → restarts (overflow_event direction total delta) ≡ 0
restarts-overflow direction total delta = ground arith

restarts-three :
    (xs ys zs ws : List ContinuityEvent)
    → restarts ys ≡ 0
    → restarts zs ≡ 0
    → restarts ws ≡ 0
    → restarts (xs ++ (ys ++ (zs ++ ws))) ≡ restarts xs
restarts-three xs ys zs ws a b c =
    rw (restarts-append xs (ys ++ (zs ++ ws)), restarts-append ys (zs ++ ws), restarts-append zs ws)
      (omega (arith, a, b, c))

-- The events after those of the samples are no restarts.
restarts-all_events :
    (interval : ℕ) (target : CollectionTarget) (x y : TrafficSample) (o : InstanceObservation)
    (now : ℕ)
    → restarts (all_events interval target x y o now)
      ≡ restarts (sample_events interval target x y o now)
unfolding all_events
restarts-all_events interval target x y o now =
    restarts-three (sample_events interval target x y o now) (gap_events interval target x y o now)
      (overflow_event "uplink" target.total_uplink (up interval target x y o now).delta)
      (overflow_event "downlink" target.total_downlink (down interval target x y o now).delta)
      (ground arith) (restarts-overflow "uplink" _ _) (restarts-overflow "downlink" _ _)

module _ (interval : ℕ) (target : CollectionTarget) (up_sample down_sample : TrafficSample)
    (observation : InstanceObservation) (observed_at : ℕ) (day_bounds : ℕ → Text → ℕ × Text)
    (operation_id : Text) (u : TrafficUpdate) where
  -- An update reports at most one restart of the node, though both directions see it, and none unless the
  -- round confirmed a restart against the boot epoch of the cursor.
  pub build_update-restarts :
      build_update interval target up_sample down_sample observation observed_at day_bounds
          operation_id
        ≡ some u
      → restarts u.events
        ≤ (if restart interval target up_sample down_sample observation observed_at then 1 else 0)
  unfolding build_update
  build_update-restarts e =
      let events = all_events interval target up_sample down_sample observation observed_at in
      let same : events ≡ u.events = ground (arith, e) in
      let merged =
        restarts-merged (restart interval target up_sample down_sample observation observed_at)
          (was_missing interval target up_sample down_sample observation observed_at)
          (record { counter = target.cursor.uplink_counter; epoch = target.cursor.uplink_epoch })
          (record {
            counter = target.cursor.downlink_counter;
            epoch = target.cursor.downlink_epoch;
          })
          up_sample down_sample in
      rw (← same, restarts-all_events interval target up_sample down_sample observation observed_at)
        merged
