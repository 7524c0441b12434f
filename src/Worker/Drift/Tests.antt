-- ===== src/Worker/Drift/Tests.antt =====
-- The removal of an unknown client from a user's inbound in the node of the tests.
use xpanel.Prelude.{◌≡◌, ◌≢◌, inr, refl, arith, true, false, none, some}
use xpanel.Prelude.Text.{Text, codes, text_eq, text_eq_complete}
use xpanel.Domain.Sync.{SyncState}
use xpanel.Domain.Inbound.{rotation_safety_id}
use xpanel.Store.Tables.{identity}
use xpanel.Store.Drift.{DriftRemoval}
use xpanel.Fake.{node_adapter}
use xpanel.Fake.Contract.{node_view}
use xpanel.Fake.Contract.Adapter.{node_adapter-Lawful}
use xpanel.Worker.Runs.{Post}
use xpanel.Worker.Guarded.{Always, Good}
use xpanel.Worker.Rotate.{safety_id}
use xpanel.Worker.Drift.{handle_drift}
use xpanel.Worker.Drift.Harmless.{IsForeign, handle_drift-Good}
use xpanel.Worker.Tests.{work, world, options, node-Good}

abbrev stray : DriftRemoval
stray = record {
  row = record {
    id = codes "r1";
    template_id = some (codes "t1");
    inbound_tag = codes "xpanel-a1";
    kind = identity;
    statistics_id = codes "guest";
    state = SyncState.leased;
    attempt_count = 0;
    next_attempt_at = 0;
    lease_owner = some (codes "w1");
    lease_expires_at = some 500;
    created_at = 0;
    superseded_by = none;
  };
  expected_statistics_id = codes "xpanel-u1";
  reclaimed = true;
}

differs : (s t : Text) → text_eq s t ≡ false → s ≢ t
differs s t n e = ground (arith, n, text_eq_complete s t e)

stray-IsForeign : IsForeign stray work
unfolding text_eq rotation_safety_id
stray-IsForeign = inr (
  refl,
  differs (codes "xpanel-u1") (codes "guest") refl,
  differs (safety_id work) (codes "guest") refl,
)

handle_drift-Good_example :
    Post
      (Good node_view work)
      (Always {A = Unit {0}})
      (handle_drift node_adapter (options (codes "w1")) stray world)
handle_drift-Good_example =
    handle_drift-Good node_view node_adapter node_adapter-Lawful (options (codes "w1")) work stray
      stray-IsForeign world (node-Good, tt)
