-- ===== src/Worker/Handle.antt =====
-- internal/worker/synchronizer.go, `handle`: one leased operation, projected to Xray.
use xpanel.Prelude.{false, not, ◌&&◌, none, some, if◌then◌else◌}
use xpanel.Prelude.Text.{Text}
use xpanel.Domain.Sync.{SyncReason, rotate, port_change}
use xpanel.Ports.{CallError, Reply, done, failed, Adapter}
use xpanel.Worker.World.{SyncWork, Options, M, ◌>>=◌, ◌>>◌, leave, rpc, fence}
use xpanel.Worker.Ending.{
  describe, is_unavailable, is_inbound_not_found, confirm, retry, inbound_present,
}
use xpanel.Worker.Create.{create_dedicated_inbound}
use xpanel.Worker.Rotate.{rotate_within_inbound}

module _ {S : Type 0} (a : Adapter S) (options : Options) (work : SyncWork) where
  abbrev pub tag : Text
  tag = work.inbound.inbound_tag

  unfoldable pub confirm_absent : M S (Unit {0})
  confirm_absent = leave (confirm options work false 0)

  -- An uncertain removal is read back.
  unfoldable pub check_removed : CallError → M S (Unit {0})
  check_removed cause = do
    fence options work
    seen ← inbound_present a tag
    elim seen [
      | none ↦ leave (retry options work cause)
      | some present ↦ if present then leave (retry options work cause) else confirm_absent
    ]

  unfoldable pub on_removed : Reply (Unit {0}) → M S (Unit {0})
  on_removed (done _) = confirm_absent
  on_removed (failed cause) =
      let (kind, retryable) = describe cause in
      if is_inbound_not_found kind
      then confirm_absent
      else if retryable && not (is_unavailable kind)
      then check_removed cause
      else leave (retry options work cause)

  -- The wanted state is absence: the whole inbound goes.
  unfoldable pub remove_whole_inbound : M S (Unit {0})
  remove_whole_inbound = do fence options work; reply ← rpc (a.remove_inbound tag); on_removed reply

  unfoldable pub on_moved : Reply (Unit {0}) → M S (Unit {0})
  on_moved (done _) = create_dedicated_inbound a options work
  on_moved (failed cause) =
      if not (is_inbound_not_found (describe cause).0)
      then leave (retry options work cause)
      else create_dedicated_inbound a options work

  -- A new port: the old inbound goes first.
  unfoldable pub change_port : M S (Unit {0})
  change_port = do fence options work; reply ← rpc (a.remove_inbound tag); on_moved reply

  abbrev pub project : SyncReason → M S (Unit {0})
  project rotate = rotate_within_inbound a options work
  project port_change = change_port
  project _ = create_dedicated_inbound a options work

  unfoldable pub handle : M S (Unit {0})
  handle =
      if not work.operation.desired_presence
      then remove_whole_inbound
      else project work.operation.reason
