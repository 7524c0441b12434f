-- ===== src/Worker/Guarded/Handling.antt =====
-- internal/worker/synchronizer.go, `handle`: the clients over all of its paths.
use xpanel.Prelude.{Bool, false, not, ◌&&◌, Option, none, some, if◌then◌else◌}
use xpanel.Domain.Sync.{SyncReason, rotate, port_change}
use xpanel.Ports.{CallError, Reply, done, failed, Adapter}
use xpanel.Ports.Contract.{View, Lawful}
use xpanel.Worker.World.{Flow, go, stop, SyncWork, Options, World, M, leave, rpc}
use xpanel.Worker.Ending.{describe, is_unavailable, is_inbound_not_found, retry}
use xpanel.Worker.Silent.{confirm-IsSilent, retry-IsSilent}
use xpanel.Worker.Runs.{AllGood, Post, bind-Runs, leave-Runs, rpc-Runs, if-Runs}
use xpanel.Worker.Handle.{
  project, confirm_absent, check_removed, on_removed, remove_whole_inbound, on_moved, change_port,
  handle,
}
use xpanel.Worker.Guarded.{Always, Good, Keeps}
use xpanel.Worker.Guarded.Creating.{
  remove_inbound-Good, inbound_present-Keeps, fence-Keeps, create_dedicated_inbound-Keeps,
}
use xpanel.Worker.Guarded.Rotating.{rotate_within_inbound-Keeps}

module _ {S : Type 0} (v : View S) (a : Adapter S) (lawful : Lawful v a) (options : Options)
    (work : SyncWork) where
  abbrev Here : {A : Type 0} → M S A → Type 0
  Here = Keeps v work

  leave-retry : (cause : CallError) → Here {A = Unit {0}} (leave (retry options work cause))
  leave-retry cause = leave-Runs _ _ (retry-IsSilent options work cause)

  confirm_absent-Here : Here (confirm_absent a options work)
  unfolding confirm_absent
  confirm_absent-Here = leave-Runs _ _ (confirm-IsSilent options work false 0)

  remove_inbound-Here : Here (rpc (a.remove_inbound work.inbound.inbound_tag))
  remove_inbound-Here =
      rpc-Runs _ {Q = Always} (a.remove_inbound work.inbound.inbound_tag)
        λ n good _. (remove_inbound-Good v a lawful options work n good, tt)

  check_removed-Here : (cause : CallError) → Here (check_removed a options work cause)
  unfolding check_removed
  check_removed-Here cause =
      bind-Runs _ (fence-Keeps v a lawful options work)
        λ _. bind-Runs _ (inbound_present-Keeps v a lawful options work) decide
    where
      decide :
          (seen : Option Bool)
          → Here {A = Unit {0}} (elim seen [
            | none ↦ leave (retry options work cause)
            | some present ↦
                if present then leave (retry options work cause) else confirm_absent a options work
          ])
      decide none = leave-retry cause
      decide (some present) = if-Runs _ present (λ _. leave-retry cause) (λ _. confirm_absent-Here)

  on_removed-Here : (reply : Reply (Unit {0})) → Here (on_removed a options work reply)
  unfolding on_removed
  on_removed-Here (done _) = confirm_absent-Here
  on_removed-Here (failed cause) =
      if-Runs _ (is_inbound_not_found (describe cause).0) (λ _. confirm_absent-Here)
        λ _.
          if-Runs _ ((describe cause).1 && not (is_unavailable (describe cause).0))
            (λ _. check_removed-Here cause) (λ _. leave-retry cause)

  remove_whole_inbound-Here : Here (remove_whole_inbound a options work)
  unfolding remove_whole_inbound
  remove_whole_inbound-Here =
      bind-Runs _ (fence-Keeps v a lawful options work)
        λ _. bind-Runs _ remove_inbound-Here on_removed-Here

  on_moved-Here : (reply : Reply (Unit {0})) → Here (on_moved a options work reply)
  unfolding on_moved
  on_moved-Here (done _) = create_dedicated_inbound-Keeps v a lawful options work
  on_moved-Here (failed cause) =
      if-Runs _ (not (is_inbound_not_found (describe cause).0)) (λ _. leave-retry cause)
        (λ _. create_dedicated_inbound-Keeps v a lawful options work)

  change_port-Here : Here (change_port a options work)
  unfolding change_port
  change_port-Here =
      bind-Runs _ (fence-Keeps v a lawful options work)
        λ _. bind-Runs _ remove_inbound-Here on_moved-Here

  project-Here : (reason : SyncReason) → Here (project a options work reason)
  project-Here rotate = rotate_within_inbound-Keeps v a lawful options work
  project-Here port_change = change_port-Here
  project-Here _ = create_dedicated_inbound-Keeps v a lawful options work

  handle-Here : Here (handle a options work)
  unfolding handle
  handle-Here =
      if-Runs _ (not work.operation.desired_presence) (λ _. remove_whole_inbound-Here)
        (λ _. project-Here work.operation.reason)

  Post-AllGood :
      (r : Flow (Unit {0}) × World S) → Post (Good v work) Always r → AllGood (Good v work) r.1
  Post-AllGood (go _, w) p = p.0
  Post-AllGood (stop _, w) p = p

  -- Let an adapter obey the contract, whatever fails, and let other processes commit anything between the
  -- calls. If the node is sane, and the user's inbound is not registered or carries the user's client or the
  -- transition client, now and after every call so far, then after the handling of one operation, of any
  -- reason, this holds now and after every call that was made.
  pub handle-Good :
      (w : World S) → AllGood (Good v work) w → AllGood (Good v work) (handle a options work w).1
  handle-Good w good = Post-AllGood (handle a options work w) (handle-Here.run w good tt)
