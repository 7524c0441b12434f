-- ===== src/Worker/Drift/Harmless.antt =====
-- internal/worker/synchronizer.go, `handleDriftRemoval`: the users' clients while drift is removed.
use xpanel.Prelude.{
  ℕ, ◌≡◌, ◌≢◌, ◌⊎◌, inl, inr, ◌∙◌, Bool, true, false, not, ◌&&◌, none, arith, if◌then◌else◌,
}
use xpanel.Store.Tables.{identity, inbound}
use xpanel.Store.Drift.{DriftRemoval, renew_drift_removal_lease}
use xpanel.Ports.{CallError, Reply, done, failed, Adapter}
use xpanel.Ports.Contract.{View, Lawful}
use xpanel.Worker.World.{SyncWork, go, stop, Options, World, M, leave}
use xpanel.Worker.Ending.{describe, is_unavailable, inbound_present}
use xpanel.Worker.Silent.{IsSilent}
use xpanel.Worker.Runs.{AllGood, Post, bind-Runs, leave-Runs, continue-Runs, rpc-Runs, if-Runs}
use xpanel.Worker.Rotate.{safety_id}
use xpanel.Worker.Guarded.{Any, Always, Good, Keeps}
use xpanel.Worker.Guarded.Creating.{SameInbound-Guarded, list_inbounds-Good}
use xpanel.Worker.Drift.{
  fence_drift, complete, fail_removal, reschedule, observe_user, observe, call_removal,
  not_converged, on_removal_failed, on_removal, remove_drift, check_reclaimed, handle_drift,
  is_gone, is_absent, removal_command,
}

-- The removal is not aimed at the user's inbound, or at a client that guards it.
abbrev pub IsForeign : DriftRemoval → SyncWork → Type 0
IsForeign removal work =
    ((removal.row.kind ≡ inbound) × (work.inbound.inbound_tag ≢ removal.row.inbound_tag))
    ⊎ ((removal.row.kind ≡ identity)
        × (work.statistics_id ≢ removal.row.statistics_id)
        × (safety_id work ≢ removal.row.statistics_id))

module _ {S : Type 0} (v : View S) (a : Adapter S) (lawful : Lawful v a) (options : Options)
    (work : SyncWork) (removal : DriftRemoval) (foreign : IsForeign removal work) where
  open v use {Sane, registered, carries}

  abbrev Here : {A : Type 0} → M S A → Type 0
  Here = Keeps v work

  complete-IsSilent : IsSilent {S = S} (complete a options removal)
  unfolding complete
  complete-IsSilent w = ground arith

  not_converged-IsSilent :
      (started : ℕ) (cause : CallError)
      → IsSilent {S = S} (not_converged a options removal started cause)
  unfolding not_converged fail_removal reschedule
  not_converged-IsSilent started cause w = ground arith

  fence-Here : Here (fence_drift a options removal)
  unfolding fence_drift
  fence-Here = record { run = renewed }
    where
      from :
          (held : Bool) (w : World S)
          → AllGood (Good v work) w
          → Post (Good v work) (Always {A = Unit {0}}) (if held then go tt else stop none, w)
      from true w good = (good, tt)
      from false w good = good

      renewed :
          (w : World S)
          → AllGood (Good v work) w
          → Any w.node
          → Post (Good v work) (Always {A = Unit {0}}) (fence_drift a options removal w)
      renewed w good p =
          let r = renew_drift_removal_lease removal.row.id options.owner w.now options.lease w.db in
          from r.1 (record w { db = r.0 }) good

  -- The call itself.
  remove_inbound-Good :
      (s : S)
      → work.inbound.inbound_tag ≢ removal.row.inbound_tag
      → Good v work s
      → Good v work (a.remove_inbound removal.row.inbound_tag s).0
  remove_inbound-Good s other (sane, g) =
      let (sane', others, _) = lawful.remove_inbound_keeps removal.row.inbound_tag s sane in
      (
        sane',
        SameInbound-Guarded v a lawful options work s _ (others work.inbound.inbound_tag other) g,
      )

  remove_user-Good :
      (s : S)
      → work.statistics_id ≢ removal.row.statistics_id
      → safety_id work ≢ removal.row.statistics_id
      → Good v work s
      → Good v work (a.remove_user (removal_command a options removal) s).0
  remove_user-Good s mine safe (sane, g) =
      let c = removal_command a options removal in
      let (sane', same, kept) =
        lawful.remove_user_keeps c s work.inbound.inbound_tag work.statistics_id sane in
      let (_, _, kept') =
        lawful.remove_user_keeps c s work.inbound.inbound_tag (safety_id work) sane in
      (
        sane',
        elim g [
          | inl gone ↦ inl (same ∙ gone)
          | inr (inl x) ↦ inr (inl (kept mine ∙ x))
          | inr (inr x) ↦ inr (inr (kept' safe ∙ x))
        ],
      )

  call-Here : Here (call_removal a options removal)
  unfolding call_removal
  call-Here = elim foreign [
    | inl (k, other) ↦ rw k (
        rpc-Runs _ {Q = Always} (a.remove_inbound removal.row.inbound_tag)
          λ n good _. (remove_inbound-Good n other good, tt))
    | inr (k, mine, safe) ↦ rw k (
        rpc-Runs _ {Q = Always} (a.remove_user (removal_command a options removal))
          λ n good _. (remove_user-Good n mine safe good, tt))
  ]

  list_users-Good' :
      (s : S) → Good v work s → Good v work (a.list_users removal.row.inbound_tag s).0
  list_users-Good' s (sane, g) =
      let (sane', same) = lawful.list_users_reads removal.row.inbound_tag s sane in
      (sane', SameInbound-Guarded v a lawful options work s _ (same work.inbound.inbound_tag) g)

  observe_user-Here : Here (observe_user a options removal)
  unfolding observe_user
  observe_user-Here =
      bind-Runs _
        (rpc-Runs _ {Q = Always} (a.list_users removal.row.inbound_tag)
          λ n good _. (list_users-Good' n good, tt))
        λ reply. continue-Runs _ _ λ _ _. tt

  present-Here : Here (inbound_present a removal.row.inbound_tag)
  unfolding inbound_present
  present-Here =
      bind-Runs _
        (rpc-Runs _ {Q = Always} a.list_inbounds
          λ n good _. (list_inbounds-Good v a lawful options work n good, tt))
        λ reply. continue-Runs _ _ λ _ _. tt

  observe-Here : Here (observe a options removal)
  unfolding observe
  observe-Here = elim foreign [
    | inl (k, _) ↦ rw k present-Here
    | inr (k, _, _) ↦ rw k observe_user-Here
  ]

  leave-complete : Here {A = Unit {0}} (leave (complete a options removal))
  leave-complete = leave-Runs _ _ complete-IsSilent

  leave-not_converged :
      (started : ℕ) (cause : CallError)
      → Here {A = Unit {0}} (leave (not_converged a options removal started cause))
  leave-not_converged started cause = leave-Runs _ _ (not_converged-IsSilent started cause)

  on_removal-Here :
      (started : ℕ) (reply : Reply (Unit {0})) → Here (on_removal a options removal started reply)
  unfolding on_removal on_removal_failed
  on_removal-Here started (done _) = leave-complete
  on_removal-Here started (failed cause) =
      if-Runs _ (is_gone (describe cause).0) (λ _. leave-complete)
        λ _.
          if-Runs _ ((describe cause).1 && not (is_unavailable (describe cause).0))
            (λ _. bind-Runs _ fence-Here λ _. bind-Runs _ observe-Here λ seen.
              if-Runs _ (is_absent a options removal seen) (λ _. leave-complete)
                λ _. leave-not_converged started cause)
            (λ _. leave-not_converged started cause)

  remove_drift-Here : (started : ℕ) → Here (remove_drift a options removal started)
  unfolding remove_drift
  remove_drift-Here started = bind-Runs _ call-Here λ reply. on_removal-Here started reply

  check_reclaimed-Here : (started : ℕ) → Here (check_reclaimed a options removal started)
  unfolding check_reclaimed
  check_reclaimed-Here started = bind-Runs _ observe-Here λ seen.
      if-Runs _ (is_absent a options removal seen) (λ _. leave-complete)
        λ _. remove_drift-Here started

  -- For any adapter that keeps the contract, any schedule of other commits and failures, and any removal
  -- that is not aimed at a user's inbound, its client or its transition client, the handling of the
  -- removal keeps that inbound, after every call, unregistered or carrying one of the two clients.
  pub handle_drift-Good :
      (w : World S)
      → AllGood (Good v work) w
      → Post (Good v work) (Always {A = Unit {0}}) (handle_drift a options removal w)
  unfolding handle_drift
  handle_drift-Good w good =
      (bind-Runs _ fence-Here λ _.
          if-Runs _ removal.reclaimed (λ _. check_reclaimed-Here w.now)
            λ _. remove_drift-Here w.now).run
        w good tt
