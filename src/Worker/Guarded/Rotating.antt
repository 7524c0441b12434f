-- ===== src/Worker/Guarded/Rotating.antt =====
-- internal/worker/synchronizer.go, `rotateWithinInbound`: the two clients over its four steps.
use xpanel.Prelude.{◌≢◌, refl, Bool, true, false, not, ◌&&◌, ◌||◌, List, ◌⊎◌, inl, inr, sym, ◌∙◌}
use xpanel.Prelude.Text.{Text}
use xpanel.Domain.Inbound.Laws.{rotation_safety_id-ne}
use xpanel.Ports.{
  CallError, Reply, done, failed, Adapter, RemoteUser, AddUserCommand, user_already_exists,
}
use xpanel.Ports.Contract.{View, Lawful, HasKind, IsDone}
use xpanel.Worker.World.{SyncWork, Options, M, leave, rpc}
use xpanel.Worker.Ending.{describe, is_unavailable, is_inbound_not_found, confirm, retry}
use xpanel.Worker.Silent.{confirm-IsSilent, retry_later-IsSilent, retry-IsSilent}
use xpanel.Worker.Runs.{Runs, bind-Runs, leave-Runs, rpc-Runs, fence-Runs, if-Runs, forget-Runs}
use xpanel.Worker.Create.{holds}
use xpanel.Worker.Rotate.{
  is_user_already_exists, is_user_not_found, listed, add_command, remove_command, safety_id,
  rotation_pending, on_safety_removed, remove_safety, check_new, on_new_added, add_new,
  on_old_removed, remove_old, check_safety, on_safety_added, add_safety, on_listed,
  rotate_within_inbound,
}
use xpanel.Worker.Guarded.{Any, Always, Carries, Guarded, Good, Keeps, Told}
use xpanel.Worker.Guarded.Kinds.{describe-user_already_exists}
use xpanel.Worker.Guarded.Creating.{
  list_users-Runs, carries_client-Runs, or_fail-Keeps, fence-Keeps, create_dedicated_inbound-Keeps,
}

module _ {S : Type 0} (v : View S) (a : Adapter S) (lawful : Lawful v a) (options : Options)
    (work : SyncWork) where
  open v use {Sane, registered, carries}

  -- A part of the handler keeps the inbound guarded where it carries `id`.
  abbrev Follows : {A : Type 0} → Text → M S A → Type 0
  Follows id m = Runs (Good v work) (Carries v work id) m Always

  abbrev Here : {A : Type 0} → M S A → Type 0
  Here = Keeps v work

  -- The reply to an addition of `id`: where it says that the client is there, it is.
  abbrev Added : Text → Reply (Unit {0}) → S → Type 0
  Added id reply n = IsDone reply ⊎ HasKind user_already_exists reply → Carries v work id n

  anyhow : {A : Type 0} {P : S → Type 0} {m : M S A} → Here m → Runs (Good v work) P m Always
  anyhow = forget-Runs _ λ _ _. tt

  distinct : work.statistics_id ≢ safety_id work
  distinct = rotation_safety_id-ne work.statistics_id

  add_user-Runs :
      (id key : Text)
      → Runs (Good v work) Any (rpc (a.add_user (add_command work id key))) (Added id)
  add_user-Runs id key =
      rpc-Runs _ {Q = Added id} (a.add_user c)
        λ n good _. (keeps n good, lawful.add_user_adds c n good.0)
    where
      c : AddUserCommand
      c = add_command work id key

      keeps : (n : S) → Good v work n → Good v work (a.add_user c n).0
      keeps n (sane, g) =
          let (sane', r, old) =
            lawful.add_user_keeps c n work.inbound.inbound_tag work.statistics_id sane in
          let (_, _, guard) =
            lawful.add_user_keeps c n work.inbound.inbound_tag (safety_id work) sane in
          (
            sane',
            elim g [
              | inl gone ↦ inl (r ∙ gone)
              | inr (inl x) ↦ inr (inl (old x))
              | inr (inr x) ↦ inr (inr (guard x))
            ],
          )

  -- One client is removed while the other is there.
  remove_user-Runs :
      (id other : Text)
      → other ≢ id
      → ((n : S) → Carries v work other n → Guarded v work n)
      → Runs
          (Good v work)
          (Carries v work other)
          (rpc (a.remove_user (remove_command work id)))
          (λ _. Carries v work other)
  remove_user-Runs id other ne guards =
      rpc-Runs _ {Q = λ _. Carries v work other} (a.remove_user (remove_command work id))
        λ n good there.
          (let (sane', _, same) =
              lawful.remove_user_keeps (remove_command work id) n work.inbound.inbound_tag other
                good.0 in
            let still = same ne ∙ there in ((sane', guards _ still), still))

  rotation_pending-Here : Here (rotation_pending a options work)
  unfolding rotation_pending
  rotation_pending-Here = leave-Runs _ _ (retry_later-IsSilent options work)

  leave-confirm : Here {A = Unit {0}} (leave (confirm options work true work.credential_version))
  leave-confirm = leave-Runs _ _ (confirm-IsSilent options work true work.credential_version)

  leave-retry : (cause : CallError) → Here {A = Unit {0}} (leave (retry options work cause))
  leave-retry cause = leave-Runs _ _ (retry-IsSilent options work cause)

  on_safety_removed-Here :
      (reply : Reply (Unit {0})) → Here (on_safety_removed a options work reply)
  unfolding on_safety_removed
  on_safety_removed-Here (done _) = leave-confirm
  on_safety_removed-Here (failed cause) =
      if-Runs _
        (not (is_user_not_found (describe cause).0)
          && not (is_inbound_not_found (describe cause).0))
        (λ _. rotation_pending-Here) (λ _. leave-confirm)

  remove_safety-Follows : Follows work.statistics_id (remove_safety a options work)
  unfolding remove_safety
  remove_safety-Follows = bind-Runs _ (fence-Runs _ options work) λ _.
      bind-Runs _
        (remove_user-Runs (safety_id work) work.statistics_id distinct (λ _ there. inr (inl there)))
        λ reply. anyhow (on_safety_removed-Here reply)

  check_new-Here : Here (check_new a options work)
  unfolding check_new
  check_new-Here = bind-Runs _ (fence-Runs _ options work) λ _.
      bind-Runs _ (carries_client-Runs v a lawful options work work.statistics_id) λ healthy.
        if-Runs _ (holds healthy) (λ h. forget-Runs _ (λ _ f. f h) remove_safety-Follows)
          (λ _. anyhow rotation_pending-Here)

  on_new_added-Runs :
      (reply : Reply (Unit {0}))
      → Runs
          (Good v work)
          (Added work.statistics_id reply)
          (on_new_added a options work reply)
          Always
  unfolding on_new_added
  on_new_added-Runs (done _) = forget-Runs _ (λ _ f. f (inl tt)) remove_safety-Follows
  on_new_added-Runs (failed cause) =
      if-Runs _ (is_user_already_exists (describe cause).0)
        (λ h.
          forget-Runs _ (λ _ f. f (inr (describe-user_already_exists (Unit {0}) cause h)))
            remove_safety-Follows)
        λ _.
          if-Runs _ (is_inbound_not_found (describe cause).0)
            (λ _. anyhow (create_dedicated_inbound-Keeps v a lawful options work))
            λ _.
              if-Runs _ ((describe cause).1 && not (is_unavailable (describe cause).0))
                (λ _. anyhow check_new-Here) (λ _. anyhow rotation_pending-Here)

  add_new-Here : Here (add_new a options work)
  unfolding add_new
  add_new-Here =
      bind-Runs _ (or_fail-Keeps v a lawful options work (options.decrypt work.credential_key))
        λ key. bind-Runs _ (fence-Keeps v a lawful options work) λ _.
          bind-Runs _ (forget-Runs _ (λ _ _. tt) (add_user-Runs work.statistics_id key))
            on_new_added-Runs

  on_old_removed-Here : (reply : Reply (Unit {0})) → Here (on_old_removed a options work reply)
  unfolding on_old_removed
  on_old_removed-Here (done _) = add_new-Here
  on_old_removed-Here (failed cause) =
      if-Runs _ (is_inbound_not_found (describe cause).0)
        (λ _. create_dedicated_inbound-Keeps v a lawful options work)
        λ _.
          if-Runs _ (is_user_not_found (describe cause).0) (λ _. add_new-Here)
            (λ _. leave-retry cause)

  remove_old-Follows :
      (present : Bool) → Follows (safety_id work) (remove_old a options work present)
  unfolding remove_old
  remove_old-Follows false = anyhow add_new-Here
  remove_old-Follows true = bind-Runs _ (fence-Runs _ options work) λ _.
      bind-Runs _
        (remove_user-Runs work.statistics_id (safety_id work) (λ e. distinct (sym e))
          (λ _ there. inr (inr there)))
        λ reply. anyhow (on_old_removed-Here reply)

  check_safety-Here :
      (present : Bool) (cause : CallError) → Here (check_safety a options work present cause)
  unfolding check_safety
  check_safety-Here present cause = bind-Runs _ (fence-Runs _ options work) λ _.
      bind-Runs _ (carries_client-Runs v a lawful options work (safety_id work)) λ added.
        if-Runs _ (holds added) (λ h. forget-Runs _ (λ _ f. f h) (remove_old-Follows present))
          (λ _. anyhow (leave-retry cause))

  on_safety_added-Runs :
      (present : Bool) (reply : Reply (Unit {0}))
      → Runs
          (Good v work)
          (Added (safety_id work) reply)
          (on_safety_added a options work present reply)
          Always
  unfolding on_safety_added
  on_safety_added-Runs present (done _) =
      forget-Runs _ (λ _ f. f (inl tt)) (remove_old-Follows present)
  on_safety_added-Runs present (failed cause) =
      if-Runs _ (is_user_already_exists (describe cause).0)
        (λ h.
          forget-Runs _ (λ _ f. f (inr (describe-user_already_exists (Unit {0}) cause h)))
            (remove_old-Follows present))
        λ _.
          if-Runs _ (is_inbound_not_found (describe cause).0)
            (λ _. anyhow (create_dedicated_inbound-Keeps v a lawful options work))
            λ _.
              if-Runs _ (not (describe cause).1 || is_unavailable (describe cause).0)
                (λ _. anyhow (leave-retry cause)) (λ _. anyhow (check_safety-Here present cause))

  add_safety-Here : (present : Bool) → Here (add_safety a options work present)
  unfolding add_safety
  add_safety-Here present =
      bind-Runs _
        (or_fail-Keeps v a lawful options work (options.generate_user_key work.template.method))
        λ key. bind-Runs _ (fence-Keeps v a lawful options work) λ _.
          bind-Runs _ (forget-Runs _ (λ _ _. tt) (add_user-Runs (safety_id work) key))
            (on_safety_added-Runs present)

  on_listed-Runs :
      (reply : Reply (List RemoteUser))
      → Runs (Good v work) (Told v work reply) (on_listed a options work reply) Always
  unfolding on_listed
  on_listed-Runs (failed cause) =
      if-Runs _ (is_inbound_not_found (describe cause).0)
        (λ _. anyhow (create_dedicated_inbound-Keeps v a lawful options work))
        (λ _. anyhow (leave-retry cause))
  on_listed-Runs (done users) =
      if-Runs _ (listed (safety_id work) users)
        (λ h.
          forget-Runs _ (λ n told. sym (told users (safety_id work) refl) ∙ h)
            (remove_old-Follows (listed work.statistics_id users)))
        (λ _. anyhow (add_safety-Here (listed work.statistics_id users)))

  pub rotate_within_inbound-Keeps : Here (rotate_within_inbound a options work)
  unfolding rotate_within_inbound
  rotate_within_inbound-Keeps =
      bind-Runs _ (fence-Keeps v a lawful options work)
        λ _. bind-Runs _ (list_users-Runs v a lawful options work) on_listed-Runs
