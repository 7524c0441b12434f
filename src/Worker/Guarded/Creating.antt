-- ===== src/Worker/Guarded/Creating.antt =====
-- internal/worker/synchronizer.go, `createDedicatedInbound`: the clients over all of its paths.
use xpanel.Prelude.{
  ℕ, ◌≡◌, refl, Bool, true, not, ◌&&◌, List, Option, none, some, inl, inr, any, sym, ◌∙◌, arith,
}
use xpanel.Prelude.Text.{Text, text_eq}
use xpanel.Ports.{CallError, Reply, done, failed, Adapter, RemoteUser}
use xpanel.Ports.Contract.{View, Lawful, SameInbound}
use xpanel.Worker.World.{SyncWork, Options, M, continue, leave, rpc, fence}
use xpanel.Worker.Ending.{
  describe, is_unavailable, confirm, retry, retry_later, inbound_present, carries_client,
}
use xpanel.Worker.Silent.{confirm-IsSilent, fail-IsSilent, retry_later-IsSilent, retry-IsSilent}
use xpanel.Worker.Runs.{
  Runs, bind-Runs, leave-Runs, continue-Runs, rpc-Runs, fence-Runs, if-Runs, forget-Runs,
}
use xpanel.Worker.Create.{
  create_command, is_port_unavailable, is_inbound_already_exists, holds, or_fail, confirm_present,
  create_uncertain, compensate, create_port_unavailable, adopt_or_remove, create_already_exists,
  on_created, create_dedicated_inbound,
}
use xpanel.Worker.Rotate.{safety_id}
use xpanel.Worker.Guarded.{Any, Always, Carries, Guarded, Good, Keeps, Told}
use xpanel.Worker.Guarded.Kinds.{holds-true}

module _ {S : Type 0} (v : View S) (a : Adapter S) (lawful : Lawful v a) (options : Options)
    (work : SyncWork) where
  open v use {Sane, registered, carries}

  abbrev Tag : Text
  Tag = work.inbound.inbound_tag

  abbrev Here : {A : Type 0} → M S A → Type 0
  Here = Keeps v work

  pub SameInbound-Guarded : (s t : S) → SameInbound v s t Tag → Guarded v work s → Guarded v work t
  SameInbound-Guarded s t (r, c) (inl gone) = inl (r ∙ gone)
  SameInbound-Guarded s t (r, c) (inr (inl x)) = inr (inl (c work.statistics_id ∙ x))
  SameInbound-Guarded s t (r, c) (inr (inr x)) = inr (inr (c (safety_id work) ∙ x))

  pub remove_inbound-Good : (s : S) → Good v work s → Good v work (a.remove_inbound Tag s).0
  remove_inbound-Good s (sane, g) =
      let (sane', _, own) = lawful.remove_inbound_keeps Tag s sane in
      (
        sane',
        elim own [
          | inl same ↦ SameInbound-Guarded s (a.remove_inbound Tag s).0 same g
          | inr gone ↦ inl gone
        ],
      )

  create_inbound-Good :
      (server_key user_key : Text) (s : S)
      → Good v work s
      → Good v work (a.create_inbound (create_command work server_key user_key) s).0
  create_inbound-Good server_key user_key s (sane, g) =
      let c = create_command work server_key user_key in
      let (sane', _, own) = lawful.create_inbound_keeps c s sane in
      (
        sane',
        elim own [
          | inl same ↦ SameInbound-Guarded s (a.create_inbound c s).0 same g
          | inr (_, there) ↦ inr (inl there)
        ],
      )

  pub list_inbounds-Good : (s : S) → Good v work s → Good v work (a.list_inbounds s).0
  list_inbounds-Good s (sane, g) =
      let (sane', same) = lawful.list_inbounds_reads s sane in
      (sane', SameInbound-Guarded s (a.list_inbounds s).0 (same Tag) g)

  pub list_users-Good : (s : S) → Good v work s → Good v work (a.list_users Tag s).0
  list_users-Good s (sane, g) =
      let (sane', same) = lawful.list_users_reads Tag s sane in
      (sane', SameInbound-Guarded s (a.list_users Tag s).0 (same Tag) g)

  pub inbound_present-Keeps : Here (inbound_present a Tag)
  unfolding inbound_present
  inbound_present-Keeps =
      bind-Runs _
        (rpc-Runs _ {Q = Always} a.list_inbounds λ n good _. (list_inbounds-Good n good, tt))
        λ reply. continue-Runs _ _ λ _ _. tt

  pub list_users-Runs : Runs (Good v work) Any (rpc (a.list_users Tag)) (Told v work)
  list_users-Runs =
      rpc-Runs _ {Q = Told v work} (a.list_users Tag)
        λ n good _. (list_users-Good n good, told n good.0)
    where
      told : (n : S) → Sane n → Told v work (a.list_users Tag n).1 (a.list_users Tag n).0
      told n sane us id h =
          let (_, same) = lawful.list_users_reads Tag n sane in
          lawful.list_users_true Tag n us id sane h ∙ sym ((same Tag).1 id)

  pub carries_client-Runs :
      (id : Text)
      → Runs
          (Good v work)
          Any
          (carries_client a Tag id)
          (λ r n. holds r ≡ true → Carries v work id n)
  unfolding carries_client
  carries_client-Runs id =
      bind-Runs _ list_users-Runs λ reply. continue-Runs _ _ λ n told. answer reply n told
    where
      answer :
          (reply : Reply (List RemoteUser)) (n : S)
          → Told v work reply n
          → holds (elim reply [
            | failed _ ↦ none
            | done users ↦ some (any (λ u. text_eq u.statistics_id id && u.present) users)
          ])
            ≡ true
          → Carries v work id n
      answer (failed _) n told h = ground arith
      answer (done us) n told h = sym (told us id refl) ∙ holds-true _ h

  leave-confirm :
      (seen : Bool) (version : ℕ) → Here {A = Unit {0}} (leave (confirm options work seen version))
  leave-confirm seen version = leave-Runs _ _ (confirm-IsSilent options work seen version)

  leave-retry : (cause : CallError) → Here {A = Unit {0}} (leave (retry options work cause))
  leave-retry cause = leave-Runs _ _ (retry-IsSilent options work cause)

  leave-retry_later : Here {A = Unit {0}} (leave (retry_later options work))
  leave-retry_later = leave-Runs _ _ (retry_later-IsSilent options work)

  pub or_fail-Keeps : (key : Option Text) → Here (or_fail a options work key)
  unfolding or_fail
  or_fail-Keeps none = leave-Runs _ _ (fail-IsSilent options work)
  or_fail-Keeps (some key) = continue-Runs _ _ λ _ _. tt

  pub fence-Keeps : Here (fence options work)
  fence-Keeps = fence-Runs _ options work

  confirm_present-Keeps : Here (confirm_present a options work)
  unfolding confirm_present
  confirm_present-Keeps = leave-confirm true work.credential_version

  create_uncertain-Keeps : (cause : CallError) → Here (create_uncertain a options work cause)
  unfolding create_uncertain
  create_uncertain-Keeps cause = bind-Runs _ fence-Keeps λ _.
      bind-Runs _ inbound_present-Keeps
        λ seen. if-Runs _ (holds seen) (λ _. confirm_present-Keeps) (λ _. leave-retry cause)

  compensate-Keeps : Here (compensate a options work)
  unfolding compensate
  compensate-Keeps =
      bind-Runs _
        (rpc-Runs _ {Q = Always} (a.remove_inbound Tag)
          λ n good _. (remove_inbound-Good n good, tt))
        λ _. continue-Runs _ _ λ _ _. tt

  skip : Here {A = Unit {0}} (continue tt)
  skip = continue-Runs _ _ λ _ _. tt

  create_port_unavailable-Keeps : Here (create_port_unavailable a options work)
  unfolding create_port_unavailable
  create_port_unavailable-Keeps = bind-Runs _ fence-Keeps λ _.
      bind-Runs _ inbound_present-Keeps λ seen.
        bind-Runs _ (if-Runs _ (holds seen) (λ _. compensate-Keeps) (λ _. skip))
          λ _. leave-retry_later

  adopt_or_remove-Keeps : Here (adopt_or_remove a options work)
  unfolding adopt_or_remove
  adopt_or_remove-Keeps = bind-Runs _ (carries_client-Runs work.statistics_id) λ healthy.
      bind-Runs _ {Q = Always}
        (if-Runs _ (holds healthy) (λ _. forget-Runs _ (λ _ _. tt) confirm_present-Keeps)
          (λ _. forget-Runs _ (λ _ _. tt) skip))
        λ _. bind-Runs _ compensate-Keeps λ _. leave-retry_later

  create_already_exists-Keeps :
      (cause : CallError) → Here (create_already_exists a options work cause)
  unfolding create_already_exists
  create_already_exists-Keeps cause = bind-Runs _ fence-Keeps λ _.
      bind-Runs _ inbound_present-Keeps
        λ seen. if-Runs _ (holds seen) (λ _. adopt_or_remove-Keeps) (λ _. leave-retry cause)

  on_created-Keeps : (reply : Reply (Unit {0})) → Here (on_created a options work reply)
  unfolding on_created
  on_created-Keeps (done _) = confirm_present-Keeps
  on_created-Keeps (failed cause) =
      let (kind, retryable) = describe cause in
      if-Runs _ (retryable && not (is_unavailable kind)) (λ _. create_uncertain-Keeps cause)
        λ _.
          if-Runs _ (is_port_unavailable kind) (λ _. create_port_unavailable-Keeps)
            λ _.
              if-Runs _ (is_inbound_already_exists kind) (λ _. create_already_exists-Keeps cause)
                λ _. leave-retry cause

  pub create_dedicated_inbound-Keeps : Here (create_dedicated_inbound a options work)
  unfolding create_dedicated_inbound
  create_dedicated_inbound-Keeps =
      bind-Runs _ (or_fail-Keeps (options.decrypt work.inbound.server_key)) λ server_key.
        bind-Runs _ (or_fail-Keeps (options.decrypt work.credential_key)) λ user_key.
          bind-Runs _ fence-Keeps λ _.
            bind-Runs _
              (rpc-Runs _ {Q = Always} (a.create_inbound (create_command work server_key user_key))
                λ n good _. (create_inbound-Good server_key user_key n good, tt))
              λ reply. on_created-Keeps reply
