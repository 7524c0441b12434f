-- ===== src/Worker/Fenced.antt =====
-- internal/worker/synchronizer.go: the handling of an operation whose lease is lost.
use xpanel.Prelude.{
  ◌≡◌, refl, Bool, true, false, not, Option, none, some, if◌then◌else◌, arith, ◌∙◌, Bool-cases, inl,
  inr,
}
use xpanel.Prelude.Text.{Text}
use xpanel.Domain.Sync.{SyncReason, rotate, port_change}
use xpanel.Store.Tables.{Db}
use xpanel.Store.Sync.{renew_sync_lease}
use xpanel.Ports.{Adapter}
use xpanel.Worker.World.{SyncWork, Options, World, Flow, go, stop, M, ◌>>=◌, ◌>>◌, rpc, fence}
use xpanel.Worker.Silent.{SameNode, fail-IsSilent}
use xpanel.Worker.Create.{create_command, on_created, or_fail, create_dedicated_inbound}
use xpanel.Worker.Rotate.{on_listed, rotate_within_inbound}
use xpanel.Worker.Handle.{on_removed, on_moved, project, remove_whole_inbound, change_port, handle}

module _ {S : Type 0} (a : Adapter S) (options : Options) (work : SyncWork) where
  -- The worker's lease has run out, was taken over, or its intent is no longer the latest.
  abbrev pub IsLost : World S → Type 0
  IsLost w = (renew_sync_lease work.operation.id options.owner w.now options.lease w.db).1 ≡ false

  -- The handler has returned without a call, or goes on with a value that `Q` allows.
  abbrev Stays : {A : Type 0} → (A → Type 0) → World S → Flow A × World S → Type 0
  Stays Q w (go x, w') = SameNode w w' × IsLost w' × Q x
  Stays Q w (stop _, w') = SameNode w w'

  record Waits {A : Type 0} (m : M S A) (Q : A → Type 0) : Type 0 where
    run : (w : World S) → IsLost w → Stays Q w (m w)

  bind-Waits :
      {A B : Type 0} {m : M S A} {f : A → M S B} {Q : A → Type 0} {R : B → Type 0}
      → Waits m Q
      → ((x : A) → Q x → Waits (f x) R)
      → Waits (m >>= f) R
  bind-Waits {A} {B} {m} {f} {Q} {R} first next = record {
    run = λ w h. from w (m w) (first.run w h);
  }
    where
      onward : (w w' : World S) (r : Flow B × World S) → SameNode w w' → Stays R w' r → Stays R w r
      onward w w' (go x, v) (n, t) ((n', t'), lost, q) = ((n' ∙ n, t' ∙ t), lost, q)
      onward w w' (stop e, v) (n, t) (n', t') = (n' ∙ n, t' ∙ t)

      from :
          (w : World S) (r : Flow A × World S)
          → Stays Q w r
          → Stays R w
              (elim r.0 as (λ _. Flow B × World S) [ go x ↦ f x r.1 | stop e ↦ (stop e, r.1) ])
      from w (go x, w') (same, lost, q) = onward w w' (f x w') same ((next x q).run w' lost)
      from w (stop e, w') same = same

  fence-Waits : Waits (fence options work) (λ _. ⊥)
  unfolding fence
  fence-Waits = record {
    run = λ w. from w (renew_sync_lease work.operation.id options.owner w.now options.lease w.db);
  }
    where
      from :
          (w : World S) (r : Db × Bool)
          → r.1 ≡ false
          → Stays (λ (_ : Unit {0}). ⊥) w (if r.1 then go tt else stop none, record w { db = r.0 })
      from w (db, true) h = ground arith
      from w (db, false) h = (refl, refl)

  or_fail-Waits : (key : Option Text) → Waits (or_fail a options work key) (λ _. Unit {0})
  unfolding or_fail
  or_fail-Waits none = record { run = λ w _. fail-IsSilent options work w }
  or_fail-Waits (some k) = record { run = λ w h. ((refl, refl), h, tt) }

  abbrev Ends : M S (Unit {0}) → Type 0
  Ends m = Waits m λ _. Unit {0}

  fenced-Ends : (m : M S (Unit {0})) → Ends (fence options work >> m)
  fenced-Ends m = bind-Waits {f = λ _. m} fence-Waits λ renewed never. absurd never

  create-Ends : Ends (create_dedicated_inbound a options work)
  unfolding create_dedicated_inbound
  create-Ends = bind-Waits (or_fail-Waits (options.decrypt work.inbound.server_key)) λ server_key _.
      bind-Waits (or_fail-Waits (options.decrypt work.credential_key)) λ user_key _. fenced-Ends (do
        reply ← rpc (a.create_inbound (create_command work server_key user_key))
        on_created a options work reply)

  project-Ends : (reason : SyncReason) → Ends (project a options work reason)
  unfolding rotate_within_inbound change_port
  project-Ends rotate =
      fenced-Ends (rpc (a.list_users work.inbound.inbound_tag) >>= on_listed a options work)
  project-Ends port_change =
      fenced-Ends (rpc (a.remove_inbound work.inbound.inbound_tag) >>= on_moved a options work)
  project-Ends _ = create-Ends

  handle-Ends : Ends (handle a options work)
  unfolding handle remove_whole_inbound
  handle-Ends = elim (Bool-cases (not work.operation.desired_presence)) [
    | inl e ↦
        rw (e, handle)
          (fenced-Ends
            (rpc (a.remove_inbound work.inbound.inbound_tag) >>= on_removed a options work))
    | inr e ↦ rw (e, handle) (project-Ends work.operation.reason)
  ]

  Stays-SameNode :
      (w : World S) (r : Flow (Unit {0}) × World S) → Stays (λ _. Unit {0}) w r → SameNode w r.1
  Stays-SameNode w (go _, w') h = h.0
  Stays-SameNode w (stop _, w') h = h

  -- If the lease of the operation cannot be renewed when the worker comes to handle it, because it was taken
  -- over or its intent is superseded, then the node is untouched and no call is recorded, whatever the
  -- operation's reason.
  pub handle-lost :
      (w : World S)
      → IsLost w
      → ((handle a options work w).1.node ≡ w.node) × ((handle a options work w).1.trace ≡ w.trace)
  handle-lost w h = Stays-SameNode w (handle a options work w) (handle-Ends.run w h)
