-- ===== src/Worker/Guarded.antt =====
-- internal/worker/synchronizer.go: the clients of an inbound while an operation is handled.
pub mod Kinds
pub mod Creating
pub mod Rotating
pub mod Handling
use xpanel.Prelude.{◌≡◌, Bool, true, false, ◌⊎◌, List, any, ◌&&◌}
use xpanel.Prelude.Text.{Text, text_eq}
use xpanel.Ports.{Reply, done, RemoteUser}
use xpanel.Worker.Runs.{Runs}
use xpanel.Ports.Contract.{View}
use xpanel.Worker.World.{SyncWork, M}
use xpanel.Worker.Rotate.{safety_id}

abbrev pub Any : {S : Type 0} → S → Type 0
Any _ = Unit {0}

abbrev pub Always : {S A : Type 0} → A → S → Type 0
Always _ _ = Unit {0}

module _ {S : Type 0} (v : View S) (work : SyncWork) where
  open v use {Sane, registered, carries}

  -- The allocation's inbound carries the client `id`.
  abbrev pub Carries : Text → S → Type 0
  Carries id n = carries n work.inbound.inbound_tag id ≡ true

  -- The inbound is not registered, or carries the user's client, or the transition client.
  abbrev pub Guarded : S → Type 0
  Guarded n =
      (registered n work.inbound.inbound_tag ≡ false)
      ⊎ Carries work.statistics_id n
      ⊎ Carries (safety_id work) n

  abbrev pub Good : S → Type 0
  Good n = Sane n × Guarded n

  -- A part of the handler keeps the inbound guarded, from any guarded state.
  abbrev pub Keeps : {A : Type 0} → M S A → Type 0
  Keeps m = Runs Good Any m Always

  -- What an answer of `ListUsers` says of the node that it leaves.
  abbrev pub Told : Reply (List RemoteUser) → S → Type 0
  Told reply n =
      (us : List RemoteUser) (id : Text)
      → reply ≡ done us
      → any (λ u. text_eq u.statistics_id id && u.present) us
        ≡ carries n work.inbound.inbound_tag id
