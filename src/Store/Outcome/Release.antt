-- ===== src/Store/Outcome/Release.antt =====
-- internal/persistence/sqlite/store_sync.go, `ConfirmSync`: the port and the keys.
use xpanel.Prelude.{ℕ, ◌≡◌, ◌⊎◌, Bool, true, false, List, Option, some, find}
use xpanel.Prelude.Text.{Text, text_eq}
use xpanel.Domain.User.{ManagedUser, LifecycleState}
use xpanel.Store.Tables.{Db, InboundRow}
use xpanel.Store.Outcome.Keys.{Pairwise, IsErased, IsActivated}

abbrev pub inbound_of : Text → List InboundRow → Option InboundRow
inbound_of allocation_id = find (λ i. text_eq i.allocation_id allocation_id)

abbrev pub released : ℕ → InboundRow → InboundRow
released now i = record i {
  released_at = some now;
  desired_present = false;
  observed_present = some false;
}

-- The inbound and the keys of the allocation after a confirmation, with the tables before and after: a
-- deleted user's port is released and every key is destroyed; a presence activates the confirmed key and
-- destroys those of older versions; the absence of an active user's inbound leaves every key as it was.
abbrev pub PortSettled : Text → ℕ → ℕ → Bool → InboundRow → ManagedUser → Db → Db → Type 0
PortSettled id version now seen i u db db' =
    ((seen ≡ false)
      × (u.lifecycle ≡ LifecycleState.deleted)
      × (inbound_of id db'.inbounds
          ≡ some (record i {
            released_at = some now;
            desired_present = false;
            observed_present = some false;
          }))
      × Pairwise (IsErased id) db.credentials db'.credentials)
    ⊎ ((seen ≡ true)
        × (inbound_of id db'.inbounds ≡ some (record i { observed_present = some seen }))
        × Pairwise (IsActivated id version) db.credentials db'.credentials)
    ⊎ ((seen ≡ false)
        × (u.lifecycle ≡ LifecycleState.active)
        × (inbound_of id db'.inbounds ≡ some (record i { observed_present = some seen }))
        × (db'.credentials ≡ db.credentials))
