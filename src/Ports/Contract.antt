-- ===== src/Ports/Contract.antt =====
-- What the synchronizer relies on in an adapter, stated over two observations of the node: whether an
-- inbound is registered under a tag, and whether an inbound carries a client.
use xpanel.Prelude.{◌≡◌, ◌≢◌, ◌⊎◌, Bool, true, false, ◌&&◌, List, any}
use xpanel.Prelude.Text.{Text, text_eq}
use xpanel.Ports.{
  ErrorKind, adapter_error, Reply, done, failed, RemoteInbound, RemoteUser, CreateInboundCommand,
  AddUserCommand, RemoveUserCommand, Adapter, user_already_exists, inbound_not_found,
}

pub record View (S : Type 0) : Type 1 where
  -- The nodes at which the contract holds.
  pub Sane : S → Type 0
  pub registered : S → Text → Bool
  pub carries : S → Text → Text → Bool

-- The kind of a failed call, where the error has one.
abbrev pub HasKind : ErrorKind → {A : Type 0} → Reply A → Type 0
HasKind k (done _) = ⊥
HasKind k (failed (adapter_error e)) = e.kind ≡ k
HasKind k (failed _) = ⊥

abbrev pub IsDone : {A : Type 0} → Reply A → Type 0
IsDone (done _) = Unit {0}
IsDone (failed _) = ⊥

module _ {S : Type 0} (v : View S) where
  open v use {Sane, registered, carries}

  -- Nothing of the inbound `tag` differs.
  abbrev pub SameInbound : S → S → Text → Type 0
  SameInbound s t tag =
      (registered t tag ≡ registered s tag) × ((id : Text) → carries t tag id ≡ carries s tag id)

  pub record Lawful (a : Adapter S) : Type 0 where
    -- Reading changes nothing, and an answer is the truth.
    pub list_inbounds_reads :
        (s : S)
        → Sane s
        → Sane (a.list_inbounds s).0 × ((tag : Text) → SameInbound s (a.list_inbounds s).0 tag)
    pub list_inbounds_true :
        (s : S) (is : List RemoteInbound) (tag : Text)
        → Sane s
        → (a.list_inbounds s).1 ≡ done is
        → any (λ i. text_eq i.inbound_tag tag) is ≡ registered s tag
    pub list_users_reads :
        (tag : Text) (s : S)
        → Sane s
        → Sane (a.list_users tag s).0
          × ((other : Text) → SameInbound s (a.list_users tag s).0 other)
    pub list_users_true :
        (tag : Text) (s : S) (us : List RemoteUser) (id : Text)
        → Sane s
        → (a.list_users tag s).1 ≡ done us
        → any (λ u. text_eq u.statistics_id id && u.present) us ≡ carries s tag id
    -- Adding a client removes nothing; it is there afterwards if the call succeeds, or says that it
    -- was there already.
    pub add_user_keeps :
        (c : AddUserCommand) (s : S) (tag id : Text)
        → Sane s
        → Sane (a.add_user c s).0
          × (registered (a.add_user c s).0 tag ≡ registered s tag)
          × (carries s tag id ≡ true → carries (a.add_user c s).0 tag id ≡ true)
    pub add_user_adds :
        (c : AddUserCommand) (s : S)
        → Sane s
        → IsDone (a.add_user c s).1 ⊎ HasKind user_already_exists (a.add_user c s).1
        → carries (a.add_user c s).0 c.inbound_tag c.statistics_id ≡ true
    -- Removing a client touches no other client.
    pub remove_user_keeps :
        (c : RemoveUserCommand) (s : S) (tag id : Text)
        → Sane s
        → Sane (a.remove_user c s).0
          × (registered (a.remove_user c s).0 tag ≡ registered s tag)
          × (id ≢ c.statistics_id → carries (a.remove_user c s).0 tag id ≡ carries s tag id)
    -- Removing an inbound touches no other; it is gone if the call succeeds or does not find it.
    pub remove_inbound_keeps :
        (tag : Text) (s : S)
        → Sane s
        → Sane (a.remove_inbound tag s).0
          × ((other : Text) → other ≢ tag → SameInbound s (a.remove_inbound tag s).0 other)
          × (SameInbound s (a.remove_inbound tag s).0 tag
              ⊎ (registered (a.remove_inbound tag s).0 tag ≡ false))
    pub remove_inbound_removes :
        (tag : Text) (s : S)
        → Sane s
        → IsDone (a.remove_inbound tag s).1 ⊎ HasKind inbound_not_found (a.remove_inbound tag s).1
        → registered (a.remove_inbound tag s).0 tag ≡ false
    -- A call to create an inbound, failed or not, leaves it as it was, or registers it with its client.
    pub create_inbound_keeps :
        (c : CreateInboundCommand) (s : S)
        → Sane s
        → Sane (a.create_inbound c s).0
          × ((other : Text) → other ≢ c.inbound_tag → SameInbound s (a.create_inbound c s).0 other)
          × (SameInbound s (a.create_inbound c s).0 c.inbound_tag
              ⊎ ((registered (a.create_inbound c s).0 c.inbound_tag ≡ true)
                  × (carries (a.create_inbound c s).0 c.inbound_tag c.client_statistics_id ≡ true)))
    pub create_inbound_creates :
        (c : CreateInboundCommand) (s : S)
        → Sane s
        → IsDone (a.create_inbound c s).1
        → (registered (a.create_inbound c s).0 c.inbound_tag ≡ true)
          × (carries (a.create_inbound c s).0 c.inbound_tag c.client_statistics_id ≡ true)
