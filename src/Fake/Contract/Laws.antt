-- ===== src/Fake/Contract/Laws.antt =====
-- internal/adapter/xray/fake/fake.go: its reads, and the tables after a registration or a removal.
pub mod Sane
use xpanel.Prelude.{
  ℕ, ◌≡◌, ◌≢◌, refl, sym, ◌∙◌, ap, subst, Bool, true, false, not, ◌&&◌, ◌||◌, List, [], ◌∷◌, map,
  Option, none, some, ◌⊎◌, inl, inr, if◌then◌else◌, ◌==◌, any, All, arith, Bool-cases, is_some,
}
use xpanel.Prelude.Text.{Text, text_eq, text_eq_refl}
use xpanel.Prelude.Assoc.{
  Table, lookup, insert, erase, has_key, lookup-insert, lookup-insert_other, lookup-erase,
  lookup-erase_other, any-lookup, text_cases,
}
use xpanel.Domain.Inbound.{is_panel_namespace}
use xpanel.Ports.{
  CallError, Reply, done, failed, user_already_exists, inbound_not_found, RemoteUser, RemoteInbound,
  CreateInboundCommand, AddUserCommand, RemoveUserCommand,
}
use xpanel.Ports.Contract.{View, Lawful, SameInbound, HasKind, IsDone}
use xpanel.Fake.{
  or_empty, Node, record_call, users_of, list_inbounds, list_users, register, create_inbound,
  remove_inbound, add_client, ensure_users, add_user, remove_client, remove_user, node_adapter,
}
use xpanel.Fake.Clients.{
  shows, holds_client, IsOwnKey, holds_client-erase, holds_client-insert, holds_client-insert_other,
  any-map,
}
use xpanel.Fake.Contract.{node_view, OwnKeys, HonestFailures}
use xpanel.Fake.Contract.Cases.{
  SameTables, dropped, create_inbound-cases, remove_inbound-cases, add_user-cases,
  remove_user-cases,
}
use xpanel.Fake.Contract.Laws.Sane.{
  create_inbound-HonestFailures, remove_inbound-HonestFailures, add_user-HonestFailures,
  remove_user-HonestFailures, create_inbound-OwnKeys, remove_inbound-OwnKeys, add_user-OwnKeys,
  remove_user-OwnKeys, users_of-OwnKeys, ensure_users-OwnKeys,
}

abbrev pub Same : Node → Node → Text → Type 0
Same = SameInbound node_view

abbrev Sane : Node → Type 0
Sane n = OwnKeys n × HonestFailures n

pub SameTables-SameInbound : (n m : Node) (tag : Text) → SameTables n m → Same n m tag
unfolding users_of lookup
SameTables-SameInbound n m tag (i, u) =
    (ap (has_key tag) i, λ id. ap (λ t. holds_client id (or_empty (lookup tag t))) u)

-- Through equal tables, what holds of one node holds of the other.
pub through : (n m k : Node) (tag : Text) → SameTables m k → Same n m tag → Same n k tag
through n m k tag same (r, c) =
    let (r', c') = SameTables-SameInbound m k tag same in (r' ∙ r, λ id. c' id ∙ c id)

pub list_inbounds_reads :
    (n : Node) → Sane n → Sane (list_inbounds n).0 × ((tag : Text) → Same n (list_inbounds n).0 tag)
unfolding list_inbounds record_call users_of
list_inbounds_reads n sane = elim (Bool-cases n.available) [
  | inl y ↦ rw y (sane, λ tag. (refl, λ id. refl))
  | inr z ↦ rw z (sane, λ tag. (refl, λ id. refl))
]

pub list_users_reads :
    (t : Text) (n : Node)
    → Sane n
    → Sane (list_users t n).0 × ((tag : Text) → Same n (list_users t n).0 tag)
unfolding list_users record_call users_of
list_users_reads t n sane = elim (Bool-cases n.available) [
  | inl y ↦ rw y (sane, λ tag. (refl, λ id. refl))
  | inr z ↦ rw z (sane, λ tag. (refl, λ id. refl))
]

-- The list that an available node answers with.
listed :
    {A : Type 0} (available : Bool) (n m : Node) (e : CallError) (xs ys : List A)
    → (if◌then◌else◌ {A = Node × Reply (List A)} (not available) (n, failed e) (m, done xs)).1
      ≡ done ys
    → ys ≡ xs
listed true n m e xs ys h = ap (λ r. elim r [ done zs ↦ zs | failed _ ↦ [] ]) (sym h)
listed false n m e xs ys h = ground arith

pub list_inbounds_true :
    (n : Node) (is : List RemoteInbound) (tag : Text)
    → (list_inbounds n).1 ≡ done is
    → any (λ i. text_eq i.inbound_tag tag) is ≡ has_key tag n.inbounds
unfolding list_inbounds record_call
list_inbounds_true n is tag h =
    rw (listed n.available _ _ _ _ is h) (any-map _ _ n.inbounds ∙ any-lookup tag n.inbounds)

pub list_users_true :
    (tag : Text) (n : Node) (us : List RemoteUser) (id : Text)
    → (list_users tag n).1 ≡ done us
    → any (λ u. text_eq u.statistics_id id && u.present) us ≡ holds_client id (users_of tag n)
unfolding list_users record_call users_of
list_users_true tag n us id h = rw (listed n.available _ _ _ _ us h) (any-map _ _ (users_of tag n))

pub register-other :
    (c : CreateInboundCommand) (n : Node) (other : Text)
    → other ≢ c.inbound_tag
    → Same n (register c n) other
unfolding register users_of
register-other c n other ne = (
  ap is_some (lookup-insert_other c.inbound_tag other _ n.inbounds ne),
  λ id.
      ap (λ o. holds_client id (or_empty o)) (lookup-insert_other c.inbound_tag other _ n.users ne),
)

pub register-own :
    (c : CreateInboundCommand) (n : Node)
    → (has_key c.inbound_tag (register c n).inbounds ≡ true)
      × (holds_client c.client_statistics_id (users_of c.inbound_tag (register c n)) ≡ true)
unfolding register users_of
register-own c n = (
  ap is_some (lookup-insert c.inbound_tag _ n.inbounds),
  ap (λ o. holds_client c.client_statistics_id (or_empty o)) (lookup-insert c.inbound_tag _ n.users)
      ∙ rw (text_eq_refl c.client_statistics_id) refl,
)

pub dropped-other : (tag other : Text) (n : Node) → other ≢ tag → Same n (dropped tag n) other
unfolding users_of
dropped-other tag other n ne = (
  ap is_some (lookup-erase_other tag other n.inbounds ne),
  λ id. ap (λ o. holds_client id (or_empty o)) (lookup-erase_other tag other n.users ne),
)
