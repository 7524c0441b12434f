-- ===== src/Fake/Contract/Laws/Sane.antt =====
-- internal/adapter/xray/fake/fake.go: the injected failures and the keys of the clients, over every call.
use xpanel.Prelude.{
  ◌≡◌, refl, sym, subst, List, [], ◌∷◌, Option, none, some, ◌⊎◌, inl, inr, All, arith, Bool-cases,
}
use xpanel.Prelude.Text.{Text}
use xpanel.Prelude.Assoc.{Table, lookup, insert, erase, has_key, All-erase, All-lookup}
use xpanel.Ports.{RemoteUser, CreateInboundCommand, AddUserCommand, RemoveUserCommand}
use xpanel.Fake.{
  or_empty, Node, Failure, Operation, tail, take_failure, record_call, users_of, register,
  create_inbound, remove_inbound, add_client, ensure_users, add_user, remove_client, remove_user,
}
use xpanel.Fake.Clients.{IsOwnKey}
use xpanel.Fake.Contract.{IsHonest, HonestFailures, OwnKeys}
use xpanel.Fake.Contract.Cases.{
  SameTables, dropped, create_inbound-cases, remove_inbound-cases, add_user-cases,
  remove_user-cases,
}

-- The failures to inject are those of before, less those that were taken.
abbrev Uses : Node → Node → Type 0
Uses n m = (o : Operation) → (m.failures o ≡ n.failures o) ⊎ (m.failures o ≡ tail (n.failures o))

All-tail : (fs : List Failure) → All IsHonest fs → All IsHonest (tail fs)
All-tail [] h = tt
All-tail (f ∷ fs) h = h.1

Uses-HonestFailures : (n m : Node) → Uses n m → HonestFailures n → HonestFailures m
Uses-HonestFailures n m u h o = elim (u o) [
  | inl e ↦ subst (All IsHonest) (sym e) (h o)
  | inr e ↦ subst (All IsHonest) (sym e) (All-tail (n.failures o) (h o))
]

create_inbound-Uses : (c : CreateInboundCommand) (n : Node) → Uses n (create_inbound c n).0
unfolding create_inbound take_failure record_call register
create_inbound-Uses c n o = ground arith

pub create_inbound-HonestFailures :
    (c : CreateInboundCommand) (n : Node) → HonestFailures n → HonestFailures (create_inbound c n).0
create_inbound-HonestFailures c n =
    Uses-HonestFailures n (create_inbound c n).0 (create_inbound-Uses c n)

remove_inbound-Uses : (tag : Text) (n : Node) → Uses n (remove_inbound tag n).0
unfolding remove_inbound take_failure record_call
remove_inbound-Uses tag n o = ground arith

pub remove_inbound-HonestFailures :
    (tag : Text) (n : Node) → HonestFailures n → HonestFailures (remove_inbound tag n).0
remove_inbound-HonestFailures tag n =
    Uses-HonestFailures n (remove_inbound tag n).0 (remove_inbound-Uses tag n)

add_user-Uses : (c : AddUserCommand) (n : Node) → Uses n (add_user c n).0
unfolding add_user take_failure record_call add_client ensure_users
add_user-Uses c n o = ground arith

pub add_user-HonestFailures :
    (c : AddUserCommand) (n : Node) → HonestFailures n → HonestFailures (add_user c n).0
add_user-HonestFailures c n = Uses-HonestFailures n (add_user c n).0 (add_user-Uses c n)

remove_user-Uses : (c : RemoveUserCommand) (n : Node) → Uses n (remove_user c n).0
unfolding remove_user take_failure record_call remove_client
remove_user-Uses c n o = ground arith

pub remove_user-HonestFailures :
    (c : RemoveUserCommand) (n : Node) → HonestFailures n → HonestFailures (remove_user c n).0
remove_user-HonestFailures c n = Uses-HonestFailures n (remove_user c n).0 (remove_user-Uses c n)

SameTables-OwnKeys : (n m : Node) → SameTables n m → OwnKeys n → OwnKeys m
SameTables-OwnKeys n m (_, u) h = subst (All (λ e. All IsOwnKey e.1)) (sym u) h

pub users_of-OwnKeys : (tag : Text) (n : Node) → OwnKeys n → All IsOwnKey (users_of tag n)
unfolding users_of
users_of-OwnKeys tag n h = from (lookup tag n.users) refl
  where
    from : (r : Option (Table RemoteUser)) → lookup tag n.users ≡ r → All IsOwnKey (or_empty r)
    from none e = tt
    from (some clients) e = (All-lookup (λ e. All IsOwnKey e.1) tag n.users clients h e).1

insert-OwnKeys :
    (tag : Text) (m : Table RemoteUser) (users : Table (Table RemoteUser))
    → All IsOwnKey m
    → All (λ e. All IsOwnKey e.1) users
    → All (λ e. All IsOwnKey e.1) (insert tag m users)
unfolding insert
insert-OwnKeys tag m users own h = (own, All-erase _ tag users h)

pub ensure_users-OwnKeys : (tag : Text) (n : Node) → OwnKeys n → OwnKeys (ensure_users tag n)
unfolding ensure_users
ensure_users-OwnKeys tag n h = elim (Bool-cases (has_key tag n.users)) [
  | inl y ↦ rw y h
  | inr z ↦ rw z (insert-OwnKeys tag [] n.users tt h)
]

add_client-OwnKeys : (c : AddUserCommand) (n : Node) → OwnKeys n → OwnKeys (add_client c n)
unfolding add_client insert
add_client-OwnKeys c n h =
    let rest =
      All-erase IsOwnKey c.statistics_id (users_of c.inbound_tag n)
        (users_of-OwnKeys c.inbound_tag n h) in
    ((refl, rest), All-erase (λ e. All IsOwnKey e.1) c.inbound_tag n.users h)

remove_client-OwnKeys : (c : RemoveUserCommand) (n : Node) → OwnKeys n → OwnKeys (remove_client c n)
unfolding remove_client
remove_client-OwnKeys c n h = from (lookup c.inbound_tag n.users) refl
  where
    from :
        (r : Option (Table RemoteUser))
        → lookup c.inbound_tag n.users ≡ r
        → OwnKeys (elim r [
          | none ↦ n
          | some clients ↦ record n {
            users = insert c.inbound_tag (erase c.statistics_id clients) n.users;
          }
        ])
    from none e = h
    from (some clients) e =
        insert-OwnKeys c.inbound_tag _ n.users
          (All-erase _ c.statistics_id clients
            (All-lookup (λ e. All IsOwnKey e.1) c.inbound_tag n.users clients h e).1)
          h

pub create_inbound-OwnKeys :
    (c : CreateInboundCommand) (n : Node)
    → OwnKeys n
    → HonestFailures n
    → OwnKeys (create_inbound c n).0
unfolding register
create_inbound-OwnKeys c n h f = elim (create_inbound-cases c n f) [
  | inl (same, _) ↦ SameTables-OwnKeys n (create_inbound c n).0 same h
  | inr same ↦
      SameTables-OwnKeys (register c n) (create_inbound c n).0 same
        (insert-OwnKeys c.inbound_tag _ n.users (refl, tt) h)
]

pub remove_inbound-OwnKeys :
    (tag : Text) (n : Node) → OwnKeys n → HonestFailures n → OwnKeys (remove_inbound tag n).0
remove_inbound-OwnKeys tag n h f = elim (remove_inbound-cases tag n f) [
  | inl (same, _) ↦ SameTables-OwnKeys n (remove_inbound tag n).0 same h
  | inr same ↦
      SameTables-OwnKeys (dropped tag n) (remove_inbound tag n).0 same (All-erase _ tag n.users h)
]

pub add_user-OwnKeys :
    (c : AddUserCommand) (n : Node) → OwnKeys n → HonestFailures n → OwnKeys (add_user c n).0
add_user-OwnKeys c n h f =
    let ready = ensure_users-OwnKeys c.inbound_tag n h in
    elim (add_user-cases c n f) [
      | inl (inl same, _) ↦ SameTables-OwnKeys n (add_user c n).0 same h
      | inl (inr same, _) ↦
          SameTables-OwnKeys (ensure_users c.inbound_tag n) (add_user c n).0 same ready
      | inr same ↦
          SameTables-OwnKeys (add_client c (ensure_users c.inbound_tag n)) (add_user c n).0 same
            (add_client-OwnKeys c _ ready)
    ]

pub remove_user-OwnKeys :
    (c : RemoveUserCommand) (n : Node) → OwnKeys n → OwnKeys (remove_user c n).0
remove_user-OwnKeys c n h = elim (remove_user-cases c n) [
  | inl same ↦ SameTables-OwnKeys n (remove_user c n).0 same h
  | inr same ↦
      SameTables-OwnKeys (remove_client c n) (remove_user c n).0 same (remove_client-OwnKeys c n h)
]
