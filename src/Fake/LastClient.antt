-- ===== src/Fake/LastClient.antt =====
-- internal/adapter/xray/fake/fake.go, `RemoveUser`: the two managed identities of an inbound.
use xpanel.Prelude.{
  ◌≡◌, ◌≢◌, refl, ap, Bool, true, false, ◌||◌, [], ◌∷◌, Option, none, some, ◌⊎◌, inl, inr, All,
  arith, Bool-cases,
}
use xpanel.Prelude.Text.{Text, text_eq}
use xpanel.Prelude.Assoc.{Table, lookup, insert, erase, has_key, lookup-insert}
use xpanel.Domain.Inbound.{rotation_safety_id}
use xpanel.Ports.{RemoteUser, RemoveUserCommand}
use xpanel.Fake.{
  or_empty, Node, remove_user_op, take_failure, record_call, users_of, survivors, remove_client,
  remove_user,
}
use xpanel.Fake.Clients.{holds_client, IsOwnKey}
use xpanel.Fake.Contract.{OwnKeys}
use xpanel.Fake.Contract.Cases.{SameTables}
use xpanel.Fake.Contract.Laws.{SameTables-SameInbound}
use xpanel.Fake.Contract.Laws.Sane.{users_of-OwnKeys}

-- One of the two identities is a present client.
abbrev pub guarded_by : Text → Table RemoteUser → Bool
guarded_by expected m = holds_client expected m || holds_client (rotation_safety_id expected) m

erase-missing : {V : Type 0} (k : Text) (m : Table V) → has_key k m ≡ false → erase k m ≡ m
unfolding lookup erase
erase-missing k [] h = refl
erase-missing k ((x, v) ∷ m) h = elim (Bool-cases (text_eq x k)) [
  | inl y ↦ ground arith
  | inr z ↦ rw z (ap (λ r. (x, v) ∷ r) (erase-missing k m (ground arith)))
]

-- A survivor is left, whatever is erased.
survivors-guard :
    (c : RemoveUserCommand) (m : Table RemoteUser)
    → All IsOwnKey m
    → survivors c m ≢ 0
    → guarded_by c.expected_statistics_id (erase c.statistics_id m) ≡ true
unfolding survivors erase
survivors-guard c [] own n = absurd (n refl)
survivors-guard c ((x, u) ∷ m) own n =
    let a = ap (λ t. text_eq t c.expected_statistics_id) own.0 in
    let b = ap (λ t. text_eq t (rotation_safety_id c.expected_statistics_id)) own.0 in
    ground (arith, a, b, survivors-guard c m own.1)

remove_user-outcome :
    (c : RemoveUserCommand) (n : Node)
    → n.failures remove_user_op ≡ []
    → SameTables n (remove_user c n).0
      ⊎ (SameTables (remove_client c n) (remove_user c n).0
          × ((has_key c.statistics_id (users_of c.inbound_tag n) ≡ false)
              ⊎ (survivors c (users_of c.inbound_tag n) ≢ 0)))
unfolding remove_user take_failure record_call users_of remove_client
remove_user-outcome c n none_left = ground arith

remove_client-users_of :
    (c : RemoveUserCommand) (n : Node)
    → users_of c.inbound_tag (remove_client c n) ≡ erase c.statistics_id (users_of c.inbound_tag n)
unfolding remove_client users_of erase
remove_client-users_of c n = from (lookup c.inbound_tag n.users) refl
  where
    from :
        (r : Option (Table RemoteUser))
        → lookup c.inbound_tag n.users ≡ r
        → or_empty (
            lookup c.inbound_tag
              (elim r as (λ _. Node) [
                | none ↦ n
                | some clients ↦ record n {
                  users = insert c.inbound_tag (erase c.statistics_id clients) n.users;
                }
              ]).users)
          ≡ erase c.statistics_id (or_empty r)
    from none e = ap or_empty e
    from (some clients) e = ap or_empty (lookup-insert c.inbound_tag _ n.users)

SameTables-guard :
    (c : RemoveUserCommand) (n m : Node)
    → SameTables n m
    → guarded_by c.expected_statistics_id (users_of c.inbound_tag n) ≡ true
    → guarded_by c.expected_statistics_id (users_of c.inbound_tag m) ≡ true
SameTables-guard c n m same g =
    let (_, f) = SameTables-SameInbound n m c.inbound_tag same in
    let a = f c.expected_statistics_id in
    let b = f (rotation_safety_id c.expected_statistics_id) in ground (arith, a, b)

-- Where no failure is injected, and one of the two identities that a removal names as the inbound's own is a
-- present client of it, one of them still is after the removal, of whatever client.
pub remove_user-guard :
    (c : RemoveUserCommand) (n : Node)
    → OwnKeys n
    → n.failures remove_user_op ≡ []
    → guarded_by c.expected_statistics_id (users_of c.inbound_tag n) ≡ true
    → guarded_by c.expected_statistics_id (users_of c.inbound_tag (remove_user c n).0) ≡ true
remove_user-guard c n own fine g = elim (remove_user-outcome c n fine) [
  | inl same ↦ SameTables-guard c n (remove_user c n).0 same g
  | inr (same, why) ↦ SameTables-guard c (remove_client c n) (remove_user c n).0 same (
      rw (remove_client-users_of c n) (elim why [
        | inl missing ↦ rw (erase-missing c.statistics_id (users_of c.inbound_tag n) missing) g
        | inr some_left ↦
            survivors-guard c (users_of c.inbound_tag n) (users_of-OwnKeys c.inbound_tag n own)
              some_left
      ]))
]
