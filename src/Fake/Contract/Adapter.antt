-- ===== src/Fake/Contract/Adapter.antt =====
-- internal/adapter/xray/fake/fake.go as an implementation of the adapter of internal/ports/xray.go.
use xpanel.Prelude.{
  ◌≡◌, ◌≢◌, refl, sym, ◌∙◌, ap, subst, true, false, [], Option, none, some, ◌⊎◌, inl, inr, All,
  arith, Bool-cases, is_some,
}
use xpanel.Prelude.Text.{Text}
use xpanel.Prelude.Assoc.{
  Table, lookup, insert, erase, has_key, lookup-insert, lookup-insert_other, lookup-erase,
  text_cases,
}
use xpanel.Ports.{
  user_already_exists, inbound_not_found, RemoteUser, CreateInboundCommand, AddUserCommand,
  RemoveUserCommand,
}
use xpanel.Ports.Contract.{Lawful, HasKind, IsDone}
use xpanel.Fake.{
  new_client, or_empty, Node, users_of, register, create_inbound, remove_inbound, add_client,
  ensure_users, add_user, remove_client, remove_user, node_adapter,
}
use xpanel.Fake.Clients.{holds_client, IsOwnKey, holds_client-erase, holds_client-insert}
use xpanel.Fake.Contract.{node_view, OwnKeys, HonestFailures}
use xpanel.Fake.Contract.Cases.{
  SameTables, dropped, create_inbound-cases, remove_inbound-cases, add_user-cases,
  remove_user-cases,
}
use xpanel.Fake.Contract.Laws.{
  Same, SameTables-SameInbound, through, list_inbounds_reads, list_users_reads, list_inbounds_true,
  list_users_true, register-other, register-own, dropped-other,
}
use xpanel.Fake.Contract.Laws.Sane.{
  create_inbound-HonestFailures, remove_inbound-HonestFailures, add_user-HonestFailures,
  remove_user-HonestFailures, create_inbound-OwnKeys, remove_inbound-OwnKeys, add_user-OwnKeys,
  remove_user-OwnKeys, users_of-OwnKeys, ensure_users-OwnKeys,
}

abbrev Sane : Node → Type 0
Sane n = OwnKeys n × HonestFailures n

create_inbound-Sane : (c : CreateInboundCommand) (n : Node) → Sane n → Sane (create_inbound c n).0
create_inbound-Sane c n (k, h) =
    (create_inbound-OwnKeys c n k h, create_inbound-HonestFailures c n h)

create_inbound-effect :
    (c : CreateInboundCommand) (n : Node)
    → HonestFailures n
    → ((other : Text) → other ≢ c.inbound_tag → Same n (create_inbound c n).0 other)
      × (Same n (create_inbound c n).0 c.inbound_tag
          ⊎ ((has_key c.inbound_tag (create_inbound c n).0.inbounds ≡ true)
              × (holds_client c.client_statistics_id (users_of c.inbound_tag (create_inbound c n).0)
                  ≡ true)))
create_inbound-effect c n h = elim (create_inbound-cases c n h) [
  | inl (same, _) ↦ (
    (λ other _. SameTables-SameInbound n m other same),
    inl (SameTables-SameInbound n m c.inbound_tag same),
  )
  | inr same ↦ (
    (λ other ne. through n (register c n) m other same (register-other c n other ne)),
    inr (own same),
  )
]
  where
    m : Node
    m = (create_inbound c n).0

    own :
        SameTables (register c n) m
        → (has_key c.inbound_tag m.inbounds ≡ true)
          × (holds_client c.client_statistics_id (users_of c.inbound_tag m) ≡ true)
    own same =
        let (r, k) = SameTables-SameInbound (register c n) m c.inbound_tag same in
        let (r', k') = register-own c n in (r ∙ r', k c.client_statistics_id ∙ k')

create_inbound_creates :
    (c : CreateInboundCommand) (n : Node)
    → HonestFailures n
    → IsDone (create_inbound c n).1
    → (has_key c.inbound_tag (create_inbound c n).0.inbounds ≡ true)
      × (holds_client c.client_statistics_id (users_of c.inbound_tag (create_inbound c n).0) ≡ true)
create_inbound_creates c n h done' = elim (create_inbound-cases c n h) [
  | inl (_, not_done) ↦ absurd (not_done done')
  | inr same ↦
      let (r, k) =
        SameTables-SameInbound (register c n) (create_inbound c n).0 c.inbound_tag same in
      let (r', k') = register-own c n in (r ∙ r', k c.client_statistics_id ∙ k')
]

remove_inbound-effect :
    (tag : Text) (n : Node)
    → HonestFailures n
    → ((other : Text) → other ≢ tag → Same n (remove_inbound tag n).0 other)
      × (Same n (remove_inbound tag n).0 tag
          ⊎ (has_key tag (remove_inbound tag n).0.inbounds ≡ false))
remove_inbound-effect tag n h = elim (remove_inbound-cases tag n h) [
  | inl (same, _) ↦ (
    (λ other _. SameTables-SameInbound n m other same),
    inl (SameTables-SameInbound n m tag same),
  )
  | inr same ↦ (
    (λ other ne. through n (dropped tag n) m other same (dropped-other tag other n ne)),
    inr (
        (SameTables-SameInbound (dropped tag n) m tag same).0
        ∙ ap is_some (lookup-erase tag n.inbounds)),
  )
]
  where
    m : Node
    m = (remove_inbound tag n).0

remove_inbound_removes :
    (tag : Text) (n : Node)
    → Sane n
    → IsDone (remove_inbound tag n).1 ⊎ HasKind inbound_not_found (remove_inbound tag n).1
    → has_key tag (remove_inbound tag n).0.inbounds ≡ false
remove_inbound_removes tag n (k, h) told = elim (remove_inbound-cases tag n h) [
  | inl (_, untold) ↦ absurd (untold told)
  | inr same ↦
      (SameTables-SameInbound (dropped tag n) (remove_inbound tag n).0 tag same).0
      ∙ ap is_some (lookup-erase tag n.inbounds)
]

ensure_users-users_of : (t tag : Text) (n : Node) → users_of tag (ensure_users t n) ≡ users_of tag n
unfolding ensure_users users_of
ensure_users-users_of t tag n = elim (Bool-cases (has_key t n.users)) [
  | inl y ↦ rw y refl
  | inr z ↦ rw z (elim (text_cases tag t) [
    | inl e ↦ rw e (
        ap or_empty (lookup-insert t [] n.users) ∙ ap or_empty (sym (missing (lookup t n.users) z)))
    | inr ne ↦ ap or_empty (lookup-insert_other t tag [] n.users ne)
  ])
]
  where
    missing : (o : Option (Table RemoteUser)) → is_some o ≡ false → o ≡ none
    missing none h = refl
    missing (some x) h = ground arith

-- Adding a client loses none, and the client is there.
add_client-carries :
    (c : AddUserCommand) (n : Node) (tag id : Text)
    → OwnKeys n
    → (holds_client id (users_of tag n) ≡ true) ⊎ ((tag ≡ c.inbound_tag) × (id ≡ c.statistics_id))
    → holds_client id (users_of tag (add_client c n)) ≡ true
unfolding add_client users_of
add_client-carries c n tag id k there = elim (text_cases tag c.inbound_tag) [
  | inl e ↦
      (let added : users_of tag (add_client c n)
            ≡ insert c.statistics_id (new_client c) (users_of tag n) =
          rw e (ap or_empty (lookup-insert c.inbound_tag _ n.users)) in
        ap (holds_client id) added
        ∙ holds_client-insert id c.statistics_id (new_client c) (users_of tag n)
            (users_of-OwnKeys tag n k) refl refl
            (elim there [ inl t ↦ inr t | inr (_, s) ↦ inl s ]))
  | inr ne ↦ elim there [
    | inl t ↦
        ap (λ o. holds_client id (or_empty o)) (lookup-insert_other c.inbound_tag tag _ n.users ne)
        ∙ t
    | inr (e, _) ↦ absurd (ne e)
  ]
]

remove_client-carries :
    (c : RemoveUserCommand) (n : Node) (tag id : Text)
    → OwnKeys n
    → id ≢ c.statistics_id
    → holds_client id (users_of tag (remove_client c n)) ≡ holds_client id (users_of tag n)
unfolding remove_client users_of
remove_client-carries c n tag id k ne = from (lookup c.inbound_tag n.users) refl
  where
    from :
        (r : Option (Table RemoteUser))
        → lookup c.inbound_tag n.users ≡ r
        → holds_client id (
            users_of tag (elim r [
              | none ↦ n
              | some clients ↦ record n {
                users = insert c.inbound_tag (erase c.statistics_id clients) n.users;
              }
            ]))
          ≡ holds_client id (users_of tag n)
    from none e = refl
    from (some clients) e = elim (text_cases tag c.inbound_tag) [
      | inl same ↦
          (let own : All IsOwnKey clients =
              subst (All IsOwnKey) (ap or_empty e) (users_of-OwnKeys c.inbound_tag n k) in
            rw same (
              ap (λ o. holds_client id (or_empty o)) (lookup-insert c.inbound_tag _ n.users)
              ∙ holds_client-erase id c.statistics_id clients own ne
              ∙ ap (λ o. holds_client id (or_empty o)) (sym e)))
      | inr other ↦
          ap (λ o. holds_client id (or_empty o))
            (lookup-insert_other c.inbound_tag tag _ n.users other)
    ]

add_user_keeps :
    (c : AddUserCommand) (n : Node) (tag id : Text)
    → Sane n
    → Sane (add_user c n).0
      × (has_key tag (add_user c n).0.inbounds ≡ has_key tag n.inbounds)
      × (holds_client id (users_of tag n) ≡ true
          → holds_client id (users_of tag (add_user c n).0) ≡ true)
unfolding add_client ensure_users
add_user_keeps c n tag id (k, h) =
    ((add_user-OwnKeys c n k h, add_user-HonestFailures c n h), kept.0, kept.1)
  where
    m : Node
    m = (add_user c n).0

    ready : Node
    ready = ensure_users c.inbound_tag n

    steady : has_key tag ready.inbounds ≡ has_key tag n.inbounds
    steady = ground arith

    kept :
        (has_key tag m.inbounds ≡ has_key tag n.inbounds)
        × (holds_client id (users_of tag n) ≡ true → holds_client id (users_of tag m) ≡ true)
    kept = elim (add_user-cases c n h) [
      | inl (inl same, _) ↦ (let (r, f) = SameTables-SameInbound n m tag same in (r, λ t. f id ∙ t))
      | inl (inr same, _) ↦
          (let (r, f) = SameTables-SameInbound ready m tag same in
            (
              r ∙ steady,
              λ t. f id ∙ ap (holds_client id) (ensure_users-users_of c.inbound_tag tag n) ∙ t,
            ))
      | inr same ↦
          (let (r, f) = SameTables-SameInbound (add_client c ready) m tag same in
            (
              r ∙ steady,
              λ t.
                  f id
                  ∙ add_client-carries c ready tag id (ensure_users-OwnKeys c.inbound_tag n k)
                      (inl (ap (holds_client id) (ensure_users-users_of c.inbound_tag tag n) ∙ t)),
            ))
    ]

add_user_adds :
    (c : AddUserCommand) (n : Node)
    → Sane n
    → IsDone (add_user c n).1 ⊎ HasKind user_already_exists (add_user c n).1
    → holds_client c.statistics_id (users_of c.inbound_tag (add_user c n).0) ≡ true
add_user_adds c n (k, h) told = elim (add_user-cases c n h) [
  | inl (_, untold) ↦ absurd (untold told)
  | inr same ↦
      (let ready = ensure_users c.inbound_tag n in
        (SameTables-SameInbound (add_client c ready) (add_user c n).0 c.inbound_tag same).1
          c.statistics_id
        ∙ add_client-carries c ready c.inbound_tag c.statistics_id
            (ensure_users-OwnKeys c.inbound_tag n k) (inr (refl, refl)))
]

remove_user_keeps :
    (c : RemoveUserCommand) (n : Node) (tag id : Text)
    → Sane n
    → Sane (remove_user c n).0
      × (has_key tag (remove_user c n).0.inbounds ≡ has_key tag n.inbounds)
      × (id ≢ c.statistics_id
          → holds_client id (users_of tag (remove_user c n).0) ≡ holds_client id (users_of tag n))
unfolding remove_client
remove_user_keeps c n tag id (k, h) =
    ((remove_user-OwnKeys c n k, remove_user-HonestFailures c n h), kept.0, kept.1)
  where
    m : Node
    m = (remove_user c n).0

    steady : has_key tag (remove_client c n).inbounds ≡ has_key tag n.inbounds
    steady = ground arith

    kept :
        (has_key tag m.inbounds ≡ has_key tag n.inbounds)
        × (id ≢ c.statistics_id
            → holds_client id (users_of tag m) ≡ holds_client id (users_of tag n))
    kept = elim (remove_user-cases c n) [
      | inl same ↦ (let (r, f) = SameTables-SameInbound n m tag same in (r, λ _. f id))
      | inr same ↦
          (let (r, f) = SameTables-SameInbound (remove_client c n) m tag same in
            (r ∙ steady, λ ne. f id ∙ remove_client-carries c n tag id k ne))
    ]

-- If every client is stored under its own identity, and every injected failure is honest (one that answers
-- success applies its change, and none answers that a user exists or that an inbound is missing), the node
-- in memory obeys the contract that the synchronizer relies on, in every call, whether a failure is
-- injected or not, and whether it is applied or not.
pub node_adapter-Lawful : Lawful node_view node_adapter
node_adapter-Lawful = record {
  list_inbounds_reads = list_inbounds_reads;
  list_inbounds_true = λ n is tag _ h. list_inbounds_true n is tag h;
  list_users_reads = list_users_reads;
  list_users_true = λ tag n us id _ h. list_users_true tag n us id h;
  add_user_keeps = add_user_keeps;
  add_user_adds = add_user_adds;
  remove_user_keeps = remove_user_keeps;
  remove_inbound_keeps = λ tag n sane. (
    (remove_inbound-OwnKeys tag n sane.0 sane.1, remove_inbound-HonestFailures tag n sane.1),
    (remove_inbound-effect tag n sane.1).0,
    (remove_inbound-effect tag n sane.1).1,
  );
  remove_inbound_removes = remove_inbound_removes;
  create_inbound_keeps = λ c n sane. (
    create_inbound-Sane c n sane,
    (create_inbound-effect c n sane.1).0,
    (create_inbound-effect c n sane.1).1,
  );
  create_inbound_creates = λ c n sane. create_inbound_creates c n sane.1;
}
