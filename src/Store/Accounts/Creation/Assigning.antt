-- ===== src/Store/Accounts/Creation/Assigning.antt =====
-- internal/persistence/sqlite/store_users.go, `CreateUser`, and store_inbounds.go: the port of a new user.
use xpanel.Prelude.Text.{Text}
use xpanel.Store.Users.Holding.{Holds, flagged-Holds}
use xpanel.Prelude.{◌≡◌, inl, inr, refl, subst, arith, any, update_where, Bool-cases}
use xpanel.Domain.Errors.{ok}
use xpanel.Domain.User.{AccessCredential}
use xpanel.Domain.Sync.{SynchronizationOperation}
use xpanel.Store.Tables.{Db, InboundRow}
use xpanel.Store.Sync.{clashes, is_unreleased_of, insert_operation, set_inbound_desired}
use xpanel.Store.Users.{insert_dedicated_inbound}
use xpanel.Store.Users.Ports.{
  IsAssigned, and_then-ok, flag-IsAssigned, insert_dedicated_inbound-IsAssigned,
}
use xpanel.Store.Accounts.{Books, audited}
use xpanel.Store.Accounts.Creation.{
  UserCreateRecord, new_users, new_identities, new_allocations, new_credentials, new_policies,
  new_cycles, new_totals, new_cursors, add_owner, add_key, open_books, create_rows, create_body,
}

insert_operation-IsAssigned :
    (o : SynchronizationOperation) (db db' : Db)
    → insert_operation o db ≡ ok db'
    → IsAssigned db.inbounds
    → IsAssigned db'.inbounds
      × ((own : Text) (i : InboundRow) → Holds own i db.inbounds → Holds own i db'.inbounds)
unfolding insert_operation set_inbound_desired
insert_operation-IsAssigned o db db' h s = elim (Bool-cases (any (clashes o) db.operations)) [
  | inl y ↦ absurd (ground (arith, h, y))
  | inr n ↦
      let same : update_where (is_unreleased_of o.allocation_id)
            (λ i. record i { desired_present = o.desired_presence }) db.inbounds
          ≡ db'.inbounds =
        ground (arith, h, n) in
      (
        subst IsAssigned same (
            flag-IsAssigned (is_unreleased_of o.allocation_id)
              (λ i. record i { desired_present = o.desired_presence }) db.inbounds (λ _. refl)
              (λ _ _ _ b. b) s),
        λ own i held.
            subst (Holds own i) same
              (flagged-Holds own o.allocation_id o.desired_presence i db.inbounds held),
      )
]

add_owner-keeps :
    (r : UserCreateRecord) (db db' : Db) → add_owner r db ≡ ok db' → db.inbounds ≡ db'.inbounds
unfolding add_owner
add_owner-keeps r db db' h =
    let (users, _, h1) = and_then-ok (new_users r db) _ db' h in
    let (names, _, h2) = and_then-ok (new_identities r db) _ db' h1 in
    let (owners, _, h3) = and_then-ok (new_allocations r db) _ db' h2 in ground (arith, h3)

add_key-keeps :
    (c : AccessCredential) (db db' : Db) → add_key c db ≡ ok db' → db.inbounds ≡ db'.inbounds
unfolding add_key
add_key-keeps c db db' h =
    let (keys, _, h1) = and_then-ok (new_credentials c db) _ db' h in ground (arith, h1)

create_rows-IsAssigned :
    (r : UserCreateRecord) (db db' : Db)
    → create_rows r db ≡ ok db'
    → IsAssigned db.inbounds
    → IsAssigned db'.inbounds × Holds r.inbound_row.allocation_id r.inbound_row db'.inbounds
unfolding create_rows
create_rows-IsAssigned r db db' h s =
    let (db1, owner, h1) = and_then-ok (add_owner r db) _ db' h in
    let (db2, listener, h2) = and_then-ok (insert_dedicated_inbound r.inbound_row db1) _ db' h1 in
    let (db3, key, h3) = and_then-ok (add_key r.credential db2) _ db' h2 in
    let s1 = subst IsAssigned (add_owner-keeps r db db1 owner) s in
    let (s2, held) = insert_dedicated_inbound-IsAssigned r.inbound_row db1 db2 s1 listener in
    let same = add_key-keeps r.credential db2 db3 key in
    let (s4, kept) =
      insert_operation-IsAssigned r.operation db3 db' h3 (subst IsAssigned same s2) in
    (
      s4,
      kept r.inbound_row.allocation_id r.inbound_row
          (subst (Holds r.inbound_row.allocation_id r.inbound_row) same held),
    )

open_books-keeps : (r : UserCreateRecord) (b b' : Books) → open_books r b ≡ ok b' → b.db ≡ b'.db
unfolding open_books
open_books-keeps r b b' h =
    let (policies, _, h1) = and_then-ok (new_policies r b) _ b' h in
    let (cycles, _, h2) = and_then-ok (new_cycles r b) _ b' h1 in
    let (totals, _, h3) = and_then-ok (new_totals r b) _ b' h2 in
    let (cursors, _, h4) = and_then-ok (new_cursors r b) _ b' h3 in ground (arith, h4)

-- After a user is created, the inbound of the new allocation is found under it, with the address, the port
-- and the tag that were chosen; every address and port that is not released has one holder at most, and
-- every allocation one row at most, if both held before.
pub create_user-IsAssigned :
    (r : UserCreateRecord) (b b' : Books)
    → create_body r b ≡ ok (b', tt)
    → IsAssigned b.db.inbounds
    → IsAssigned b'.db.inbounds × Holds r.inbound_row.allocation_id r.inbound_row b'.db.inbounds
unfolding create_body
create_user-IsAssigned r b b' h s =
    let (db, rows, h1) = and_then-ok (create_rows r b.db) _ (b', tt) h in
    let (b1, accounts, h2) = and_then-ok (open_books r (record b { db = db })) _ (b', tt) h1 in
    let kept : db ≡ b1.db = open_books-keeps r (record b { db = db }) b1 accounts in
    let same : audited r.port_audit (audited r.audit b1) ≡ b' = ground (arith, h2) in
    let holds = Holds r.inbound_row.allocation_id r.inbound_row in
    subst (λ (x : Books). IsAssigned x.db.inbounds × holds x.db.inbounds) same
      (subst (λ (x : Db). IsAssigned x.inbounds × holds x.inbounds) kept
        (create_rows-IsAssigned r b.db db rows s))
