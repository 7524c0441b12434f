-- ===== src/Store/Users/Ports.antt =====
-- internal/persistence/sqlite/store_inbounds.go and store_users.go: who listens where.
use xpanel.Prelude.{
  none, ℕ, ◌+◌, ◌≤◌, ◌≡◌, refl, sym, ap, ◌∙◌, subst, Bool, true, false, not, ◌&&◌, ◌||◌, List, [],
  ◌∷◌, ◌++◌, some, arith, inl, inr, any, find, count_if, update_where, count_if-append,
  any-count_if, count_if-le, count_if-one, Bool-cases, Option-cases, is_some, ◌==◌,
}
use xpanel.Prelude.Text.{Text, text_eq, text_eq_sound}
use xpanel.Domain.Errors.{Result, ok, err}
use xpanel.Domain.Port.{PortPool, in_pool}
use xpanel.Domain.Inbound.{validate_inbound_tag}
use xpanel.Domain.User.{AccessAllocation, ManagedUser}
use xpanel.Domain.Sync.{SynchronizationOperation}
use xpanel.Store.Tables.{Db, InboundRow}
use xpanel.Store.Sync.{
  is_unreleased_of, supersede_older, insert_operation, set_inbound_desired, clashes,
}
use xpanel.Store.Outcome.{set_allocation}
use xpanel.Store.Users.Holding.{Holds, flagged-Holds, moved-Holds, appended-Holds}
use xpanel.Store.Users.{
  and_then, touch_user, is_at_revision, intend, is_bound, insert_dedicated_inbound, is_listening_at,
  moved_to, move_port, pool_of, check_pool, PortChangeRecord, change_port_body,
}

-- No address and port are held twice, and no allocation has two rows.
pub record IsAssigned (rows : List InboundRow) : Type 0 where
  pub bound : (address : Text) (port : ℕ) → count_if (is_bound address port) rows ≤ 1
  pub keyed : (id : Text) → count_if (λ i. text_eq i.allocation_id id) rows ≤ 1

pub and_then-ok :
    {A B : Type 0} (r : Result A) (f : A → Result B) (b : B)
    → and_then r f ≡ ok b
    → (a : A) × (r ≡ ok a) × (f a ≡ ok b)
and_then-ok (ok a) f b h = (a, refl, h)
and_then-ok (err e) f b h = cc

-- Rows that pass after an update passed before outside of a set that holds the updated ones, or are in it.
count-split :
    {A : Type 0} (q p own : A → Bool) (f : A → A) (xs : List A)
    → ((x : A) → p x ≡ true → own x ≡ true)
    → count_if q (update_where p f xs) ≤ count_if (λ x. q x && not (own x)) xs + count_if own xs
unfolding update_where
count-split q p own f [] sub = omega arith
count-split q p own f (x ∷ xs) sub = ground (arith, sub x, count-split q p own f xs sub)

count-sub :
    {A : Type 0} (p own : A → Bool) (xs : List A)
    → ((x : A) → p x ≡ true → own x ≡ true)
    → count_if p xs ≤ count_if own xs
count-sub p own [] sub = omega arith
count-sub p own (x ∷ xs) sub = ground (arith, sub x, count-sub p own xs sub)

any-sub :
    {A : Type 0} (p own : A → Bool) (xs : List A)
    → ((x : A) → p x ≡ true → own x ≡ true)
    → any own xs ≡ false
    → any p xs ≡ false
any-sub p own [] sub h = refl
any-sub p own (x ∷ xs) sub h = ground (arith, sub x, h, any-sub p own xs sub)

-- An update that leaves allocation, address and port, and frees at most, keeps the assignment.
pub flag-IsAssigned :
    (p : InboundRow → Bool) (f : InboundRow → InboundRow) (rows : List InboundRow)
    → ((i : InboundRow) → text_eq (f i).allocation_id ≡ text_eq i.allocation_id)
    → ((i : InboundRow) (address : Text) (port : ℕ)
        → is_bound address port (f i) ≡ true
        → is_bound address port i ≡ true)
    → IsAssigned rows
    → IsAssigned (update_where p f rows)
flag-IsAssigned p f rows same freed h = record {
  bound = λ address port. omega (
    arith,
    count_if-le (is_bound address port) p f rows (λ i _ b. freed i address port b),
    h.bound address port,
  );
  keyed = λ id. omega (
    arith,
    count_if-le (λ i. text_eq i.allocation_id id) p f rows
        (λ i _ b. sym (ap (λ g. g id) (same i)) ∙ b),
    h.keyed id,
  );
}

module _ (allocation_id : Text) (old_port new_port : ℕ) where
  abbrev mine : InboundRow → Bool
  mine = is_listening_at allocation_id old_port

  mine-own : (i : InboundRow) → mine i ≡ true → text_eq i.allocation_id allocation_id ≡ true
  mine-own i h = ground (arith, h)

  moved-IsAssigned :
      (rows : List InboundRow) (i : InboundRow)
      → find mine rows ≡ some i
      → any
          (λ j. is_bound i.listen_address new_port j && not (text_eq j.allocation_id allocation_id))
          rows
        ≡ false
      → IsAssigned rows
      → IsAssigned (update_where mine (moved_to new_port) rows)
  moved-IsAssigned rows i found free h = record {
    bound = λ address port.
        elim (Bool-cases (text_eq i.listen_address address && new_port == port)) [
          | inl there ↦
              let a : i.listen_address ≡ address = text_eq_sound _ _ (ground (arith, there)) in
              let b : new_port ≡ port = ground (arith, there) in
              let free' : any
                    (λ j. is_bound address port j && not (text_eq j.allocation_id allocation_id))
                    rows
                  ≡ false =
                subst
                  (λ x.
                    any (λ j. is_bound address x j && not (text_eq j.allocation_id allocation_id))
                      rows
                    ≡ false)
                  b
                  (subst
                    (λ x.
                      any
                        (λ j. is_bound x new_port j && not (text_eq j.allocation_id allocation_id))
                        rows
                      ≡ false)
                    a free) in
              omega (
                arith,
                count-split (is_bound address port) mine
                    (λ j. text_eq j.allocation_id allocation_id) (moved_to new_port) rows mine-own,
                any-count_if
                    (λ j. is_bound address port j && not (text_eq j.allocation_id allocation_id))
                    rows free',
                h.keyed allocation_id,
              )
          | inr elsewhere ↦ omega (
            arith,
            count_if-one (is_bound address port) mine (moved_to new_port) rows i found
                (omega (
                  arith,
                  count-sub mine (λ j. text_eq j.allocation_id allocation_id) rows mine-own,
                  h.keyed allocation_id,
                ))
                (λ bound. absurd (ground (arith, bound, elsewhere))),
            h.bound address port,
          )
        ];
    keyed = λ id. omega (
      arith,
      count_if-le (λ j. text_eq j.allocation_id id) mine (moved_to new_port) rows (λ _ _ b. b),
      h.keyed id,
    );
  }

pub touch_user-keeps :
    (id : Text) (revision : ℕ) (f : ManagedUser → ManagedUser) (db db' : Db)
    → touch_user id revision f db ≡ ok db'
    → (db'.inbounds ≡ db.inbounds)
      × (db'.allocations ≡ db.allocations)
      × (db'.templates ≡ db.templates)
unfolding touch_user
touch_user-keeps id revision f db db' h =
    elim (Bool-cases (count_if (is_at_revision id revision) db.users == 1)) [
      | inl y ↦ ground (arith, h, y)
      | inr n ↦ absurd (ground (arith, h, n))
    ]

-- The allocation's row, which listened at the old port, is at the new one, with the same address and tag.
abbrev pub IsMoved : Text → ℕ → ℕ → List InboundRow → List InboundRow → Type 0
IsMoved id old_port new_port rows rows' =
    (i : InboundRow) × (find (λ k. text_eq k.allocation_id id) rows ≡ some i)
    × (i.port ≡ old_port)
    × (i.released_at ≡ none)
    × Holds id (record i { port = new_port }) rows'

move_port-IsAssigned :
    (id : Text) (old_port new_port : ℕ) (db db' : Db)
    → move_port id old_port new_port db ≡ ok db'
    → IsAssigned db.inbounds
    → IsAssigned db'.inbounds × IsMoved id old_port new_port db.inbounds db'.inbounds
unfolding move_port
move_port-IsAssigned id old_port new_port db db' h s =
    elim (Option-cases (find (is_listening_at id old_port) db.inbounds)) [
      | inl nothing ↦ absurd (ground (arith, h, nothing))
      | inr (i, y) ↦
          elim (Bool-cases (
            any (λ j. is_bound i.listen_address new_port j && not (text_eq j.allocation_id id))
              db.inbounds)) [
                | inl taken ↦ absurd (ground (arith, h, y, taken))
                | inr free ↦
                    let same : update_where (is_listening_at id old_port) (moved_to new_port)
                          db.inbounds
                        ≡ db'.inbounds =
                      ground (arith, h, y, free) in
                    let (row, port, held_before, held) =
                      moved-Holds id old_port new_port db.inbounds i y (s.keyed id) in
                    (
                      subst IsAssigned same
                          (moved-IsAssigned id old_port new_port db.inbounds i y free s),
                      subst (IsMoved id old_port new_port db.inbounds) same
                          (i, row, port, held_before, held),
                    )
              ]
    ]

intend-IsAssigned :
    (o : SynchronizationOperation) (id : Text) (now : ℕ) (f : AccessAllocation → AccessAllocation)
    (db db' : Db)
    → intend o id now f db ≡ ok db'
    → IsAssigned db.inbounds
    → IsAssigned db'.inbounds
      × ((own : Text) (i : InboundRow) → Holds own i db.inbounds → Holds own i db'.inbounds)
unfolding intend insert_operation set_inbound_desired supersede_older set_allocation
intend-IsAssigned o id now f db db' h s =
    let older = supersede_older o.allocation_id o.desired_revision now db in
    elim (Bool-cases (any (clashes o) older.operations)) [
      | inl y ↦ absurd (ground (arith, h, y))
      | inr n ↦
          let same : update_where (is_unreleased_of o.allocation_id)
                (λ i. record i { desired_present = o.desired_presence }) db.inbounds
              ≡ db'.inbounds =
            ground (arith, h, n) in
          (
            subst IsAssigned same (
                flag-IsAssigned (is_unreleased_of o.allocation_id)
                  (λ i. record i { desired_present = o.desired_presence }) db.inbounds (λ _. refl)
                  (λ _ _ _ b. b) s),
            λ own i h'.
                subst (Holds own i) same
                  (flagged-Holds own o.allocation_id o.desired_presence i db.inbounds h'),
          )
    ]

check_pool-ok :
    (id : Text) (port : ℕ) (db : Db)
    → check_pool id port db ≡ ok tt
    → (pool : PortPool) × (pool_of id db ≡ some pool) × (in_pool pool port ≡ true)
unfolding check_pool
check_pool-ok id port db h = elim (Option-cases (pool_of id db)) [
  | inl nothing ↦ absurd (ground (arith, h, nothing))
  | inr (pool, y) ↦ (pool, y, ground (arith, h, y))
]

pool_of-same :
    (id : Text) (db db1 : Db)
    → db1.allocations ≡ db.allocations
    → db1.templates ≡ db.templates
    → pool_of id db1 ≡ pool_of id db
unfolding pool_of
pool_of-same id db db1 a t =
    ap (λ x. pool_of id (record db { allocations = x; templates = db1.templates })) a
    ∙ ap (λ x. pool_of id (record db { templates = x })) t

-- A change of port that is committed moves the allocation's inbound, which was not released and listened at
-- the old port, to the new one, with the address and the tag that it had; the new port is of the pool of
-- the user's template. Every address and port still has one holder at most, and every allocation one row
-- at most.
pub change_port-IsAssigned :
    (r : PortChangeRecord) (db db' : Db)
    → IsAssigned db.inbounds
    → change_port_body r db ≡ ok db'
    → IsAssigned db'.inbounds
      × IsMoved r.allocation_id r.old_port r.new_port db.inbounds db'.inbounds
      × ((pool : PortPool) × (pool_of r.allocation_id db ≡ some pool)
          × (in_pool pool r.new_port ≡ true))
unfolding change_port_body pool_of
change_port-IsAssigned r db db' s h =
    let (db1, touched, h1) =
      and_then-ok (touch_user r.user_id r.expected_revision (λ u. u) db) _ db' h in
    let (_, checked, h2) = and_then-ok (check_pool r.allocation_id r.new_port db1) _ db' h1 in
    let (db2, moved, h3) =
      and_then-ok (move_port r.allocation_id r.old_port r.new_port db1) _ db' h2 in
    let (inbounds, allocations, templates) =
      touch_user-keeps r.user_id r.expected_revision (λ u. u) db db1 touched in
    let s1 = subst IsAssigned (sym inbounds) s in
    let (s2, here) = move_port-IsAssigned r.allocation_id r.old_port r.new_port db1 db2 moved s1 in
    let (i, row, port, free, held) = here in
    let (s3, kept) =
      intend-IsAssigned r.operation r.allocation_id r.now
        (λ a. record a { observed_present = some false }) db2 db' h3 s2 in
    let (pool, y, inside) = check_pool-ok r.allocation_id r.new_port db1 checked in
    (
      s3,
      (
        i,
        ap (find (λ k. text_eq k.allocation_id r.allocation_id)) (sym inbounds) ∙ row,
        port,
        free,
        kept r.allocation_id (record i { port = r.new_port }) held,
      ),
      (pool, sym (pool_of-same r.allocation_id db db1 allocations templates) ∙ y, inside),
    )

-- A row with a free allocation, on a free port if it is not released.
added-IsAssigned :
    (i : InboundRow) (rows : List InboundRow)
    → count_if (λ j. text_eq j.allocation_id i.allocation_id) rows ≡ 0
    → (not (is_some i.released_at) && any (is_bound i.listen_address i.port) rows) ≡ false
    → IsAssigned rows
    → IsAssigned (rows ++ i ∷ [])
added-IsAssigned i rows fresh free s = record {
  bound = λ address port.
      let counted = count_if-append (is_bound address port) rows i in
      elim (Bool-cases (is_bound address port i)) [
        | inr other ↦ ground (arith, counted, other, s.bound address port)
        | inl there ↦
            let a : i.listen_address ≡ address = text_eq_sound _ _ (ground (arith, there)) in
            let b : i.port ≡ port = ground (arith, there) in
            let none_there : any (is_bound i.listen_address i.port) rows ≡ false =
              ground (arith, there, free) in
            let none_here : any (is_bound address port) rows ≡ false =
              subst (λ x. any (is_bound address x) rows ≡ false) b
                (subst (λ x. any (is_bound x i.port) rows ≡ false) a none_there) in
            ground (arith, counted, there, any-count_if (is_bound address port) rows none_here)
      ];
  keyed = λ id.
      let counted = count_if-append (λ j. text_eq j.allocation_id id) rows i in
      elim (Bool-cases (text_eq i.allocation_id id)) [
        | inr other ↦ ground (arith, counted, other, s.keyed id)
        | inl own ↦
            let same : i.allocation_id ≡ id = text_eq_sound _ _ own in
            let unowned : count_if (λ j. text_eq j.allocation_id id) rows ≡ 0 =
              subst (λ x. count_if (λ j. text_eq j.allocation_id x) rows ≡ 0) same fresh in
            ground (arith, counted, own, unowned)
      ];
}

-- A new inbound that is accepted takes a free port of its address, a new allocation and a new tag.
pub insert_dedicated_inbound-IsAssigned :
    (i : InboundRow) (db db' : Db)
    → IsAssigned db.inbounds
    → insert_dedicated_inbound i db ≡ ok db'
    → IsAssigned db'.inbounds × Holds i.allocation_id i db'.inbounds
unfolding insert_dedicated_inbound
insert_dedicated_inbound-IsAssigned i db db' s h =
    let (_, _, h1) = and_then-ok (validate_inbound_tag i.inbound_tag) _ db' h in
    let same_key = λ (j : InboundRow).
      text_eq j.allocation_id i.allocation_id || text_eq j.inbound_tag i.inbound_tag in
    elim (Bool-cases (any same_key db.inbounds)) [
      | inl taken ↦ absurd (ground (arith, h1, taken))
      | inr fresh ↦
          elim (Bool-cases
            (not (is_some i.released_at) && any (is_bound i.listen_address i.port) db.inbounds)) [
              | inl taken ↦ absurd (ground (arith, h1, fresh, taken))
              | inr free ↦
                  let same : (db.inbounds ++ i ∷ []) ≡ db'.inbounds =
                    ground (arith, h1, fresh, free) in
                  let unkeyed : any (λ j. text_eq j.allocation_id i.allocation_id) db.inbounds
                      ≡ false =
                    any-sub (λ j. text_eq j.allocation_id i.allocation_id) same_key db.inbounds
                      (λ j e. ground (arith, e)) fresh in
                  (
                    subst IsAssigned same (
                        added-IsAssigned i db.inbounds
                          (omega (
                            arith,
                            count-sub (λ j. text_eq j.allocation_id i.allocation_id) same_key
                                db.inbounds (λ j e. ground (arith, e)),
                            any-count_if same_key db.inbounds fresh,
                          ))
                          free s),
                    subst (Holds i.allocation_id i) same (appended-Holds i db.inbounds unkeyed),
                  )
            ]
    ]
