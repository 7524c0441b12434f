-- ===== src/Store/Outcome/Confirm.antt =====
-- internal/persistence/sqlite/store_sync.go, `ConfirmSync`: its result and the rows that it writes.
use xpanel.Prelude.{
  if◌then◌else◌, ℕ, ◌≡◌, ◌≢◌, ◌↔◌, refl, sym, subst, ap, ◌∙◌, ◌⊎◌, Bool, true, false, Option, none,
  some, arith, ◌==◌, find, find-update_where, find-true, on_row, on_some, Bool-cases, inl, inr,
  Option-cases,
}
use xpanel.Prelude.Text.{Text, text_eq, text_eq_sound, text_eq_refl, text_ne}
use xpanel.Domain.Errors.{Result, ok}
use xpanel.Domain.User.{ManagedUser, AccessAllocation, ProjectionState, absent, is_active}
use xpanel.Domain.Sync.{
  SynchronizationOperation, SyncState, leased, retry_wait, succeeded, superseded, permanent_failed,
  done,
}
use xpanel.Store.Tables.{Db, operation_by_id, allocation_by_id, user_by_id}
use xpanel.Store.Sync.{is_leased, holds_lease, end_superseded}
use xpanel.Store.Outcome.{
  set_operation, set_allocation, settle_keys, confirmed_allocation, end_succeeded,
  commit_confirmation, confirm_row, joined, confirm_sync, activate_credential, destroy_credentials,
  release_inbound_port, confirm_inbound_presence,
}

-- A row selected by its id is the changed row, if the change is made under that id.
by_id-set_operation :
    (id : Text) (f : SynchronizationOperation → SynchronizationOperation) (db : Db)
    (o : SynchronizationOperation)
    → ((p : SynchronizationOperation) → (f p).id ≡ p.id)
    → operation_by_id id db.operations ≡ some o
    → operation_by_id id (set_operation id f db).operations ≡ some (f o)
unfolding operation_by_id set_operation
by_id-set_operation id f db o keep e =
    find-update_where (λ r. text_eq r.id id) (λ r. text_eq r.id id) f db.operations
      (λ p. ap (λ t. text_eq t id) (keep p))
    ∙ rw e (rw (find-true (λ r. text_eq r.id id) db.operations o e) refl)

pub by_id-set_operation_other :
    (id other : Text) (f : SynchronizationOperation → SynchronizationOperation) (db : Db)
    → ((p : SynchronizationOperation) → (f p).id ≡ p.id)
    → other ≢ id
    → operation_by_id other (set_operation id f db).operations ≡ operation_by_id other db.operations
unfolding operation_by_id set_operation
by_id-set_operation_other id other f db keep n =
    find-update_where (λ r. text_eq r.id other) (λ r. text_eq r.id id) f db.operations
      (λ p. ap (λ t. text_eq t other) (keep p))
    ∙ untouched (find (λ r. text_eq r.id other) db.operations)
        (λ o e. find-true (λ r. text_eq r.id other) db.operations o e)
  where
    untouched :
        (selected : Option SynchronizationOperation)
        → ((o : SynchronizationOperation) → selected ≡ some o → text_eq o.id other ≡ true)
        → on_some (on_row (λ r. text_eq r.id id) f) selected ≡ selected
    untouched none h = refl
    untouched (some o) h =
        let e : o.id ≡ other = text_eq_sound o.id other (h o refl) in
        rw (text_ne o.id id (λ same. n (sym e ∙ same))) refl

by_id-set_allocation :
    (id : Text) (f : AccessAllocation → AccessAllocation) (db : Db) (a : AccessAllocation)
    → ((p : AccessAllocation) → (f p).id ≡ p.id)
    → allocation_by_id id db.allocations ≡ some a
    → allocation_by_id id (set_allocation id f db).allocations ≡ some (f a)
unfolding allocation_by_id set_allocation
by_id-set_allocation id f db a keep e =
    find-update_where (λ r. text_eq r.id id) (λ r. text_eq r.id id) f db.allocations
      (λ p. ap (λ t. text_eq t id) (keep p))
    ∙ rw e (rw (find-true (λ r. text_eq r.id id) db.allocations a e) refl)

settle_keys-frame :
    (a : AccessAllocation) (version : ℕ) (seen : Bool) (now : ℕ) (db db' : Db)
    → settle_keys a version seen now db ≡ some db'
    → (db'.operations ≡ db.operations) × (db'.allocations ≡ db.allocations)
unfolding settle_keys activate_credential destroy_credentials release_inbound_port
settle_keys-frame a version true now db db' e = ground arith
settle_keys-frame a version false now db db' e = ground arith

settle_keys_total :
    (a : AccessAllocation) (version : ℕ) (seen : Bool) (now : ℕ) (db : Db) (u : ManagedUser)
    → user_by_id a.user_id db.users ≡ some u
    → (db' : Db) × (settle_keys a version seen now db ≡ some db')
unfolding settle_keys
settle_keys_total a version true now db u e = (_, refl)
settle_keys_total a version false now db u e = elim (Bool-cases (is_active u.lifecycle)) [
  | inl live ↦ (db, ground arith)
  | inr gone ↦ (release_inbound_port a.id now (destroy_credentials a.id db), ground arith)
]

allocations-set_operation :
    (id : Text) (f : SynchronizationOperation → SynchronizationOperation) (db : Db)
    → ((set_operation id f db).allocations ≡ db.allocations)
      × ((set_operation id f db).inbounds ≡ db.inbounds)
      × ((set_operation id f db).credentials ≡ db.credentials)
unfolding set_operation
allocations-set_operation id f db = (refl, refl, refl)

-- What a confirmation has written once it succeeds: the operation is done and unleased, and its allocation
-- records the confirmed revision and presence.
abbrev pub Confirmed :
    Text → ℕ → ℕ → Bool → ℕ → SynchronizationOperation → AccessAllocation → Db → Type 0
Confirmed id revision version seen now o a db =
    (operation_by_id id db.operations
      ≡ some (record o {
        state = succeeded;
        phase = done;
        lease_owner = none;
        lease_expires_at = none;
        completed_at = some now;
      }))
    × (allocation_by_id a.id db.allocations
        ≡ some (record a {
          projection_state = if seen then ProjectionState.present else absent;
          observed_present = some seen;
          synced_revision = revision;
          synced_credential_version = if seen then some version else none;
        }))

commit_confirmation-Confirmed :
    (id : Text) (o : SynchronizationOperation) (a : AccessAllocation) (revision version : ℕ)
    (seen : Bool) (now : ℕ) (db : Db)
    → operation_by_id id db.operations ≡ some o
    → allocation_by_id a.id db.allocations ≡ some a
    → Confirmed id revision version seen now o a
        (commit_confirmation id a revision version seen now db)
unfolding commit_confirmation set_operation set_allocation confirm_inbound_presence
commit_confirmation-Confirmed id o a revision version seen now db p q =
    let shown = confirm_inbound_presence a.id seen db in
    let marked = set_allocation a.id (confirmed_allocation revision version seen) shown in
    (
      by_id-set_operation id (end_succeeded now) marked o (λ _. refl) p,
      by_id-set_allocation a.id (confirmed_allocation revision version seen) shown a (λ _. refl) q,
    )

-- The three outcomes of the checks, each with its equation.
pub row_cases :
    (id owner : Text) (revision version now : ℕ) (seen : Bool) (db : Db)
    (o : SynchronizationOperation) (a : AccessAllocation) (u : ManagedUser)
    → user_by_id a.user_id db.users ≡ some u
    → let r = confirm_row id owner revision version seen now db o a in
      ((holds_lease owner o ≡ false) × (r ≡ (db, ok false)))
      ⊎ ((a.desired_revision ≢ revision)
          × (r ≡ (set_operation id (end_superseded now) db, ok false)))
      ⊎ ((settled : Db) × (holds_lease owner o ≡ true)
          × (a.desired_revision ≡ revision)
          × (settle_keys a version seen now db ≡ some settled)
          × (r ≡ (commit_confirmation id a revision version seen now settled, ok true)))
unfolding confirm_row
row_cases id owner revision version now seen db o a u x =
    let (settled, e) = settle_keys_total a version seen now db u x in
    elim (Bool-cases (holds_lease owner o)) [
      | inr lost ↦ inl (lost, ground arith)
      | inl held ↦ elim (Bool-cases (a.desired_revision == revision)) [
        | inr stale ↦ inr (inl (ground arith, ground arith))
        | inl current ↦ inr (inr (settled, held, ground arith, e, ground arith))
      ]
    ]

row_outcome :
    (id owner : Text) (revision version now : ℕ) (seen : Bool) (db : Db)
    (o : SynchronizationOperation) (a : AccessAllocation) (u : ManagedUser)
    → operation_by_id id db.operations ≡ some o
    → allocation_by_id a.id db.allocations ≡ some a
    → user_by_id a.user_id db.users ≡ some u
    → let r = confirm_row id owner revision version seen now db o a in
      ((r.1 ≡ ok true) ↔ ((holds_lease owner o ≡ true) × (a.desired_revision ≡ revision)))
      × (r.1 ≡ ok true → Confirmed id revision version seen now o a r.0)
      × (r.1 ≢ ok true
          → (r.0.allocations ≡ db.allocations)
            × (r.0.inbounds ≡ db.inbounds)
            × (r.0.credentials ≡ db.credentials))
row_outcome id owner revision version now seen db o a u p q x =
    elim (row_cases id owner revision version now seen db o a u x) [
      | inl (lost, e) ↦ rw e (((λ h. cc), (λ h. cc)), (λ h. cc), λ _. (refl, refl, refl))
      | inr (inl (stale, e)) ↦ rw e (
        ((λ h. cc), λ h. absurd (stale h.1)),
        (λ h. cc),
        λ _. allocations-set_operation id (end_superseded now) db,
      )
      | inr (inr (settled, held, current, s, e)) ↦
          let (ops, allocs) = settle_keys-frame a version seen now db settled s in
          rw e (
            ((λ _. (held, current)), λ _. refl),
            (λ _.
                commit_confirmation-Confirmed id o a revision version seen now settled (rw ops p)
                  (rw allocs q)),
            λ n. absurd (n refl),
          )
    ]

-- The rows that the join names are the rows under their ids.
pub joined_rows :
    (id : Text) (db : Db) (o : SynchronizationOperation) (a : AccessAllocation)
    → joined id db ≡ some (o, a)
    → (operation_by_id id db.operations ≡ some o) × (allocation_by_id a.id db.allocations ≡ some a)
unfolding joined allocation_by_id
joined_rows id db o a j = elim (Option-cases (operation_by_id id db.operations)) [
  | inl nothing ↦ ground arith
  | inr (p, e) ↦ elim (Option-cases (find (λ r. text_eq r.id p.allocation_id) db.allocations)) [
    | inl nothing ↦ ground arith
    | inr (b, f) ↦
        let named =
          text_eq_sound b.id p.allocation_id
            (find-true (λ r. text_eq r.id p.allocation_id) db.allocations b f) in
        let ab : b ≡ a = ground arith in
        (
          ground arith,
          subst (λ (x : AccessAllocation). find (λ r. text_eq r.id x.id) db.allocations ≡ some x) ab
              (subst (λ t. find (λ r. text_eq r.id t) db.allocations ≡ some b) (sym named) f),
        )
  ]
]

-- The worker's own lease.
abbrev pub IsLeasedBy : Text → SynchronizationOperation → Type 0
IsLeasedBy owner o = (o.state ≡ leased) × (o.lease_owner ≡ some owner)

is_leased_sound : (s : SyncState) → is_leased s ≡ true → s ≡ leased
is_leased_sound SyncState.pending h = cc
is_leased_sound leased h = refl
is_leased_sound retry_wait h = cc
is_leased_sound succeeded h = cc
is_leased_sound superseded h = cc
is_leased_sound permanent_failed h = cc

holds_lease_iff :
    (owner : Text) (o : SynchronizationOperation)
    → ((holds_lease owner o ≡ true) ↔ IsLeasedBy owner o)
unfolding holds_lease
holds_lease_iff owner o = (
  (λ h. elim (Option-cases o.lease_owner) [
    | inl nothing ↦ absurd (ground (arith, h, nothing))
    | inr (w, y) ↦
        let same : w ≡ owner = text_eq_sound w owner (ground (arith, h, y)) in
        (is_leased_sound o.state (ground (arith, h)), y ∙ ap some same)
  ]),
  λ h.
      let mine : is_leased o.state ≡ true = ap is_leased h.0 in
      rw (mine, h.1, text_eq_refl owner) refl,
)

-- The outcomes of a confirmation, for the row and the allocation that it read.
abbrev pub IsConfirmation :
    Text
    → Text
    → ℕ
    → ℕ
    → Bool
    → ℕ
    → Db
    → SynchronizationOperation
    → AccessAllocation
    → Db × Result Bool
    → Type 0
IsConfirmation id owner revision version seen now db o a r =
    ((r.1 ≡ ok true) ↔ (IsLeasedBy owner o × (a.desired_revision ≡ revision)))
    × (r.1 ≡ ok true → Confirmed id revision version seen now o a r.0)
    × (r.1 ≢ ok true
        → (r.0.allocations ≡ db.allocations)
          × (r.0.inbounds ≡ db.inbounds)
          × (r.0.credentials ≡ db.credentials))

-- For an operation whose allocation and user exist, a confirmation succeeds exactly when the worker still
-- leases the operation and its revision is still the allocation's latest intent. Then the operation has
-- succeeded and is unleased, and the allocation records the confirmed revision, version and presence;
-- otherwise allocations, inbounds and credentials are left as they were.
pub confirm_sync_outcome :
    (id owner : Text) (revision version now : ℕ) (seen : Bool) (db : Db)
    (o : SynchronizationOperation) (a : AccessAllocation) (u : ManagedUser)
    → joined id db ≡ some (o, a)
    → user_by_id a.user_id db.users ≡ some u
    → IsConfirmation id owner revision version seen now db o a
        (confirm_sync id owner revision version seen now db)
unfolding confirm_sync
confirm_sync_outcome id owner revision version now seen db o a u j x =
    let (p, q) = joined_rows id db o a j in
    let (there, back) = holds_lease_iff owner o in
    let ((give, take), good, bad) = row_outcome id owner revision version now seen db o a u p q x in
    rw (j, confirm_sync)
      (
        ((λ h. let (held, current) = give h in (there held, current)), λ h. take (back h.0, h.1)),
        good,
        bad,
      )
