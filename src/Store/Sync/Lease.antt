-- ===== src/Store/Sync/Lease.antt =====
-- internal/persistence/sqlite/store_sync.go, `LeaseDueSync`: the row that it hands out.
use xpanel.Prelude.{
  ℕ, ◌+◌, ◌≡◌, ◌≢◌, ◌≤◌, refl, subst, ap, ◌∙◌, &&-true, ◌⊎◌, Bool, true, false, List, [], ◌∷◌,
  Option, none, some, arith, ◌==◌, All, find, find-update_where, count_if, Bool-cases, inl, inr,
  Option-cases,
}
use xpanel.Prelude.Text.{Text, text_eq, text_eq_refl, text_eq_sym}
use xpanel.Domain.User.{AccessAllocation}
use xpanel.Domain.Sync.{SynchronizationOperation, SyncState, leased, retry_wait}
use xpanel.Store.Tables.{
  Db, TemplateRow, operation_by_id, allocation_by_id, template_by_id, incompatible,
}
use xpanel.Store.Sync.{
  is_due, is_projectable, earliest, lease_due_sync, same_owner, may_take, take_lease, with_lease,
  lease_row, is_candidate,
}

-- PRIMARY KEY(id) of synchronization_operations.
abbrev pub IsKeyed : List SynchronizationOperation → Type 0
IsKeyed [] = Unit
IsKeyed (o ∷ os) = All (λ p. text_eq p.id o.id ≡ false) os × IsKeyed os

-- The row that the query selects is the first one, which passes the test, or is selected from the rest.
earliest-cases :
    (p : SynchronizationOperation → Bool) (x : SynchronizationOperation)
    (os : List SynchronizationOperation) (o : SynchronizationOperation)
    → earliest p (x ∷ os) ≡ some o
    → ((x ≡ o) × (p x ≡ true)) ⊎ (earliest p os ≡ some o)
unfolding earliest
earliest-cases p x os o e = elim (Bool-cases (p x)) [
  | inr f ↦ inr (ground arith)
  | inl t ↦ elim (Option-cases (earliest p os)) [
    | inl nothing ↦ inl (ground arith, t)
    | inr (q, later) ↦ ground arith
  ]
]

earliest-All :
    (P : SynchronizationOperation → Type 0) (p : SynchronizationOperation → Bool)
    (os : List SynchronizationOperation) (o : SynchronizationOperation)
    → All P os
    → earliest p os ≡ some o
    → P o × (p o ≡ true)
earliest-All P p [] o h e = absurd (unfold earliest in cc)
earliest-All P p (x ∷ os) o h e = elim (earliest-cases p x os o e) [
  | inl (same, t) ↦ (subst P same h.0, subst (λ r. p r ≡ true) same t)
  | inr later ↦ earliest-All P p os o h.1 later
]

earliest-by_id :
    (p : SynchronizationOperation → Bool) (os : List SynchronizationOperation)
    (o : SynchronizationOperation)
    → IsKeyed os
    → earliest p os ≡ some o
    → find (λ r. text_eq r.id o.id) os ≡ some o
unfolding find
earliest-by_id p [] o k e = absurd (unfold earliest in cc)
earliest-by_id p (x ∷ os) o k e = elim (earliest-cases p x os o e) [
  | inl (same, t) ↦ ground (arith, text_eq_refl o.id)
  | inr later ↦
      let other = (earliest-All (λ r. text_eq r.id x.id ≡ false) p os o k.0 later).0 in
      ground (arith, text_eq_sym x.id o.id, earliest-by_id p os o k.1 later)
]

same_owner_refl : (w : Option Text) → same_owner w w ≡ true
same_owner_refl none = refl
same_owner_refl (some a) = text_eq_refl a

may_take_self :
    (now : ℕ) (o : SynchronizationOperation) → is_due now o ≡ true → may_take now o o ≡ true
may_take_self now o due = ground (arith, text_eq_refl o.id, same_owner_refl o.lease_owner)

lease_row_inv :
    (owner : Text) (now duration : ℕ) (db : Db) (selected : Option SynchronizationOperation)
    (o : SynchronizationOperation)
    → (lease_row owner now duration db selected).1 ≡ some o
    → (selected ≡ some o)
      × ((lease_row owner now duration db selected).0 ≡ with_lease owner now duration o db)
unfolding lease_row
lease_row_inv owner now duration db none o e = cc
lease_row_inv owner now duration db (some q) o e =
    elim (Bool-cases (count_if (may_take now q) db.operations == 1)) [
      | inr many ↦ ground arith
      | inl one ↦ let same : q ≡ o = ground arith in (ap some same, rw (one, same))
    ]

earliest-true :
    (p : SynchronizationOperation → Bool) (os : List SynchronizationOperation)
    (o : SynchronizationOperation)
    → earliest p os ≡ some o
    → p o ≡ true
earliest-true p [] o e = absurd (unfold earliest in cc)
earliest-true p (x ∷ os) o e = elim (earliest-cases p x os o e) [
  | inl (same, t) ↦ subst (λ r. p r ≡ true) same t
  | inr later ↦ earliest-true p os o later
]

-- Due: its time has come while it waits, or its lease has run out.
abbrev pub IsDue : ℕ → SynchronizationOperation → Type 0
IsDue now o =
    (((o.state ≡ SyncState.pending) ⊎ (o.state ≡ retry_wait)) × (o.next_attempt_at ≤ now))
    ⊎ ((o.state ≡ leased) × ((until : ℕ) × (o.lease_expires_at ≡ some until) × (until ≤ now)))

-- Its allocation's template exists and is not marked incompatible.
abbrev pub IsProjectable : Db → SynchronizationOperation → Type 0
IsProjectable db o =
    (a : AccessAllocation) × (t : TemplateRow) × (allocation_by_id o.allocation_id db.allocations
      ≡ some a)
    × (template_by_id a.template_id db.templates ≡ some t)
    × (t.compatibility ≢ incompatible)

pub leased_row :
    (owner : Text) (now duration : ℕ) (db : Db) (o : SynchronizationOperation)
    → IsKeyed db.operations
    → (lease_due_sync owner now duration db).1 ≡ some o
    → (operation_by_id o.id db.operations ≡ some o)
      × (is_due now o ≡ true)
      × (is_projectable db o ≡ true)
      × (operation_by_id o.id (lease_due_sync owner now duration db).0.operations
          ≡ some (take_lease owner (now + duration) o))
unfolding lease_due_sync operation_by_id
leased_row owner now duration db o k e =
    let (found, after) = lease_row_inv owner now duration db _ o e in
    let row = earliest-by_id (is_candidate now db) db.operations o k found in
    let (due, ready) = &&-true _ _ (earliest-true (is_candidate now db) db.operations o found) in
    (
      row,
      due,
      ready,
      rw after (
          find-update_where (λ r. text_eq r.id o.id) (may_take now o)
            (take_lease owner (now + duration)) db.operations (λ _. refl)
          ∙ rw row (rw (may_take_self now o due) refl)),
    )

-- The row before and after its lease.
abbrev pub IsHandedOut : Text → ℕ → ℕ → Db → SynchronizationOperation → Db → Type 0
IsHandedOut owner now duration db o db' =
    (operation_by_id o.id db.operations ≡ some o)
    × IsDue now o
    × IsProjectable db o
    × (operation_by_id o.id db'.operations
        ≡ some (record o {
          state = leased;
          lease_owner = some owner;
          lease_expires_at = some (now + duration);
        }))

allocations-lease_row :
    (owner : Text) (now duration : ℕ) (db : Db) (selected : Option SynchronizationOperation)
    → (lease_row owner now duration db selected).0.allocations ≡ db.allocations
unfolding lease_row
allocations-lease_row owner now duration db none = refl
allocations-lease_row owner now duration db (some o) = ground arith

pub allocations-lease_due_sync :
    (owner : Text) (now duration : ℕ) (db : Db)
    → (lease_due_sync owner now duration db).0.allocations ≡ db.allocations
unfolding lease_due_sync
allocations-lease_due_sync owner now duration db = allocations-lease_row owner now duration db _
