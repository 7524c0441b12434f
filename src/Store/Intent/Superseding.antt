-- ===== src/Store/Intent/Superseding.antt =====
-- internal/persistence/sqlite/store_sync.go, `EnqueueReconcile`, and the end of older operations.
use xpanel.Prelude.{
  ℕ, ◌≡◌, ◌≢◌, ◌≤◌, ◌<◌, ◌⊎◌, inl, inr, refl, sym, ◌∙◌, Bool, true, false, ◌&&◌, ◌||◌, List, [],
  ◌∷◌, ◌++◌, some, arith, ◌==◌, count_if, any, find, update_where, All, Bool-cases,
  find-update_where, find-true, if◌then◌else◌,
}
use xpanel.Prelude.Text.{Text, text_eq, text_eq_refl, text_ne}
use xpanel.Domain.Errors.{Result, ok, err}
use xpanel.Domain.User.{AccessAllocation, ProjectionState}
use xpanel.Domain.Sync.{
  SynchronizationOperation, SyncState, leased, retry_wait, succeeded, superseded, permanent_failed,
}
use xpanel.Store.Tables.{Db, allocation_by_id, operation_by_id}
use xpanel.Store.Sync.{
  is_older, is_open_or_failed, end_superseded, clashes, supersede_older, insert_operation,
  set_inbound_desired, unique_violation,
}
use xpanel.Store.Intent.{is_at, wanting, with_revision, enqueue_reconcile}

-- Every operation of the allocation for an older revision has succeeded or is superseded.
abbrev pub IsLatest : Text → ℕ → Db → Type 0
IsLatest id revision db =
    All
      (λ o.
        o.allocation_id ≡ id
        → o.desired_revision < revision
        → (o.state ≡ succeeded) ⊎ (o.state ≡ superseded))
      db.operations

-- An operation of another allocation, or for no older revision, is as it was.
abbrev pub IsSparing : Text → ℕ → Db → Db → Type 0
IsSparing id revision db db' =
    (row : Text) (p : SynchronizationOperation)
    → operation_by_id row db.operations ≡ some p
    → (p.allocation_id ≢ id) ⊎ (revision ≤ p.desired_revision)
    → operation_by_id row db'.operations ≡ some p

-- The intent is stored as it is, the one row under its id, and under its allocation and revision.
abbrev pub IsInserted : SynchronizationOperation → Db → Type 0
IsInserted o db =
    (operation_by_id o.id db.operations ≡ some o)
    × (count_if (λ p. text_eq p.id o.id) db.operations ≡ 1)
    × (count_if
          (λ p. text_eq p.allocation_id o.allocation_id && p.desired_revision == o.desired_revision)
          db.operations
        ≡ 1)

-- The id, or the revision of the allocation, has a row.
abbrev pub is_taken : Text → Text → ℕ → Db → Bool
is_taken row id revision db =
    any (λ p. text_eq p.id row || (text_eq p.allocation_id id && p.desired_revision == revision))
      db.operations

closed : (s : SyncState) → is_open_or_failed s ≡ false → (s ≡ succeeded) ⊎ (s ≡ superseded)
closed SyncState.pending h = cc
closed leased h = cc
closed retry_wait h = cc
closed succeeded h = inl refl
closed superseded h = inr refl
closed permanent_failed h = cc

not_older-closed :
    (id : Text) (revision : ℕ) (p : SynchronizationOperation)
    → is_older id revision p ≡ false
    → p.allocation_id ≡ id
    → p.desired_revision < revision
    → (p.state ≡ succeeded) ⊎ (p.state ≡ superseded)
not_older-closed id revision p h own less =
    let here : text_eq p.allocation_id id ≡ true = rw own (text_eq_refl id) in
    closed p.state (ground (arith, h, here, less))

pub none_older :
    (id : Text) (revision now : ℕ) (o : SynchronizationOperation)
    (os : List SynchronizationOperation)
    → o.desired_revision ≡ revision
    → All
        (λ p.
          p.allocation_id ≡ id
          → p.desired_revision < revision
          → (p.state ≡ succeeded) ⊎ (p.state ≡ superseded))
        (update_where (is_older id revision) (end_superseded now) os ++ o ∷ [])
unfolding update_where
none_older id revision now o [] e = ((λ own less. absurd (omega (arith, e, less))), tt)
none_older id revision now o (p ∷ os) e = elim (Bool-cases (is_older id revision p)) [
  | inl y ↦ rw y ((λ own less. inr refl), none_older id revision now o os e)
  | inr n ↦ rw n (not_older-closed id revision p n, none_older id revision now o os e)
]

find-append :
    {A : Type 0} (q : A → Bool) (xs ys : List A) (x : A)
    → find q xs ≡ some x
    → find q (xs ++ ys) ≡ some x
unfolding find
find-append q [] ys x h = absurd (ground (arith, h))
find-append q (y ∷ xs) ys x h = ground (arith, h, find-append q xs ys x)

not_older :
    (id : Text) (revision : ℕ) (p : SynchronizationOperation)
    → (p.allocation_id ≢ id) ⊎ (revision ≤ p.desired_revision)
    → is_older id revision p ≡ false
not_older id revision p (inl other) = let n = text_ne p.allocation_id id other in ground (arith, n)
not_older id revision p (inr late) = ground (arith, late)

pub spared :
    (id : Text) (revision now : ℕ) (o : SynchronizationOperation) (db : Db)
    → IsSparing id revision db (record db {
      operations = update_where (is_older id revision) (end_superseded now) db.operations ++ o ∷ [];
    })
unfolding operation_by_id
spared id revision now o db row p h k =
    find-append (λ r. text_eq r.id row)
      (update_where (is_older id revision) (end_superseded now) db.operations) (o ∷ []) p
      (find-update_where (λ r. text_eq r.id row) (is_older id revision) (end_superseded now)
          db.operations (λ _. refl)
        ∙ rw h (rw (not_older id revision p k) refl))

pub clash-free :
    (o : SynchronizationOperation) (id : Text) (revision now : ℕ)
    (os : List SynchronizationOperation)
    → any (clashes o) (update_where (is_older id revision) (end_superseded now) os)
      ≡ any (clashes o) os
unfolding update_where
clash-free o id revision now [] = refl
clash-free o id revision now (p ∷ os) =
    let rest = clash-free o id revision now os in
    elim (Bool-cases (is_older id revision p)) [
      | inl y ↦ rw (y, rest) refl
      | inr n ↦ rw (n, rest) refl
    ]

find-inserted :
    (o : SynchronizationOperation) (os : List SynchronizationOperation)
    → any (clashes o) os ≡ false
    → find (λ p. text_eq p.id o.id) (os ++ o ∷ []) ≡ some o
unfolding find
find-inserted o [] h = rw (text_eq_refl o.id) refl
find-inserted o (p ∷ os) h = ground (arith, h, find-inserted o os)

pub inserted :
    (o : SynchronizationOperation) (os : List SynchronizationOperation) (db : Db)
    → any (clashes o) os ≡ false
    → IsInserted o (record db { operations = os ++ o ∷ [] })
unfolding operation_by_id
inserted o os db h = (find-inserted o os h, by_id os h, by_revision os h)
  where
    by_id :
        (xs : List SynchronizationOperation)
        → any (clashes o) xs ≡ false
        → count_if (λ p. text_eq p.id o.id) (xs ++ o ∷ []) ≡ 1
    by_id [] h = ground (arith, text_eq_refl o.id)
    by_id (p ∷ xs) h = ground (arith, h, by_id xs)

    by_revision :
        (xs : List SynchronizationOperation)
        → any (clashes o) xs ≡ false
        → count_if
            (λ p.
              text_eq p.allocation_id o.allocation_id && p.desired_revision == o.desired_revision)
            (xs ++ o ∷ [])
          ≡ 1
    by_revision [] h = ground (arith, text_eq_refl o.allocation_id)
    by_revision (p ∷ xs) h = ground (arith, h, by_revision xs)

none_at :
    (id : Text) (expected : ℕ) (rows : List AccessAllocation)
    → count_if (λ r. text_eq r.id id) rows ≡ 0
    → count_if (is_at id expected) rows ≡ 0
none_at id expected [] h = refl
none_at id expected (r ∷ rows) h = ground (arith, h, none_at id expected rows)

-- The row of an id that no other row has is counted when it is at the revision.
at_expected :
    (id : Text) (expected : ℕ) (rows : List AccessAllocation) (a : AccessAllocation)
    → find (λ r. text_eq r.id id) rows ≡ some a
    → count_if (λ r. text_eq r.id id) rows ≤ 1
    → count_if (is_at id expected) rows ≡ (if a.desired_revision == expected then 1 else 0)
unfolding find
at_expected id expected [] a e one = absurd (ground (arith, e))
at_expected id expected (r ∷ rows) a e one = elim (Bool-cases (text_eq r.id id)) [
  | inl here ↦
      let same : r ≡ a = ground (arith, e, here) in
      let rest : count_if (is_at id expected) rows ≡ 0 =
        none_at id expected rows (ground (arith, one, here)) in
      rw (here, rest) (rw same refl)
  | inr other ↦
      rw other
        (at_expected id expected rows a (ground (arith, e, other)) (ground (arith, one, other)))
]

-- What the reconciler's call leads to.
abbrev pub IsReconciled :
    Text → ℕ → SynchronizationOperation → Db → AccessAllocation → Db × Result Bool → Type 0
IsReconciled id expected o db a r =
    ((a.desired_revision ≡ expected)
      × (is_taken o.id o.allocation_id o.desired_revision db ≡ false)
      × (r.1 ≡ ok true)
      × IsLatest id o.desired_revision r.0
      × IsSparing id o.desired_revision db r.0
      × IsInserted o r.0
      × (allocation_by_id id r.0.allocations
          ≡ some (record a {
            desired_revision = o.desired_revision;
            projection_state = ProjectionState.pending;
          })))
    ⊎ ((a.desired_revision ≡ expected)
        × (is_taken o.id o.allocation_id o.desired_revision db ≡ true)
        × (r ≡ (db, err unique_violation)))
    ⊎ ((a.desired_revision ≢ expected) × (r ≡ (db, ok false)))

-- If no two allocations have the same id, the reconciler's call does one of three things. If the
-- allocation is at the expected revision, and neither the new intent's id nor its revision has a row, the
-- intent is stored as the one row under both, every operation of the allocation for an older revision has
-- succeeded or is superseded, every other is as it was, and the allocation wants the intent's revision and is
-- pending. If the id or
-- the revision has a row, it fails and changes nothing. If the allocation is at another revision, it
-- answers that it queued nothing, and changes nothing.
pub enqueue_reconcile_outcome :
    (id : Text) (expected : ℕ) (o : SynchronizationOperation) (now : ℕ) (db : Db)
    (a : AccessAllocation)
    → allocation_by_id id db.allocations ≡ some a
    → count_if (λ r. text_eq r.id id) db.allocations ≤ 1
    → IsReconciled id expected o db a (enqueue_reconcile id expected o now db)
unfolding enqueue_reconcile insert_operation supersede_older set_inbound_desired allocation_by_id
enqueue_reconcile_outcome id expected o now db a e one =
    let os = update_where (is_older id o.desired_revision) (end_superseded now) db.operations in
    let counted = at_expected id expected db.allocations a e one in
    let free = clash-free o id o.desired_revision now db.operations in
    elim (Bool-cases (a.desired_revision == expected)) [
      | inr n ↦
          let missed : count_if (is_at id expected) db.allocations ≡ 0 =
            ground (arith, counted, n) in
          inr (inr (ground (arith, n), rw missed refl))
      | inl y ↦
          let found : count_if (is_at id expected) db.allocations ≡ 1 =
            ground (arith, counted, y) in
          let here : is_at id expected a ≡ true =
            ground (arith, y, find-true (λ r. text_eq r.id id) db.allocations a e) in
          let moved : allocation_by_id id
                (with_revision id expected o.desired_revision db).allocations
              ≡ some (wanting o.desired_revision a) =
            find-update_where (λ r. text_eq r.id id) (is_at id expected)
              (wanting o.desired_revision) db.allocations (λ _. refl)
            ∙ rw e (rw here refl) in
          elim (Bool-cases (any (clashes o) os)) [
            | inl c ↦ inr (inl (ground (arith, y), sym free ∙ c, rw (found, c) refl))
            | inr f ↦ inl (
                rw (found, f)
                  (
                    ground (arith, y),
                    sym free ∙ f,
                    refl,
                    none_older id o.desired_revision now o db.operations refl,
                    spared id o.desired_revision now o db,
                    inserted o os db f,
                    moved,
                  ))
          ]
    ]
