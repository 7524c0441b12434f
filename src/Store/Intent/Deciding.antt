-- ===== src/Store/Intent/Deciding.antt =====
-- internal/persistence/sqlite/store_traffic.go, `applyDecision`, with internal/domain/quota.go.
use xpanel.Prelude.{
  ℕ, ◌+◌, ◌≡◌, ◌≢◌, ◌⊎◌, inl, inr, refl, sym, ap, none, ◌∙◌, Bool, true, false, some, arith, any,
  update_where, Bool-cases, find-update_where, find-true,
}
use xpanel.Prelude.Text.{Text, text_eq}
use xpanel.Domain.Errors.{Result, ok, err}
use xpanel.Domain.User.{AccessAllocation, ProjectionState}
use xpanel.Domain.Sync.{SynchronizationOperation, SyncState}
use xpanel.Domain.Quota.{AllocationFacts, TransitionDecision, decide_transition, needs_operation}
use xpanel.Store.Tables.{Db, allocation_by_id}
use xpanel.Store.Sync.{
  is_older, end_superseded, clashes, supersede_older, insert_operation, set_inbound_desired,
  unique_violation,
}
use xpanel.Store.Outcome.{set_allocation}
use xpanel.Store.Intent.{intended, decided, decided_anew, enqueue_decision, apply_decision}
use xpanel.Store.Intent.Superseding.{
  IsSparing, spared, IsLatest, IsInserted, is_taken, none_older, clash-free, inserted,
}

by_id-set_allocation :
    (id : Text) (f : AccessAllocation → AccessAllocation) (db : Db) (a : AccessAllocation)
    → ((p : AccessAllocation) → (f p).id ≡ p.id)
    → allocation_by_id id db.allocations ≡ some a
    → allocation_by_id id (set_allocation id f db).allocations ≡ some (f a)
unfolding allocation_by_id set_allocation
by_id-set_allocation id f db a keep e =
    find-update_where (λ r. text_eq r.id id) (λ r. text_eq r.id id) f db.allocations
      (λ p. ap (λ t. text_eq t id) (keep p))
    ∙ rw e (rw (find-true (λ r. text_eq r.id id) db.allocations a e) refl)

needs-was : (d : TransitionDecision) → needs_operation d ≡ true → d.was_present ≢ d.will_be_present
unfolding needs_operation
needs-was d h = ground arith

needs_not-was :
    (d : TransitionDecision) → needs_operation d ≡ false → d.was_present ≡ d.will_be_present
unfolding needs_operation
needs_not-was d h = ground arith

module _ (id : Text) (facts : AllocationFacts) (admin_enabled : Bool)
    (template : SynchronizationOperation) (now : ℕ) (db : Db) (a : AccessAllocation)
    (d : TransitionDecision) where
  abbrev next : ℕ
  next = facts.desired_revision + 1

  abbrev o : SynchronizationOperation
  o = intended id facts d template now

  -- The new intent is there, open and the latest, and the allocation wants it.
  abbrev IsIntended : Db → Type 0
  IsIntended db' =
      (i : SynchronizationOperation) × (i.id ≡ template.id)
      × (i.allocation_id ≡ id)
      × (i.desired_revision ≡ facts.desired_revision + 1)
      × (i.desired_presence ≡ d.will_be_present)
      × (i.state ≡ SyncState.pending)
      × (i.lease_owner ≡ none)
      × IsInserted i db'
      × IsLatest id (facts.desired_revision + 1) db'
      × IsSparing id (facts.desired_revision + 1) db db'
      × (allocation_by_id id db'.allocations
          ≡ some (record a {
            admin_enabled = admin_enabled;
            quota_state = d.quota_state;
            desired_revision = facts.desired_revision + 1;
            projection_state = ProjectionState.pending;
          }))

  -- The three outcomes of a decision.
  abbrev pub IsApplied : Db × Result Bool → Type 0
  IsApplied r =
      ((d.was_present ≢ d.will_be_present)
        × (is_taken template.id id (facts.desired_revision + 1) db ≡ false)
        × (r.1 ≡ ok true)
        × IsIntended r.0)
      ⊎ ((d.was_present ≢ d.will_be_present)
          × (is_taken template.id id (facts.desired_revision + 1) db ≡ true)
          × (r.1 ≡ err unique_violation)
          × (r.0 ≡ db))
      ⊎ ((d.was_present ≡ d.will_be_present)
          × (r.1 ≡ ok false)
          × (r.0.operations ≡ db.operations)
          × (allocation_by_id id r.0.allocations
              ≡ some (record a { admin_enabled = admin_enabled; quota_state = d.quota_state })))

  enqueue_decision-IsIntended :
      allocation_by_id id db.allocations ≡ some a
      → let r = enqueue_decision id facts d admin_enabled template now db in
        ((is_taken template.id id next db ≡ false) × (r.1 ≡ ok true) × IsIntended r.0)
        ⊎ ((is_taken template.id id next db ≡ true) × (r.1 ≡ err unique_violation) × (r.0 ≡ db))
  unfolding enqueue_decision insert_operation supersede_older set_inbound_desired intended
      set_allocation allocation_by_id
  enqueue_decision-IsIntended e =
      let os = update_where (is_older id next) (end_superseded now) db.operations in
      let free = clash-free o id next now db.operations in
      elim (Bool-cases (any (clashes o) os)) [
        | inl c ↦ inr (rw (c, enqueue_decision) (sym free ∙ c, refl, refl))
        | inr f ↦ inl (
            rw (f, enqueue_decision)
              (
                sym free ∙ f,
                refl,
                (
                  o,
                  refl,
                  refl,
                  refl,
                  refl,
                  refl,
                  refl,
                  inserted o os db f,
                  none_older id next now o db.operations refl,
                  spared id next now o db,
                  by_id-set_allocation id (decided_anew admin_enabled d next) db a (λ _. refl) e,
                ),
              ))
      ]

  apply_decision-IsApplied :
      allocation_by_id id db.allocations ≡ some a
      → IsApplied (apply_decision id facts d admin_enabled (some template) now db)
  unfolding apply_decision set_allocation
  apply_decision-IsApplied e = elim (Bool-cases (needs_operation d)) [
    | inl y ↦
        (let changed = needs-was d y in
          rw y (elim (enqueue_decision-IsIntended e) [
            | inl (free, r, done) ↦ inl (changed, free, r, done)
            | inr (taken, r, same) ↦ inr (inl (changed, taken, r, same))
          ]))
    | inr n ↦ inr (
        inr (
          rw (n, apply_decision)
            (
              needs_not-was d n,
              refl,
              refl,
              by_id-set_allocation id (decided admin_enabled d) db a (λ _. refl) e,
            )))
  ]

-- For an allocation's facts, an administrator's intent and a quota verdict: if the wanted presence changes,
-- and neither the template's id nor the allocation's next revision has an operation, the transaction stores
-- the one pending intent for that revision, with the new presence; every operation of the allocation for an
-- older revision has then succeeded or is superseded, every other is as it was, and the allocation wants the
-- next revision. If the id
-- or the revision has an operation, it fails and changes nothing. If the presence does not change, it
-- writes the administrator's intent and the verdict, and no operation.
pub apply_decision_outcome :
    (id : Text) (facts : AllocationFacts) (admin_enabled over : Bool)
    (template : SynchronizationOperation) (now : ℕ) (db : Db) (a : AccessAllocation)
    → allocation_by_id id db.allocations ≡ some a
    → let d = decide_transition facts admin_enabled over in
      IsApplied id facts admin_enabled template now db a d
        (apply_decision id facts d admin_enabled (some template) now db)
apply_decision_outcome id facts admin_enabled over template now db a e =
    apply_decision-IsApplied id facts admin_enabled template now db a
      (decide_transition facts admin_enabled over) e
