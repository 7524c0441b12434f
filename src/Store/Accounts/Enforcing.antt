-- ===== src/Store/Accounts/Enforcing.antt =====
-- internal/persistence/sqlite/store_traffic.go, `CommitTrafficBatch`: the quota after an update.
use xpanel.Prelude.{
  ℕ, ◌+◌, ◌≡◌, inl, inr, refl, ap, ◌∙◌, Bool, true, some, arith, Bool-cases, Option-cases,
}
use xpanel.Prelude.Text.{Text}
use xpanel.Prelude.Int.{pos}
use xpanel.Domain.Errors.{ok, Result-cases}
use xpanel.Domain.User.{AccessAllocation, ManagedUser, exceeded}
use xpanel.Domain.Quota.{decide_transition, is_quota_exceeded}
use xpanel.Traffic.Update.{TrafficUpdate}
use xpanel.Store.Tables.{allocation_by_id, user_by_id}
use xpanel.Store.Intent.{apply_decision, decided, decided_anew}
use xpanel.Store.Intent.Deciding.{apply_decision_outcome}
use xpanel.Store.Accounts.{
  Books, Facts, PolicyRow, CycleRow, facts_from, read_facts, policy_of, open_cycle,
}
use xpanel.Store.Accounts.Batch.{write_traffic, must_block, block, commit_settled}

-- The facts are those of the rows that they are read from.
pub read_facts-inv :
    (id : Text) (b : Books) (f : Facts)
    → read_facts id b ≡ ok f
    → (a : AccessAllocation) × (u : ManagedUser) × (p : PolicyRow) × (c : CycleRow)
      × (allocation_by_id id b.db.allocations ≡ some a)
      × (policy_of id b ≡ some p)
      × (open_cycle id b ≡ some c)
      × (f ≡ facts_from a u p c)
unfolding read_facts
read_facts-inv id b f e = elim (Option-cases (allocation_by_id id b.db.allocations)) [
  | inl nothing ↦ absurd (ground (arith, e, nothing))
  | inr (a, y) ↦ elim (Option-cases (user_by_id a.user_id b.db.users)) [
    | inl nothing ↦ absurd (ground (arith, e, y, nothing))
    | inr (u, z) ↦ elim (Option-cases (policy_of id b)) [
      | inl nothing ↦ absurd (ground (arith, e, y, z, nothing))
      | inr (p, w) ↦ elim (Option-cases (open_cycle id b)) [
        | inl nothing ↦ absurd (ground (arith, e, y, z, w, nothing))
        | inr (c, v) ↦ (a, u, p, c, y, w, v, ground (arith, e, y, z, w, v))
      ]
    ]
  ]
]

read_facts-row :
    (id : Text) (b : Books) (f : Facts)
    → read_facts id b ≡ ok f
    → (a : AccessAllocation) × (allocation_by_id id b.db.allocations ≡ some a)
      × (f.facts.quota_state ≡ a.quota_state)
read_facts-row id b f e =
    let (a, u, p, c, row, _, _, same) = read_facts-inv id b f e in
    (a, row, ap (λ (g : Facts). g.facts.quota_state) same)

over-marks :
    (f : Facts) → (decide_transition f.facts f.facts.admin_enabled true).quota_state ≡ exceeded
unfolding decide_transition
over-marks f = refl

-- A block marks the allocation.
block-marks :
    (u : TrafficUpdate) (f : Facts) (now : ℕ) (b b' : Books) (a : AccessAllocation) (created : Bool)
    → allocation_by_id u.allocation_id b.db.allocations ≡ some a
    → block u f now b ≡ ok (b', created)
    → (a' : AccessAllocation) × (allocation_by_id u.allocation_id b'.db.allocations ≡ some a')
      × (a'.quota_state ≡ exceeded)
unfolding block
block-marks u f now b b' a created y e =
    let d = decide_transition f.facts f.facts.admin_enabled true in
    let r =
      apply_decision u.allocation_id f.facts d f.facts.admin_enabled (some u.quota_block) now
        b.db in
    elim (apply_decision_outcome u.allocation_id f.facts f.facts.admin_enabled true u.quota_block
      now b.db a y) [
        | inl (_, _, good, (_, _, _, _, _, _, _, _, _, _, row)) ↦
            let same : r.0.allocations ≡ b'.db.allocations = ground (arith, e, good) in
            (
              decided_anew f.facts.admin_enabled d (f.facts.desired_revision + 1) a,
              rw (← same) row,
              over-marks f,
            )
        | inr (inl (_, _, bad, _)) ↦ absurd (ground (arith, e, bad))
        | inr (inr (_, good, _, row)) ↦
            let same : r.0.allocations ≡ b'.db.allocations = ground (arith, e, good) in
            (decided f.facts.admin_enabled d a, rw (← same) row, over-marks f)
      ]

module _ (u : TrafficUpdate) (now : ℕ) (b b' : Books) (created : Bool) where
  -- After the writes of an update are committed, an allocation whose facts, as they can then be read,
  -- have reached the limit is marked as over its quota: no update leaves a limit reached and not acted on.
  pub commit_settled-enforces :
      (f : Facts)
      → commit_settled now u b ≡ ok (b', created)
      → read_facts u.allocation_id b' ≡ ok f
      → is_quota_exceeded f.limit (pos f.accounted_uplink) (pos f.accounted_downlink) ≡ true
      → f.facts.quota_state ≡ exceeded
  unfolding commit_settled
  commit_settled-enforces f e g over =
      let b1 = write_traffic u now b in
      elim (Result-cases (read_facts u.allocation_id b1)) [
        | inr (why, y) ↦ absurd (ground (arith, e, y))
        | inl (f1, y) ↦ elim (Bool-cases (must_block f1)) [
          | inr n ↦
              let same : b1 ≡ b' = ground (arith, e, y, n) in
              let same_facts : f1 ≡ f =
                ground (arith, y, g, ap (read_facts u.allocation_id) same) in
              ground (arith, n, over, same_facts)
          | inl m ↦
              let (a1, row1, _) = read_facts-row u.allocation_id b1 f1 y in
              let (a, row, marked) =
                block-marks u f1 now b1 b' a1 created row1 (ground (arith, e, y, m)) in
              let (a', row', state) = read_facts-row u.allocation_id b' f g in
              let same : a ≡ a' = ground (arith, row, row') in state ∙ rw (← same) marked
        ]
      ]
