-- ===== src/Store/Accounts/Commands/Judging.antt =====
-- internal/persistence/sqlite/store_quota.go: the verdict on the quota after a command.
use xpanel.Prelude.{
  ℕ, ◌+◌, ◌≡◌, inl, inr, refl, sym, ap, ◌∙◌, Bool, true, false, Option, List, some, none, arith,
  Option-cases, find, find-true, find-update_where, update_where, if◌then◌else◌,
}
use xpanel.Prelude.Text.{Text, text_eq}
use xpanel.Prelude.Int.{ℤ}
use xpanel.Domain.Errors.{ok, Result-cases}
use xpanel.Domain.User.{AccessAllocation, QuotaState, exceeded, within_limit, is_within_limit}
use xpanel.Domain.Sync.{SynchronizationOperation}
use xpanel.Domain.Quota.{AllocationFacts, decide_transition, validate_quota_policy}
use xpanel.Store.Tables.{AuditEvent, allocation_by_id}
use xpanel.Store.Intent.{apply_decision, decided, decided_anew}
use xpanel.Store.Intent.Deciding.{apply_decision_outcome}
use xpanel.Store.Users.{touch_user}
use xpanel.Store.Users.Ports.{and_then-ok, touch_user-keeps}
use xpanel.Store.Accounts.{Books, Facts, PolicyRow, read_facts, policy_of, open_cycle}
use xpanel.Store.Accounts.Enforcing.{read_facts-inv}
use xpanel.Store.Accounts.Commands.{
  decide, UserUpdateRecord, rename, allocation_of, set_policy, audit_quota, apply_policy,
  update_body, over_of, with_audits,
}

abbrev pub verdict : Bool → QuotaState
verdict over = if over then exceeded else within_limit

verdict-kept :
    (f : AllocationFacts) (admin over : Bool)
    → (decide_transition f admin over).quota_state ≡ verdict over
unfolding decide_transition
verdict-kept f admin true = refl
verdict-kept f admin false = refl

-- What a decision leaves of the allocation; policies and cycles are as they were.
decide-marks :
    (id : Text) (f : Facts) (admin over : Bool) (o : SynchronizationOperation) (now : ℕ)
    (b b' : Books) (created : Bool) (a : AccessAllocation)
    → allocation_by_id id b.db.allocations ≡ some a
    → decide id f admin over o now b ≡ ok (b', created)
    → (b'.policies ≡ b.policies)
      × (b'.cycles ≡ b.cycles)
      × (a' : AccessAllocation) × (allocation_by_id id b'.db.allocations ≡ some a')
      × (a'.quota_state ≡ verdict over)
      × (a'.admin_enabled ≡ admin)
unfolding decide
decide-marks id f admin over o now b b' created a y e =
    let d = decide_transition f.facts admin over in
    let r = apply_decision id f.facts d admin (some o) now b.db in
    elim (apply_decision_outcome id f.facts admin over o now b.db a y) [
      | inl (_, _, good, (_, _, _, _, _, _, _, _, _, _, row)) ↦
          let same : record b { db = r.0 } ≡ b' = ground (arith, e, good) in
          (
            ap (λ (x : Books). x.policies) (sym same),
            ap (λ (x : Books). x.cycles) (sym same),
            decided_anew admin d (f.facts.desired_revision + 1) a,
            rw (← same) row,
            verdict-kept f.facts admin over,
            refl,
          )
      | inr (inl (_, _, bad, _)) ↦ absurd (ground (arith, e, bad))
      | inr (inr (_, good, _, row)) ↦
          let same : record b { db = r.0 } ≡ b' = ground (arith, e, good) in
          (
            ap (λ (x : Books). x.policies) (sym same),
            ap (λ (x : Books). x.cycles) (sym same),
            decided admin d a,
            rw (← same) row,
            verdict-kept f.facts admin over,
            refl,
          )
    ]

-- The facts read after a decision: its verdict and intent, and the policy and sums it was made on.
pub decide-read :
    (id : Text) (f : Facts) (admin over : Bool) (o : SynchronizationOperation) (now : ℕ)
    (b b' : Books) (created : Bool) (g : Facts)
    → read_facts id b ≡ ok f
    → decide id f admin over o now b ≡ ok (b', created)
    → read_facts id b' ≡ ok g
    → (g.facts.quota_state ≡ verdict over)
      × (g.facts.admin_enabled ≡ admin)
      × (g.limit ≡ f.limit)
      × (g.accounted_uplink ≡ f.accounted_uplink)
      × (g.accounted_downlink ≡ f.accounted_downlink)
unfolding policy_of open_cycle
decide-read id f admin over o now b b' created g before e after =
    let (a, u, p, c, row, prow, crow, same) = read_facts-inv id b f before in
    let (a', u', p', c', row', prow', crow', same') = read_facts-inv id b' g after in
    let (policies, cycles, a'', row'', state, intent) =
      decide-marks id f admin over o now b b' created a row e in
    let one_row : a' ≡ a'' = ground (arith, row', row'') in
    let one_policy : p' ≡ p = ground (arith, prow, prow', policies) in
    let one_cycle : c' ≡ c = ground (arith, crow, crow', cycles) in
    ground (arith, same, same', one_row, one_policy, one_cycle, state, intent)

-- The policy that an update leaves.
set_policy-limit :
    (id : Text) (limit : Option ℤ) (day : ℤ) (b b' : Books) (p : PolicyRow)
    → set_policy id limit day b ≡ ok b'
    → policy_of id b' ≡ some p
    → p.limit_bytes ≡ limit
unfolding set_policy policy_of
set_policy-limit id limit day b b' p e y = elim (Result-cases (validate_quota_policy limit day)) [
  | inr (why, z) ↦ absurd (ground (arith, e, z))
  | inl (_, z) ↦
      let mine = λ (r : PolicyRow). text_eq r.allocation_id id in
      let change = λ (r : PolicyRow). record r { limit_bytes = limit; reset_day = day } in
      let rows : b'.policies ≡ update_where mine change b.policies = ground (arith, e, z) in
      let found = find-update_where mine mine change b.policies (λ _. refl) in
      elim (Option-cases (find mine b.policies)) [
        | inl nothing ↦ absurd (ground (arith, y, rows, found, nothing))
        | inr (r, x) ↦
            let hit = find-true mine b.policies r x in ground (arith, y, rows, found, x, hit)
      ]
]

audited-read :
    (id : Text) (target : Option Text) (over within : Bool) (events : List AuditEvent) (b : Books)
    → read_facts id (with_audits events (audit_quota target over within b)) ≡ read_facts id b
unfolding read_facts policy_of open_cycle audit_quota
audited-read id none over within events b = refl
audited-read id (some target) true true events b = refl
audited-read id (some target) true false events b = refl
audited-read id (some target) false true events b = refl
audited-read id (some target) false false events b = refl

rename-keeps :
    (r : UserUpdateRecord) (b b' : Books)
    → rename r b ≡ ok b'
    → allocation_of r.user_id b' ≡ allocation_of r.user_id b
unfolding rename allocation_of
rename-keeps r b b' h =
    let (db, touched, h') =
      and_then-ok (touch_user r.user_id r.expected_revision (λ u. u) b.db) _ b' h in
    let (_, rows, _) = touch_user-keeps r.user_id r.expected_revision (λ u. u) b.db db touched in
    ground (arith, h', rows)

apply_policy-judges :
    (id : Text) (r : UserUpdateRecord) (b0 b' : Books) (created : Bool) (g : Facts)
    → apply_policy id r b0 ≡ ok (b', created)
    → read_facts id b' ≡ ok g
    → (g.facts.quota_state ≡ verdict (over_of g))
      × (g.facts.admin_enabled ≡ r.admin_enabled)
      × (g.limit ≡ r.limit_bytes)
unfolding apply_policy
apply_policy-judges id r b0 b' created g h after =
    let (b1, policy, h2) =
      and_then-ok (set_policy id r.limit_bytes r.reset_day b0) _ (b', created) h in
    let (f, before, h3) = and_then-ok (read_facts id b1) _ (b', created) h2 in
    let ((b2, c2), decision, h4) =
      and_then-ok (decide id f r.admin_enabled (over_of f) r.operation_template r.now b1) _
        (b', created) h3 in
    let same : with_audits r.audits
          (audit_quota r.quota_audit (over_of f) (is_within_limit f.facts.quota_state) b2)
        ≡ b' =
      ground (arith, h4) in
    let after2 : read_facts id b2 ≡ ok g =
      sym (
        audited-read id r.quota_audit (over_of f) (is_within_limit f.facts.quota_state) r.audits b2)
      ∙ ap (read_facts id) same
      ∙ after in
    let (state, intent, limit, up, down) =
      decide-read id f r.admin_enabled (over_of f) r.operation_template r.now b1 b2 c2 g before
        decision after2 in
    let (_, _, p, _, _, prow, _, facts) = read_facts-inv id b1 f before in
    let judged : over_of f ≡ over_of g = ground (arith, limit, up, down) in
    (
      state ∙ ap verdict judged,
      intent,
      limit
          ∙ ap (λ (x : Facts). x.limit) facts
          ∙ set_policy-limit id r.limit_bytes r.reset_day b0 b1 p policy prow,
    )

-- After an update of a user that is committed, the user's limit and the administrator's intent are the ones
-- of the update, and the user is marked as over the quota exactly if the usage counted so far reaches that
-- limit: no change of a limit leaves a stale verdict.
pub update_user-judges :
    (r : UserUpdateRecord) (b b' : Books) (created : Bool) (id : Text) (g : Facts)
    → update_body r b ≡ ok (b', created)
    → allocation_of r.user_id b ≡ some id
    → read_facts id b' ≡ ok g
    → (g.facts.quota_state ≡ verdict (over_of g))
      × (g.facts.admin_enabled ≡ r.admin_enabled)
      × (g.limit ≡ r.limit_bytes)
unfolding update_body
update_user-judges r b b' created id g h y after =
    let (b0, renamed, h0) = and_then-ok (rename r b) _ (b', created) h in
    let mine : allocation_of r.user_id b0 ≡ some id = rename-keeps r b b0 renamed ∙ y in
    apply_policy-judges id r b0 b' created g (ground (arith, h0, mine)) after
