-- ===== src/Store/Accounts/Commands/Clearing.antt =====
-- internal/persistence/sqlite/store_quota.go, `ResetCycleTraffic`: what a reset of the cycle leaves.
use xpanel.Prelude.{
  ◌≡◌, inl, inr, refl, sym, ap, ◌∙◌, Bool, true, false, ◌&&◌, some, arith, Bool-cases, Option-cases,
  any, ◌||◌, find, find-update_where, update_where,
}
use xpanel.Prelude.Text.{Text, text_eq, text_eq_refl}
use xpanel.Domain.Errors.{ok}
use xpanel.Domain.User.{within_limit}
use xpanel.Store.Tables.{AuditEvent}
use xpanel.Store.Users.{and_then}
use xpanel.Store.Users.Ports.{and_then-ok}
use xpanel.Store.Accounts.{
  Books, Facts, ResetRow, CycleRow, read_facts, policy_of, open_cycle, is_open_of, is_open_cycle,
  audited,
}
use xpanel.Store.Accounts.Enforcing.{read_facts-inv}
use xpanel.Store.Accounts.Commands.{
  decide, QuotaResetRecord, reset_row, cleared, clear_cycle, reset_body,
}
use xpanel.Store.Accounts.Commands.Judging.{decide-read}

-- The open cycle with its counted traffic set to zero.
clear_cycle-open :
    (e : ResetRow) (id : Text) (b b' : Books) (c : CycleRow)
    → clear_cycle e b ≡ ok b'
    → open_cycle id b ≡ some c
    → c.id ≡ e.cycle_id
    → open_cycle id b' ≡ some (cleared c)
unfolding clear_cycle open_cycle
clear_cycle-open e id b b' c h y one =
    let mine = λ (x : CycleRow). text_eq x.id e.cycle_id in
    let clash = any (λ x. text_eq x.id e.id || text_eq x.command_id e.command_id) b.resets in
    elim (Bool-cases clash) [
      | inl taken ↦ absurd (ground (arith, h, taken))
      | inr new ↦
          let rows : b'.cycles ≡ update_where mine cleared b.cycles = ground (arith, h, new) in
          let hit : mine c ≡ true = ap (λ t. text_eq t e.cycle_id) one ∙ text_eq_refl e.cycle_id in
          ap (find (is_open_of id)) rows
          ∙ find-update_where (is_open_of id) mine cleared b.cycles (λ _. refl)
          ∙ ground (arith, y, hit)
    ]

clear_cycle-keeps :
    (e : ResetRow) (b b' : Books)
    → clear_cycle e b ≡ ok b'
    → (b'.db ≡ b.db) × (b'.policies ≡ b.policies)
unfolding clear_cycle
clear_cycle-keeps e b b' h =
    let clash = any (λ x. text_eq x.id e.id || text_eq x.command_id e.command_id) b.resets in
    elim (Bool-cases clash) [
      | inl taken ↦ absurd (ground (arith, h, taken))
      | inr new ↦ (ground (arith, h, new), ground (arith, h, new))
    ]

-- The facts before and after the clearing.
clear_cycle-read :
    (e : ResetRow) (id : Text) (b b' : Books) (c : CycleRow) (f g : Facts)
    → clear_cycle e b ≡ ok b'
    → open_cycle id b ≡ some c
    → c.id ≡ e.cycle_id
    → read_facts id b ≡ ok f
    → read_facts id b' ≡ ok g
    → (g.accounted_uplink ≡ 0)
      × (g.accounted_downlink ≡ 0)
      × (g.facts.admin_enabled ≡ f.facts.admin_enabled)
      × (g.limit ≡ f.limit)
unfolding policy_of
clear_cycle-read e id b b' c f g h y one before after =
    let (db, policies) = clear_cycle-keeps e b b' h in
    let opened = clear_cycle-open e id b b' c h y one in
    let (a, _, p, _, row, prow, _, same) = read_facts-inv id b f before in
    let (a', _, p', c', row', prow', crow', same') = read_facts-inv id b' g after in
    let one_row : a' ≡ a = ground (arith, row, row', db) in
    let one_policy : p' ≡ p = ground (arith, prow, prow', policies) in
    let one_cycle : c' ≡ cleared c = ground (arith, opened, crow') in
    ground (arith, same, same', one_row, one_policy, one_cycle)

appended-read :
    (id : Text) (event : AuditEvent) (b : Books) → read_facts id (audited event b) ≡ read_facts id b
unfolding read_facts policy_of open_cycle
appended-read id event b = refl

-- The body of a reset, from the cycle and the cursor that it found.
clear_and_judge :
    (r : QuotaResetRecord) (e : ResetRow) (b b' : Books) (created : Bool) (c : CycleRow)
    (f g : Facts)
    → and_then {B = Books × Bool} (clear_cycle e b) (λ b1.
      and_then {B = Books × Bool} (read_facts r.allocation_id b1) λ f1.
        and_then {B = Books × Bool}
          (decide r.allocation_id f1 f1.facts.admin_enabled false r.operation_template r.now b1)
          λ d. ok (audited r.audit d.0, d.1))
      ≡ ok (b', created)
    → open_cycle r.allocation_id b ≡ some c
    → c.id ≡ e.cycle_id
    → read_facts r.allocation_id b ≡ ok f
    → read_facts r.allocation_id b' ≡ ok g
    → (g.facts.quota_state ≡ within_limit)
      × (g.accounted_uplink ≡ 0)
      × (g.accounted_downlink ≡ 0)
      × (g.facts.admin_enabled ≡ f.facts.admin_enabled)
      × (g.limit ≡ f.limit)
clear_and_judge r e b b' created c f g h y one now after =
    let id = r.allocation_id in
    let (b1, clear, h1) = and_then-ok (clear_cycle e b) _ (b', created) h in
    let (f1, before, h2) = and_then-ok (read_facts id b1) _ (b', created) h1 in
    let ((b2, c2), decision, h3) =
      and_then-ok (decide id f1 f1.facts.admin_enabled false r.operation_template r.now b1) _
        (b', created) h2 in
    let same : audited r.audit b2 ≡ b' = ground (arith, h3) in
    let after2 : read_facts id b2 ≡ ok g =
      sym (appended-read id r.audit b2) ∙ ap (read_facts id) same ∙ after in
    let (state, intent, limit, up, down) =
      decide-read id f1 f1.facts.admin_enabled false r.operation_template r.now b1 b2 c2 g before
        decision after2 in
    let (zero_up, zero_down, intent1, limit1) =
      clear_cycle-read e id b b1 c f f1 clear y one now before in
    (state, up ∙ zero_up, down ∙ zero_down, intent ∙ intent1, limit ∙ limit1)

-- After a reset of the open cycle that is committed, nothing is counted against the quota in that cycle, the
-- user is marked as within the limit, and the administrator's intent is as it was.
pub reset_cycle-clears :
    (r : QuotaResetRecord) (b b' : Books) (created : Bool) (c : CycleRow) (f g : Facts)
    → reset_body r b ≡ ok (b', created)
    → open_cycle r.allocation_id b ≡ some c
    → c.id ≡ r.cycle_id
    → read_facts r.allocation_id b ≡ ok f
    → read_facts r.allocation_id b' ≡ ok g
    → (g.facts.quota_state ≡ within_limit)
      × (g.accounted_uplink ≡ 0)
      × (g.accounted_downlink ≡ 0)
      × (g.facts.admin_enabled ≡ f.facts.admin_enabled)
      × (g.limit ≡ f.limit)
unfolding reset_body
reset_cycle-clears r b b' created c f g h y one now after =
    let of_id = λ (x : CycleRow). text_eq x.id r.cycle_id && is_open_cycle x.status in
    elim (Option-cases (find of_id b.cycles)) [
      | inl nothing ↦ absurd (ground (arith, h, nothing))
      | inr (d, z) ↦
          elim (Option-cases (find (λ x. text_eq x.allocation_id r.allocation_id) b.cursors)) [
            | inl nothing ↦ absurd (ground (arith, h, z, nothing))
            | inr (x, w) ↦
                clear_and_judge r (reset_row r d x.cursor.uplink_counter x.cursor.downlink_counter)
                  b b' created c f g (ground (arith, h, z, w)) y one now after
          ]
    ]
