-- ===== src/Domain/Quota/Laws.antt =====
-- internal/domain/quota.go: the limit test and the decision, against plain descriptions of them.
use xpanel.Prelude.{
  if◌then◌else◌, ℕ, ◌+◌, ◌^◌, ◌≤◌, ◌≡◌, ◌≢◌, ◌↔◌, ◌⊎◌, refl, Bool, true, false, none, some, arith,
}
use xpanel.Prelude.Int.{ℤ, pos, ◌+ℤ◌, ◌≤ℤ◌, ◌<ℤ◌}
use xpanel.Domain.Errors.{ok}
use xpanel.Domain.User.{LifecycleState, within_limit, exceeded, inbound_desired_present}
use xpanel.Domain.Sync.{quota_block, quota_restore, inbound_phase_for}
use xpanel.Domain.Quota.{
  max_int64, max_limit_bytes, validate_quota_policy, add_bytes, is_quota_exceeded, AllocationFacts,
  needs_operation, decide_transition,
}

-- A policy is accepted exactly when the reset day is 1 to 28 and the limit, if there is one, is
-- positive and at most 2^62.
pub validate_quota_policy_iff :
    (limit : ℤ) (reset_day : ℤ)
    → ((validate_quota_policy (some limit) reset_day ≡ ok tt) ↔ (
        (pos 1 ≤ℤ reset_day)
        × (reset_day ≤ℤ pos 28)
        × (pos 0 <ℤ limit)
        × (limit ≤ℤ max_limit_bytes)))
      × ((validate_quota_policy none reset_day ≡ ok tt)
          ↔ ((pos 1 ≤ℤ reset_day) × (reset_day ≤ℤ pos 28)))
unfolding validate_quota_policy
validate_quota_policy_iff limit reset_day =
    (((λ h. ground arith), λ h. ground arith), ((λ h. ground arith), λ h. ground arith))

-- For any two integers the sum is reported as overflowing exactly when one is negative or the true sum
-- exceeds the int64 range, and is otherwise the true sum.
pub add_bytes_exact :
    (a b : ℤ)
    → (((add_bytes a b).1 ≡ true) ↔ ((a <ℤ pos 0) ⊎ (b <ℤ pos 0) ⊎ (max_int64 <ℤ a +ℤ b)))
      × ((add_bytes a b).1 ≡ false → (add_bytes a b).0 ≡ a +ℤ b)
unfolding add_bytes
add_bytes_exact a b = (((λ h. ground arith), λ h. ground arith), λ h. ground arith)

-- For byte counts that are not negative, a limited quota is exceeded exactly when the true sum reaches
-- the limit, even where the sum does not fit in an int64; an unlimited one never is.
pub is_quota_exceeded_iff :
    (limit : ℕ) (uplink downlink : ℕ)
    → limit ≤ 2 ^ 62
    → ((is_quota_exceeded (some (pos limit)) (pos uplink) (pos downlink) ≡ true)
        ↔ (limit ≤ uplink + downlink))
      × (is_quota_exceeded none (pos uplink) (pos downlink) ≡ false)
unfolding is_quota_exceeded
is_quota_exceeded_iff limit uplink downlink h = (((λ e. ground arith), λ e. ground arith), refl)

-- For every state of the facts, the new quota state is the verdict that was given, the new presence is the
-- truth table's value at that verdict and the new administrator's intent, the old presence its value at
-- the old ones, an operation is needed exactly when the two differ, and then the phase is that of the new
-- presence.
pub decide_transition_table :
    (before : AllocationFacts) (admin_enabled over : Bool)
    → let d = decide_transition before admin_enabled over in
      (d.quota_state ≡ (if over then exceeded else within_limit))
      × (d.will_be_present
          ≡ inbound_desired_present before.lifecycle admin_enabled
              (if over then exceeded else within_limit))
      × (d.was_present
          ≡ inbound_desired_present before.lifecycle before.admin_enabled before.quota_state)
      × ((needs_operation d ≡ true) ↔ (d.was_present ≢ d.will_be_present))
      × (needs_operation d ≡ true → d.phase ≡ some (inbound_phase_for d.will_be_present))
unfolding decide_transition inbound_desired_present needs_operation
decide_transition_table before admin_enabled over = (
  ground arith,
  ground arith,
  ground arith,
  ((λ h. ground arith), λ h. ground arith),
  λ h. ground arith,
)

-- The reason of an intent names its cause: a block only while the administrator keeps the user
-- enabled and the quota has just been exceeded, a restore only while the administrator had and keeps
-- the user enabled and the quota has just been regained.
pub decide_transition_reasons :
    (before : AllocationFacts) (admin_enabled over : Bool)
    → let d = decide_transition before admin_enabled over in
      ((d.reason ≡ some quota_block) ↔ (
        (before.lifecycle ≡ LifecycleState.active)
        × (before.admin_enabled ≡ true)
        × (before.quota_state ≡ within_limit)
        × (admin_enabled ≡ true)
        × (over ≡ true)))
      × ((d.reason ≡ some quota_restore) ↔ (
          (before.lifecycle ≡ LifecycleState.active)
          × (before.admin_enabled ≡ true)
          × (before.quota_state ≡ exceeded)
          × (admin_enabled ≡ true)
          × (over ≡ false)))
unfolding decide_transition
decide_transition_reasons before admin_enabled over =
    (((λ h. ground arith), λ h. ground arith), ((λ h. ground arith), λ h. ground arith))
