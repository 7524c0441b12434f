-- ===== src/Domain/Quota.antt =====
-- internal/domain/quota.go: the quota policy, the limit test with its overflow check, and the decision
-- that turns a change of facts into a quota state and a synchronization intent.
pub mod Laws
use xpanel.Prelude.{
  ℕ, zero, suc, ◌+◌, ◌-◌, ◌^◌, Bool, true, false, not, ◌&&◌, ◌||◌, Option, none, some, ltb, leb,
  if◌then◌else◌, Bool_eq,
}
use xpanel.Prelude.Int.{ℤ, pos, negsuc, ◌+ℤ◌, ◌-ℤ◌, ltb_ℤ, leb_ℤ}
use xpanel.Domain.Errors.{Result, ok, err, validation_error}
use xpanel.Domain.User.{
  LifecycleState, QuotaState, within_limit, exceeded, is_active, is_within_limit,
}
use xpanel.Domain.Sync.{
  SyncReason, SyncPhase, enable, disable, quota_block, quota_restore, inbound_phase_for,
}

abbrev pub max_limit_bytes : ℤ
max_limit_bytes = pos (2 ^ 62)

abbrev pub max_int64 : ℤ
max_int64 = pos (2 ^ 63 - 1)

abbrev out_of_range : Option ℤ → Bool
out_of_range none = false
out_of_range (some limit) = leb_ℤ limit (pos 0) || ltb_ℤ max_limit_bytes limit

unfoldable pub validate_quota_policy : Option ℤ → ℤ → Result (Unit {0})
validate_quota_policy limit reset_day =
    if ltb_ℤ reset_day (pos 1) || ltb_ℤ (pos 28) reset_day
    then err (validation_error "reset_day" "reset day must be between 1 and 28")
    else if out_of_range limit
    then err (validation_error "limit_bytes" "quota must be positive and at most 2^62 bytes")
    else ok tt

-- `addBytes`: the sum, and whether it overflows. The subtraction is reached only for `b ≥ 0`, where it
-- stays in range.
unfoldable pub add_bytes : ℤ → ℤ → ℤ × Bool
add_bytes a b =
    if ltb_ℤ a (pos 0) || ltb_ℤ b (pos 0)
    then (pos 0, true)
    else if ltb_ℤ (max_int64 -ℤ b) a
    then (pos 0, true)
    else (a +ℤ b, false)

unfoldable pub is_quota_exceeded : Option ℤ → ℤ → ℤ → Bool
unfolding add_bytes
is_quota_exceeded none uplink downlink = false
is_quota_exceeded (some limit) uplink downlink =
    let (total, overflow) = add_bytes uplink downlink in
    if overflow then true else leb_ℤ limit total

-- `AddDelta` of internal/domain/traffic.go.
unfoldable pub add_delta : ℤ → ℤ → Option ℤ
unfolding add_bytes
add_delta base delta =
    let (total, overflow) = add_bytes base delta in if overflow then none else some total

pub record AllocationFacts : Type 0 where
  pub lifecycle : LifecycleState
  pub admin_enabled : Bool
  pub quota_state : QuotaState
  pub desired_revision : ℕ
  pub desired_credential_version : ℕ

-- `Reason` and `Phase` are none where Go leaves the empty string.
pub record TransitionDecision : Type 0 where
  pub quota_state : QuotaState
  pub was_present : Bool
  pub will_be_present : Bool
  pub reason : Option SyncReason
  pub phase : Option SyncPhase

unfoldable pub needs_operation : TransitionDecision → Bool
needs_operation d = not (Bool_eq d.was_present d.will_be_present)

abbrev quota_of : Bool → QuotaState
quota_of true = exceeded
quota_of false = within_limit

-- The `switch`: the reason and the phase that go with a change of presence.
abbrev intent : AllocationFacts → Bool → Bool → Bool → Bool → Option SyncReason × Option SyncPhase
intent before admin_enabled over was will =
    if was && not will
    then (
      some (
          if over && is_within_limit before.quota_state && admin_enabled
          then quota_block
          else disable),
      some (inbound_phase_for false),
    )
    else if not was && will
    then (
      some (
          if not (is_within_limit before.quota_state)
            && not over
            && before.admin_enabled
            && admin_enabled
          then quota_restore
          else enable),
      some (inbound_phase_for true),
    )
    else (none, none)

unfoldable pub decide_transition : AllocationFacts → Bool → Bool → TransitionDecision
unfolding inbound_phase_for
decide_transition before admin_enabled over =
    let quota = quota_of over in
    let live = is_active before.lifecycle in
    let was = live && before.admin_enabled && is_within_limit before.quota_state in
    let will = live && admin_enabled && is_within_limit quota in
    let chosen = intent before admin_enabled over was will in
    record {
      quota_state = quota;
      was_present = was;
      will_be_present = will;
      reason = chosen.0;
      phase = chosen.1;
    }
