-- ===== src/Domain/Tests.antt =====
-- Runs of internal/domain on concrete values, and the laws applied to them.
use xpanel.Prelude.{
  ℕ, ◌+◌, ◌-◌, ◌*◌, ◌^◌, ◌≤◌, ◌<◌, ◌≡◌, ◌≢◌, ◌↔◌, refl, arith, true, false, List, [], ◌∷◌, none,
  some, All, count_if, length, min, contains,
}
use xpanel.Prelude.Text.{Text, codes, has_prefix}
use xpanel.Prelude.Int.{ℤ, pos, negsuc, ◌≤ℤ◌, ◌<ℤ◌}
use xpanel.Domain.Errors.{Error, ok, err}
use xpanel.Domain.User.{
  exceeded, LifecycleState, ProjectionState, within_limit, ManagedUser, AccessAllocation,
  AccessCredential, CredentialState, inbound_desired_present, validate_credential_set,
}
use xpanel.Domain.User.Laws.{IsSound, is_pending, is_activated, validate_credential_set_iff}
use xpanel.Domain.Inbound.{is_panel_namespace}
use xpanel.Domain.Sync.{inbound_phase_for}
use xpanel.Domain.Sync.Backoff.{
  second, effective_max, effective_attempt, backoff_cap, next_backoff, backoff_cap_closed_form,
  next_backoff_bounds,
}
use xpanel.Domain.Quota.{is_quota_exceeded, AllocationFacts, decide_transition, needs_operation}
use xpanel.Domain.Quota.Laws.{is_quota_exceeded_iff, decide_transition_table}
use xpanel.Domain.Port.{
  PortPool, capacity, in_pool, next_available_port, validate_requested_port, port_pool_exhausted,
}
use xpanel.Domain.Port.Choice.{next_available_port_least, next_available_port_total}
use xpanel.Domain.Traffic.{TrafficDirectionCursor, TrafficSample, apply_sample}
use xpanel.Domain.Traffic.Accounting.{
  Round, run, counter_of, SampleSpec, apply_sample-SampleSpec, run_telescopes,
}

abbrev carol : ManagedUser
carol = record { id = codes "carol"; lifecycle = LifecycleState.active; revision = 1 }

abbrev carols : AccessAllocation
carols = record {
  id = codes "alloc";
  user_id = codes "carol";
  template_id = codes "template";
  admin_enabled = true;
  quota_state = within_limit;
  projection_state = ProjectionState.present;
  observed_present = some true;
  desired_revision = 2;
  synced_revision = 2;
  desired_credential_version = 1;
  synced_credential_version = some 1;
}

abbrev key : ℕ → CredentialState → AccessCredential
key version state = record {
  id = codes "key";
  allocation_id = codes "alloc";
  version = version;
  state = state;
  key_ciphertext = 7 ∷ [];
  key_nonce = 8 ∷ [];
}

abbrev two_keys : List AccessCredential
two_keys = key 1 CredentialState.active ∷ key 2 CredentialState.pending ∷ []

validate_credential_set_iff_example : (validate_credential_set two_keys ≡ ok tt) ↔ (
    All IsSound two_keys
    × (count_if is_pending two_keys ≤ 1)
    × (count_if is_activated two_keys ≤ 1))
validate_credential_set_iff_example = validate_credential_set_iff two_keys

abbrev sid : Text
sid = codes "xpanel-9f3a"

abbrev other_sid : Text
other_sid = codes "xpanel-77b0"

sid-panel : is_panel_namespace sid ≡ true
unfolding is_panel_namespace has_prefix
sid-panel = refl

backoff_cap_closed_form_example :
    backoff_cap (pos 3) (pos (30 * second))
    ≡ min (effective_max (pos (30 * second))) (second * 2 ^ effective_attempt (pos 3))
backoff_cap_closed_form_example = backoff_cap_closed_form (pos 3) (pos (30 * second))

abbrev negative_source : ℕ → ℤ
negative_source n = negsuc 41

negative_source-range : (n : ℕ) → negsuc (2 ^ 63 - 1) <ℤ negative_source n
negative_source-range n = omega arith

next_backoff_bounds_example :
    (pos 0 ≤ℤ next_backoff (pos 3) (pos 0) (some negative_source))
    × (next_backoff (pos 3) (pos 0) (some negative_source) ≤ℤ next_backoff (pos 3) (pos 0) none)
next_backoff_bounds_example =
    next_backoff_bounds (pos 3) (pos 0) negative_source negative_source-range

is_quota_exceeded_iff_example :
    ((is_quota_exceeded (some (pos 1000)) (pos 600) (pos 400) ≡ true) ↔ (1000 ≤ 600 + 400))
    × (is_quota_exceeded none (pos 600) (pos 400) ≡ false)
is_quota_exceeded_iff_example = is_quota_exceeded_iff 1000 600 400 (omega arith)

abbrev facts : AllocationFacts
facts = record {
  lifecycle = LifecycleState.active;
  admin_enabled = true;
  quota_state = within_limit;
  desired_revision = 4;
  desired_credential_version = 1;
}

decide_transition_table_example :
    let d = decide_transition facts true true in
    (d.quota_state ≡ exceeded)
    × (d.will_be_present ≡ inbound_desired_present facts.lifecycle true exceeded)
    × (d.was_present
        ≡ inbound_desired_present facts.lifecycle facts.admin_enabled facts.quota_state)
    × ((needs_operation d ≡ true) ↔ (d.was_present ≢ d.will_be_present))
    × (needs_operation d ≡ true → d.phase ≡ some (inbound_phase_for d.will_be_present))
decide_transition_table_example = decide_transition_table facts true true

abbrev pool : PortPool
pool = record { first = 20000; last = 20003 }

abbrev taken : List ℕ
taken = 20000 ∷ 20002 ∷ []

chosen : next_available_port pool taken ≡ ok 20001
unfolding next_available_port
chosen = refl

next_available_port_least_example :
    (in_pool pool 20001 ≡ true)
    × (contains taken 20001 ≡ false)
    × ((p : ℕ) → in_pool pool p ≡ true → p < 20001 → contains taken p ≡ true)
    × (validate_requested_port pool 20001 taken ≡ ok tt)
next_available_port_least_example = next_available_port_least pool taken 20001 chosen

next_available_port_total_example :
    (length taken < capacity pool → (port : ℕ) × (next_available_port pool taken ≡ ok port))
    × ((e : Error)
        → next_available_port pool taken ≡ err e
        → (e ≡ port_pool_exhausted) × ((p : ℕ) → in_pool pool p ≡ true → contains taken p ≡ true))
next_available_port_total_example = next_available_port_total pool taken

abbrev cursor : TrafficDirectionCursor
cursor = record { counter = some 100; epoch = 2 }

abbrev sample : ℕ → TrafficSample
sample n = record { found = true; bytes = n }

apply_sample-SampleSpec_example :
    SampleSpec cursor (sample 40) false (apply_sample "uplink" cursor (sample 40) false false)
apply_sample-SampleSpec_example =
    apply_sample-SampleSpec "uplink" cursor (sample 40) false false (omega arith)

abbrev rounds : List Round
rounds =
    record { sample = sample 130; restarted = false }
    ∷ record { sample = record { found = false; bytes = 0 }; restarted = false }
    ∷ record { sample = sample 150; restarted = false }
    ∷ []

same_epoch : (run "uplink" cursor false rounds).0.epoch ≡ 2
unfolding run apply_sample
same_epoch = refl

run_telescopes_example :
    counter_of (run "uplink" cursor false rounds).0
    ≡ counter_of cursor + (run "uplink" cursor false rounds).1
run_telescopes_example = run_telescopes "uplink" cursor false rounds (omega arith) same_epoch
