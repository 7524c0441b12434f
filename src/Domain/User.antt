-- ===== src/Domain/User.antt =====
-- internal/domain/user.go: users, allocations, credentials, and the states derived from them.
pub mod Laws
use xpanel.Prelude.{
  ℕ, zero, suc, ◌+◌, Bool, true, false, not, ◌&&◌, ◌||◌, List, [], ◌∷◌, Option, none, some, ltb,
  ◌==◌, if◌then◌else◌, length,
}
use xpanel.Prelude.Text.{Text}
use xpanel.Domain.Errors.{Error, Result, ok, err, invalid_state_error}

pub data LifecycleState : Type 0 where
  active deleted : LifecycleState

pub data QuotaState : Type 0 where
  within_limit exceeded : QuotaState

pub data ProjectionState : Type 0 where
  unknown pending present absent error : ProjectionState

pub data DisplayState : Type 0 where
  deleted disabling disabled quota_disabling quota_exceeded enabling active : DisplayState

abbrev pub is_active : LifecycleState → Bool
is_active LifecycleState.active = true
is_active LifecycleState.deleted = false

abbrev pub is_within_limit : QuotaState → Bool
is_within_limit within_limit = true
is_within_limit exceeded = false

-- `ManagedUser`, without its names and times.
pub record ManagedUser : Type 0 where
  pub id : Text
  pub lifecycle : LifecycleState
  pub revision : ℕ

-- `AccessAllocation`, without its times and error texts.
pub record AccessAllocation : Type 0 where
  pub id : Text
  pub user_id : Text
  pub template_id : Text
  pub admin_enabled : Bool
  pub quota_state : QuotaState
  pub projection_state : ProjectionState
  pub observed_present : Option Bool
  pub desired_revision : ℕ
  pub synced_revision : ℕ
  pub desired_credential_version : ℕ
  pub synced_credential_version : Option ℕ

-- internal/domain/inbound.go: the one truth table of "this port should listen".
unfoldable pub inbound_desired_present : LifecycleState → Bool → QuotaState → Bool
inbound_desired_present lifecycle admin_enabled quota =
    is_active lifecycle && admin_enabled && is_within_limit quota

unfoldable pub desired_present : AccessAllocation → ManagedUser → Bool
unfolding inbound_desired_present
desired_present a user = inbound_desired_present user.lifecycle a.admin_enabled a.quota_state

abbrev is_present_or_pending : ProjectionState → Bool
is_present_or_pending present = true
is_present_or_pending pending = true
is_present_or_pending _ = false

abbrev is_present : ProjectionState → Bool
is_present present = true
is_present _ = false

unfoldable pub display_state : AccessAllocation → ManagedUser → DisplayState
display_state a user =
    if not (is_active user.lifecycle)
    then DisplayState.deleted
    else if not a.admin_enabled && is_present_or_pending a.projection_state
    then disabling
    else if not a.admin_enabled
    then disabled
    else if not (is_within_limit a.quota_state) && is_present_or_pending a.projection_state
    then quota_disabling
    else if not (is_within_limit a.quota_state)
    then quota_exceeded
    else if not (is_present a.projection_state)
    then enabling
    else DisplayState.active

abbrev is_unsettled : ProjectionState → Bool
is_unsettled unknown = true
is_unsettled pending = true
is_unsettled error = true
is_unsettled _ = false

unfoldable pub pending_sync : AccessAllocation → Bool
pending_sync a = not (a.desired_revision == a.synced_revision) || is_unsettled a.projection_state

pub data CredentialState : Type 0 where
  pending active retired destroyed : CredentialState

-- `AccessCredential`, without its times. Keys are byte strings.
pub record AccessCredential : Type 0 where
  pub id : Text
  pub allocation_id : Text
  pub version : ℕ
  pub state : CredentialState
  pub key_ciphertext : List ℕ
  pub key_nonce : List ℕ

abbrev pub is_empty : List ℕ → Bool
is_empty [] = true
is_empty (_ ∷ _) = false

abbrev pub is_destroyed : CredentialState → Bool
is_destroyed destroyed = true
is_destroyed _ = false

-- The checks of one turn of the loop in `ValidateCredentialSet`, in its order.
unfoldable pub check_credential : AccessCredential → Result (Unit {0})
check_credential c =
    if ltb c.version 1
    then err (invalid_state_error "credential version must be positive")
    else if is_destroyed c.state
    then (if not (is_empty c.key_ciphertext) || not (is_empty c.key_nonce)
        then err (invalid_state_error "destroyed credential retains key material")
        else ok tt)
    else (if is_empty c.key_ciphertext || is_empty c.key_nonce
        then err (invalid_state_error "usable credential lacks key material")
        else ok tt)

-- The `switch` that counts.
abbrev pub count_pending : CredentialState → ℕ → ℕ
count_pending CredentialState.pending n = n + 1
count_pending _ n = n

abbrev pub count_active : CredentialState → ℕ → ℕ
count_active CredentialState.active n = n + 1
count_active _ n = n

pub validate_loop : List AccessCredential → ℕ → ℕ → Result (Unit {0})
validate_loop [] pendings actives =
    if ltb 1 pendings || ltb 1 actives
    then err (invalid_state_error "allocation has multiple pending or active credentials")
    else ok tt
validate_loop (c ∷ cs) pendings actives =
    let rest = validate_loop cs (count_pending c.state pendings) (count_active c.state actives) in
    elim (check_credential c) [ err e ↦ err e | ok _ ↦ rest ]

pub validate_credential_set : List AccessCredential → Result (Unit {0})
unfolding validate_loop
validate_credential_set credentials = validate_loop credentials 0 0
