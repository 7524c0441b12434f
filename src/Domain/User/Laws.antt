-- ===== src/Domain/User/Laws.antt =====
-- internal/domain/user.go: the derived states, and sets of credentials.
use xpanel.Prelude.{
  ℕ, ◌+◌, ◌≤◌, ◌<◌, ◌≡◌, ◌≢◌, ◌↔◌, ◌⊎◌, Bool, true, false, List, [], ◌∷◌, arith, count_if, All,
}
use xpanel.Domain.Errors.{ok}
use xpanel.Domain.User.{
  ProjectionState, DisplayState, CredentialState, ManagedUser, AccessAllocation, AccessCredential,
  destroyed, enabling, desired_present, display_state, check_credential, count_pending,
  count_active, validate_loop, validate_credential_set,
}

-- The display states in which the allocation is meant to listen.
abbrev pub is_listening_state : DisplayState → Bool
is_listening_state enabling = true
is_listening_state DisplayState.active = true
is_listening_state _ = false

-- The screen shows "enabling" or "active" exactly for the users that should be listening, and shows
-- "active" exactly when in addition the projection is confirmed present.
pub display_state-desired_present :
    (a : AccessAllocation) (user : ManagedUser)
    → (is_listening_state (display_state a user) ≡ desired_present a user)
      × ((display_state a user ≡ DisplayState.active)
          ↔ ((desired_present a user ≡ true) × (a.projection_state ≡ ProjectionState.present)))
unfolding display_state desired_present
display_state-desired_present a user = (ground arith, ((λ h. ground arith), λ h. ground arith))

-- One credential is in order: a positive version, and key material exactly while not destroyed.
abbrev pub IsSound : AccessCredential → Type 0
IsSound c =
    (0 < c.version)
    × (((c.state ≡ destroyed) × (c.key_ciphertext ≡ []) × (c.key_nonce ≡ []))
        ⊎ ((c.state ≢ destroyed) × (c.key_ciphertext ≢ []) × (c.key_nonce ≢ [])))

abbrev pub is_pending : AccessCredential → Bool
is_pending c = elim c.state [ CredentialState.pending ↦ true | _ ↦ false ]

abbrev pub is_activated : AccessCredential → Bool
is_activated c = elim c.state [ CredentialState.active ↦ true | _ ↦ false ]

check-IsSound : (c : AccessCredential) → check_credential c ≡ ok tt → IsSound c
unfolding check_credential
check-IsSound c h = ground arith

IsSound-check : (c : AccessCredential) → IsSound c → check_credential c ≡ ok tt
unfolding check_credential
IsSound-check c (p, q) = ground arith

-- The loop succeeds exactly for sound credentials whose counts, added to those so far, are at most 1.
abbrev LoopSpec : List AccessCredential → ℕ → ℕ → Type 0
LoopSpec cs pendings actives =
    All IsSound cs
    × (pendings + count_if is_pending cs ≤ 1)
    × (actives + count_if is_activated cs ≤ 1)

validate_loop-LoopSpec :
    (cs : List AccessCredential) (pendings actives : ℕ)
    → validate_loop cs pendings actives ≡ ok tt
    → LoopSpec cs pendings actives
unfolding validate_loop
validate_loop-LoopSpec [] pendings actives h = ground arith
validate_loop-LoopSpec (c ∷ cs) pendings actives h = ground (
  arith,
  check-IsSound c,
  validate_loop-LoopSpec cs (count_pending c.state pendings) (count_active c.state actives),
)

LoopSpec-validate_loop :
    (cs : List AccessCredential) (pendings actives : ℕ)
    → LoopSpec cs pendings actives
    → validate_loop cs pendings actives ≡ ok tt
unfolding validate_loop
LoopSpec-validate_loop [] pendings actives h = ground arith
LoopSpec-validate_loop (c ∷ cs) pendings actives h = ground (
  arith,
  IsSound-check c,
  LoopSpec-validate_loop cs (count_pending c.state pendings) (count_active c.state actives),
)

-- A set of credentials is accepted exactly when every credential has a positive version and holds key
-- material exactly while it is not destroyed, and at most one is pending and at most one is active.
pub validate_credential_set_iff :
    (cs : List AccessCredential)
    → (validate_credential_set cs ≡ ok tt)
      ↔ (All IsSound cs × (count_if is_pending cs ≤ 1) × (count_if is_activated cs ≤ 1))
unfolding validate_credential_set
validate_credential_set_iff cs = (
  (λ h. ground (arith, validate_loop-LoopSpec cs 0 0 h)),
  λ h. LoopSpec-validate_loop cs 0 0 (ground arith),
)
