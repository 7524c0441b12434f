-- ===== src/Store/Outcome/Keys.antt =====
-- internal/persistence/sqlite/store_sync.go, `activateCredential` and `destroyCredentials`: the keys.
use xpanel.Prelude.{
  ℕ, ◌≡◌, ◌≤◌, ◌<◌, ◌⊎◌, refl, Bool, true, false, not, ◌&&◌, List, [], ◌∷◌, arith, ltb, ◌==◌,
  on_row, update_where, Bool-cases, inl, inr,
}
use xpanel.Prelude.Text.{Text, text_eq}
use xpanel.Domain.User.{AccessCredential, CredentialState, is_destroyed}
use xpanel.Store.Tables.{Db}
use xpanel.Store.Outcome.{activate_credential, destroy_credentials, destroy_key}

-- A key of the allocation is destroyed, and its material is gone if it was not destroyed before; a key of
-- another allocation is as it was.
abbrev pub IsErased : Text → AccessCredential → AccessCredential → Type 0
IsErased id c c' =
    ((text_eq c.allocation_id id ≡ false) × (c' ≡ c))
    ⊎ ((text_eq c.allocation_id id ≡ true) × (is_destroyed c.state ≡ true) × (c' ≡ c))
    ⊎ ((text_eq c.allocation_id id ≡ true)
        × (is_destroyed c'.state ≡ true)
        × (c'.key_ciphertext ≡ [])
        × (c'.key_nonce ≡ []))

-- A key of an older version of the allocation is destroyed; every other keeps its material and its state,
-- but that a pending key of the confirmed version becomes active.
abbrev pub IsActivated : Text → ℕ → AccessCredential → AccessCredential → Type 0
IsActivated id version c c' =
    ((text_eq c.allocation_id id ≡ true) × (c.version < version) × (is_destroyed c'.state ≡ true))
    ⊎ (((text_eq c.allocation_id id ≡ false) ⊎ (version ≤ c.version))
        × (c'.key_ciphertext ≡ c.key_ciphertext)
        × (c'.key_nonce ≡ c.key_nonce)
        × ((c'.state ≡ c.state)
            ⊎ ((text_eq c.allocation_id id ≡ true)
                × (c.version ≡ version)
                × (c.state ≡ CredentialState.pending)
                × (c'.state ≡ CredentialState.active))))

abbrev pub Pairwise :
    (AccessCredential → AccessCredential → Type 0)
    → List AccessCredential
    → List AccessCredential
    → Type 0
Pairwise R [] [] = Unit
Pairwise R [] (d ∷ ds) = ⊥
Pairwise R (c ∷ cs) [] = ⊥
Pairwise R (c ∷ cs) (d ∷ ds) = R c d × Pairwise R cs ds

abbrev held : Text → AccessCredential → Bool
held id c = text_eq c.allocation_id id && not (is_destroyed c.state)

destroy_key-IsErased :
    (id : Text) (c : AccessCredential) → IsErased id c (on_row (held id) destroy_key c)
destroy_key-IsErased id c = elim (Bool-cases (text_eq c.allocation_id id)) [
  | inr other ↦ rw other (inl (refl, refl))
  | inl own ↦ elim (Bool-cases (is_destroyed c.state)) [
    | inl gone ↦ rw (own, gone) (inr (inl (refl, refl, refl)))
    | inr live ↦ rw (own, live) (inr (inr (refl, refl, refl, refl)))
  ]
]

erased :
    (id : Text) (cs : List AccessCredential)
    → Pairwise (IsErased id) cs (update_where (held id) destroy_key cs)
unfolding update_where
erased id [] = tt
erased id (c ∷ cs) = (destroy_key-IsErased id c, erased id cs)

pub destroy_credentials-IsErased :
    (id : Text) (db : Db)
    → Pairwise (IsErased id) db.credentials (destroy_credentials id db).credentials
unfolding destroy_credentials
destroy_credentials-IsErased id db = erased id db.credentials

abbrev is_pending : CredentialState → Bool
is_pending CredentialState.pending = true
is_pending _ = false

pending_sound : (s : CredentialState) → is_pending s ≡ true → s ≡ CredentialState.pending
pending_sound CredentialState.pending h = refl
pending_sound CredentialState.active h = cc
pending_sound CredentialState.retired h = cc
pending_sound CredentialState.destroyed h = cc

abbrev older : Text → ℕ → AccessCredential → Bool
older id version c =
    text_eq c.allocation_id id && ltb c.version version && not (is_destroyed c.state)

abbrev confirmed : Text → ℕ → AccessCredential → Bool
confirmed id version c = text_eq c.allocation_id id && c.version == version && is_pending c.state

abbrev activated : AccessCredential → AccessCredential
activated c = record c { state = CredentialState.active }

activated-IsActivated :
    (id : Text) (version : ℕ) (c : AccessCredential)
    → IsActivated id version c
        (on_row (confirmed id version) activated (on_row (older id version) destroy_key c))
activated-IsActivated id version c = elim (Bool-cases (text_eq c.allocation_id id)) [
  | inr other ↦ rw (other, other) (inr (inl refl, refl, refl, inl refl))
  | inl own ↦ elim (Bool-cases (ltb c.version version)) [
    | inl old ↦
        let differs : (c.version == version) ≡ false = ground (arith, old) in
        elim (Bool-cases (is_destroyed c.state)) [
          | inl gone ↦ rw (own, old, gone, own, differs) (inl (refl, ground (arith, old), gone))
          | inr live ↦ rw (own, old, live, own, differs) (inl (refl, ground (arith, old), refl))
        ]
    | inr recent ↦ elim (Bool-cases (c.version == version)) [
      | inr later ↦
          rw (own, recent, own, later) (inr (inr (ground (arith, recent)), refl, refl, inl refl))
      | inl same ↦ elim (Bool-cases (is_pending c.state)) [
        | inr settled ↦
            rw (own, recent, own, same, settled)
              (inr (inr (ground (arith, recent)), refl, refl, inl refl))
        | inl waiting ↦
            rw (own, recent, own, same, waiting)
              (inr (
                inr (ground (arith, recent)),
                refl,
                refl,
                inr (refl, ground (arith, same), pending_sound c.state waiting, refl),
              ))
      ]
    ]
  ]
]

all_activated :
    (id : Text) (version : ℕ) (cs : List AccessCredential)
    → Pairwise (IsActivated id version) cs (
        update_where
          (confirmed id version)
          activated
          (update_where (older id version) destroy_key cs))
unfolding update_where
all_activated id version [] = tt
all_activated id version (c ∷ cs) =
    (activated-IsActivated id version c, all_activated id version cs)

pub activate_credential-IsActivated :
    (id : Text) (version : ℕ) (db : Db)
    → Pairwise
        (IsActivated id version)
        db.credentials
        (activate_credential id version db).credentials
unfolding activate_credential
activate_credential-IsActivated id version db = all_activated id version db.credentials
