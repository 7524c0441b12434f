-- ===== src/Fake/Contract/Cases.antt =====
-- internal/adapter/xray/fake/fake.go: what each operation may lead to.
use xpanel.Prelude.{
  Bool, true, Option, some, ◌≡◌, refl, List, [], ◌∷◌, none, ◌⊎◌, inl, inr, All, arith,
}
use xpanel.Prelude.Text.{Text}
use xpanel.Prelude.Assoc.{erase}
use xpanel.Ports.{
  CallError, adapter_error, context_deadline, other_error, Reply, done, failed, user_already_exists,
  inbound_not_found, CreateInboundCommand, AddUserCommand, RemoveUserCommand,
}
use xpanel.Ports.Contract.{HasKind, IsDone}
use xpanel.Fake.{
  Node, Failure, applies, answer_of, create_inbound_op, remove_inbound_op, add_user_op,
  take_failure, error_of, outside_error, unavailable_error, record_call, outcome, head, register,
  create_inbound, remove_inbound, add_client, ensure_users, add_user, remove_client, remove_user,
}
use xpanel.Fake.Contract.{IsHonest, IsHonestAnswer, HonestFailures}

-- The same inbounds and clients.
abbrev pub SameTables : Node → Node → Type 0
SameTables n m = (m.inbounds ≡ n.inbounds) × (m.users ≡ n.users)

abbrev pub dropped : Text → Node → Node
dropped tag n = record n { inbounds = erase tag n.inbounds; users = erase tag n.users }

-- An honest failure that answers success, or that the node holds or lacks something, is applied.
injected :
    (e : Option CallError) (applied : Bool)
    → IsHonestAnswer e applied
    → (HasKind inbound_not_found (answer_of e) ⊎ IsDone (answer_of e) → applied ≡ true)
      × (HasKind user_already_exists (answer_of e) ⊎ IsDone (answer_of e) → applied ≡ true)
injected none applied h = ((λ _. h), (λ _. h))
injected (some (adapter_error e)) applied h = (
  (λ x. elim x [ inl known ↦ absurd (h.1 known) | inr success ↦ absurd success ]),
  (λ x. elim x [ inl known ↦ absurd (h.0 known) | inr success ↦ absurd success ]),
)
injected (some context_deadline) applied h = (
  (λ x. elim x [ inl known ↦ absurd known | inr success ↦ absurd success ]),
  (λ x. elim x [ inl known ↦ absurd known | inr success ↦ absurd success ]),
)
injected (some other_error) applied h = (
  (λ x. elim x [ inl known ↦ absurd known | inr success ↦ absurd success ]),
  (λ x. elim x [ inl known ↦ absurd known | inr success ↦ absurd success ]),
)

outcome-honest :
    (fs : List Failure) (reply : Reply (Unit {0}))
    → All IsHonest fs
    → (HasKind inbound_not_found (outcome (head fs) reply) ⊎ IsDone (outcome (head fs) reply)
        → applies (head fs) ≡ true)
      × (HasKind user_already_exists (outcome (head fs) reply) ⊎ IsDone (outcome (head fs) reply)
          → applies (head fs) ≡ true)
outcome-honest [] reply h = ((λ _. refl), (λ _. refl))
outcome-honest (f ∷ fs) reply h = injected f.error f.applied h.0

pub create_inbound-cases :
    (c : CreateInboundCommand) (n : Node)
    → HonestFailures n
    → (SameTables n (create_inbound c n).0 × ¬ IsDone (create_inbound c n).1)
      ⊎ SameTables (register c n) (create_inbound c n).0
unfolding create_inbound take_failure record_call register
create_inbound-cases c n h =
    let known = outcome-honest (n.failures create_inbound_op) (done tt) (h create_inbound_op) in
    ground (arith, known)

pub remove_inbound-cases :
    (tag : Text) (n : Node)
    → HonestFailures n
    → (SameTables n (remove_inbound tag n).0
        × ¬ (IsDone (remove_inbound tag n).1 ⊎ HasKind inbound_not_found (remove_inbound tag n).1))
      ⊎ SameTables (dropped tag n) (remove_inbound tag n).0
unfolding remove_inbound take_failure record_call error_of unavailable_error
remove_inbound-cases tag n h =
    let known = outcome-honest (n.failures remove_inbound_op) (done tt) (h remove_inbound_op) in
    let missing =
      outcome-honest (n.failures remove_inbound_op)
        (failed (error_of inbound_not_found "inbound was not found")) (h remove_inbound_op) in
    ground (arith, known, missing)

pub add_user-cases :
    (c : AddUserCommand) (n : Node)
    → HonestFailures n
    → (SameTables n (add_user c n).0 ⊎ SameTables (ensure_users c.inbound_tag n) (add_user c n).0)
        × ¬ (IsDone (add_user c n).1 ⊎ HasKind user_already_exists (add_user c n).1)
      ⊎ SameTables (add_client c (ensure_users c.inbound_tag n)) (add_user c n).0
unfolding add_user take_failure record_call add_client ensure_users error_of outside_error
    unavailable_error
add_user-cases c n h =
    let known = outcome-honest (n.failures add_user_op) (done tt) (h add_user_op) in
    ground (arith, known)

pub remove_user-cases :
    (c : RemoveUserCommand) (n : Node)
    → SameTables n (remove_user c n).0 ⊎ SameTables (remove_client c n) (remove_user c n).0
unfolding remove_user take_failure record_call remove_client
remove_user-cases c n = ground arith
