-- ===== src/Worker/Guarded/Kinds.antt =====
-- internal/worker/synchronizer.go: the synchronizer's tests of an error, and the reply.
use xpanel.Prelude.{◌≡◌, refl, Bool, true, false, some, arith}
use xpanel.Ports.{
  ErrorKind, CallError, adapter_error, context_deadline, other_error, failed, user_already_exists,
  inbound_not_found,
}
use xpanel.Ports.Contract.{HasKind}
use xpanel.Worker.Ending.{describe, is_inbound_not_found}
use xpanel.Worker.Create.{holds}
use xpanel.Worker.Rotate.{is_user_already_exists}

is_user_already_exists-true :
    (k : ErrorKind) → is_user_already_exists k ≡ true → k ≡ user_already_exists
is_user_already_exists-true user_already_exists h = refl
is_user_already_exists-true _ h = ground arith

is_inbound_not_found-true : (k : ErrorKind) → is_inbound_not_found k ≡ true → k ≡ inbound_not_found
is_inbound_not_found-true inbound_not_found h = refl
is_inbound_not_found-true _ h = ground arith

pub describe-user_already_exists :
    (A : Type 0) (e : CallError)
    → is_user_already_exists (describe e).0 ≡ true
    → HasKind user_already_exists {A = A} (failed e)
unfolding describe
describe-user_already_exists A (adapter_error e) h = is_user_already_exists-true e.kind h
describe-user_already_exists A context_deadline h = ground arith
describe-user_already_exists A other_error h = ground arith

pub describe-inbound_not_found :
    (A : Type 0) (e : CallError)
    → is_inbound_not_found (describe e).0 ≡ true
    → HasKind inbound_not_found {A = A} (failed e)
unfolding describe
describe-inbound_not_found A (adapter_error e) h = is_inbound_not_found-true e.kind h
describe-inbound_not_found A context_deadline h = ground arith
describe-inbound_not_found A other_error h = ground arith

pub holds-true : (b : Bool) → holds (some b) ≡ true → b ≡ true
holds-true true h = refl
holds-true false h = ground arith
