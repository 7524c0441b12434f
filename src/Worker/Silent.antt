-- ===== src/Worker/Silent.antt =====
-- internal/worker/synchronizer.go: the ways to end an operation, and the calls to Xray.
use xpanel.Prelude.{ℕ, ◌≡◌, refl, Bool, arith}
use xpanel.Ports.{ErrorKind, CallError, incompatible_profile}
use xpanel.Worker.World.{SyncWork, Options, World, Exit}
use xpanel.Worker.Ending.{
  describe, audit_confirmed, audit, confirm, fail, retry_later, track_drift, retry,
}

-- The node and the record of calls are as before.
abbrev pub SameNode : {S : Type 0} → World S → World S → Type 0
SameNode w w' = (w'.node ≡ w.node) × (w'.trace ≡ w.trace)

abbrev pub IsSilent : {S : Type 0} → Exit S → Type 0
IsSilent {S} e = (w : World S) → SameNode w (e w).1

module _ {S : Type 0} (options : Options) (work : SyncWork) where
  audit_confirmed-SameNode :
      (seen : Bool) (w : World S) → SameNode w (audit_confirmed options work seen w)
  unfolding audit_confirmed
  audit_confirmed-SameNode seen w = ground arith

  pub confirm-IsSilent :
      (seen : Bool) (version : ℕ) → IsSilent {S = S} (confirm options work seen version)
  unfolding confirm
  confirm-IsSilent seen version w = ground (arith, audit_confirmed-SameNode seen)

  pub fail-IsSilent : IsSilent {S = S} (fail options work)
  unfolding fail audit
  fail-IsSilent w = ground arith

  pub retry_later-IsSilent : IsSilent {S = S} (retry_later options work)
  unfolding retry_later
  retry_later-IsSilent w = (refl, refl)

  track_drift-SameNode :
      (kind : ErrorKind) (w : World S) → SameNode w (track_drift options work kind w)
  unfolding track_drift
  track_drift-SameNode incompatible_profile w = ground arith
  track_drift-SameNode _ w = ground arith

  pub retry-IsSilent : (cause : CallError) → IsSilent {S = S} (retry options work cause)
  unfolding retry
  retry-IsSilent cause w =
      let tracked = track_drift options work (describe cause).0 w in
      let same = track_drift-SameNode (describe cause).0 w in
      let failed = fail-IsSilent tracked in
      let later = retry_later-IsSilent tracked in ground (arith, same, failed, later)
