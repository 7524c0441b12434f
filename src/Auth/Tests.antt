-- ===== src/Auth/Tests.antt =====
-- A source with a few failures, and the throttle's laws applied to it.
use xpanel.Prelude.{ℕ, ◌≡◌, ◌≤◌, ◌<◌, ◌⊎◌, arith, true, List, [], ◌∷◌}
use xpanel.Prelude.Text.{codes, text_eq}
use xpanel.Prelude.Assoc.{lookup}
use xpanel.Auth.{Failures, failures_of, record_failure, authenticate, throttled, admitted}
use xpanel.Auth.Throttle.{IsAscending, within, authenticate_right_password}

-- Five failures of one source within a minute.
abbrev failed : List ℕ
failed = 1000 ∷ 2000 ∷ 3000 ∷ 4000 ∷ 5000 ∷ []

abbrev attacked : Failures
attacked = record { by_source = (codes "admin|10.0.0.1", failed) ∷ []; global = failed }

-- Another attempt fails while the password is compared.
abbrev other_attempt : Failures → Failures
other_attempt s = (record_failure (codes "admin|10.0.0.1") 5500 s).0

failed-IsAscending : IsAscending failed
unfolding IsAscending
failed-IsAscending = (
  (omega arith, (omega arith, (omega arith, (omega arith, tt)))),
  (
    (omega arith, (omega arith, (omega arith, tt))),
    ((omega arith, (omega arith, tt)), ((omega arith, tt), (tt, tt))),
  ),
)

source-IsAscending : IsAscending (failures_of (codes "admin|10.0.0.1") attacked)
unfolding failures_of lookup text_eq
source-IsAscending = failed-IsAscending

authenticate_right_password_example :
    (((authenticate (codes "admin|10.0.0.1") 6000 true other_attempt attacked).1 ≡ admitted)
      × (within 6000 (failures_of (codes "admin|10.0.0.1") attacked) < 5)
      × (within 6000 attacked.global < 20))
    ⊎ ((retry : ℕ) × ((authenticate (codes "admin|10.0.0.1") 6000 true other_attempt attacked).1
          ≡ throttled retry)
        × (1000 ≤ retry)
        × (retry ≤ 900_000)
        × ((5 ≤ within 6000 (failures_of (codes "admin|10.0.0.1") attacked))
            ⊎ (20 ≤ within 6000 attacked.global)))
authenticate_right_password_example =
    authenticate_right_password (codes "admin|10.0.0.1") 6000 other_attempt attacked
      source-IsAscending failed-IsAscending
