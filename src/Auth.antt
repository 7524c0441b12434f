-- ===== src/Auth.antt =====
-- internal/application/auth_service.go: the throttle on failed logins. Times are milliseconds. What the
-- password comparison answers is a parameter; the audit entries are left out.
pub mod Throttle
pub mod Tests
use xpanel.Prelude.{
  ℕ, ◌+◌, ◌-◌, ◌*◌, ◌≤◌, Bool, true, false, ◌||◌, List, [], ◌∷◌, ◌++◌, Option, none, some, ltb, leb,
  if◌then◌else◌, length,
}
use xpanel.Prelude.Text.{Text}
use xpanel.Prelude.Assoc.{Table, lookup, insert, erase}

abbrev pub window : ℕ
window = 15 * 60_000

abbrev pub source_limit : ℕ
source_limit = 5

abbrev pub global_limit : ℕ
global_limit = 20

-- `bySource` and `global` of the service.
pub record Failures : Type 0 where
  pub by_source : Table (List ℕ)
  pub global : List ℕ

unfoldable pub prune : List ℕ → ℕ → List ℕ
prune [] now = []
prune (v ∷ vs) now = let rest = prune vs now in if ltb (v + window) now then rest else v ∷ vs

-- `boundedRetry`; a negative duration is 0 here, and is raised to a second all the same.
unfoldable pub bounded_retry : ℕ → ℕ
bounded_retry value = if ltb value 1000 then 1000 else if ltb window value then window else value

abbrev pub list_or_empty : Option (List ℕ) → List ℕ
list_or_empty none = []
list_or_empty (some vs) = vs

unfoldable pub failures_of : Text → Failures → List ℕ
failures_of key s = list_or_empty (lookup key s.by_source)

abbrev pub first : List ℕ → ℕ
first [] = 0
first (v ∷ vs) = v

-- `limited`: the retry delay, where there is one.
unfoldable pub limited : Text → ℕ → Failures → Failures × Option ℕ
unfolding prune bounded_retry failures_of
limited key now s =
    let recent = prune (failures_of key s) now in
    let global = prune s.global now in
    (
      record { by_source = insert key recent s.by_source; global = global },
      if leb source_limit (length recent)
          then some (bounded_retry (first recent + window - now))
          else if leb global_limit (length global)
          then some (bounded_retry (first global + window - now))
          else none,
    )

unfoldable pub record_failure : Text → ℕ → Failures → Failures × Option ℕ
unfolding prune failures_of
record_failure key now s =
    let recent = prune (failures_of key s) now ++ now ∷ [] in
    let global = prune s.global now ++ now ∷ [] in
    (
      record { by_source = insert key recent s.by_source; global = global },
      if leb source_limit (length recent) || leb global_limit (length global)
          then some window
          else none,
    )

unfoldable pub clear_failures : Text → ℕ → Failures → Failures
unfolding prune
clear_failures key now s = record { by_source = erase key s.by_source; global = prune s.global now }

-- What a login attempt leads to.
pub data Verdict : Type 0 where
  throttled : ℕ → Verdict
  rejected admitted : Verdict

abbrev pub after_failure : Failures × Option ℕ → Failures × Verdict
after_failure (s, none) = (s, rejected)
after_failure (s, some retry) = (s, throttled retry)

-- The comparison of the password, and what follows it. The lock is taken anew after the comparison, so that
-- other attempts may have changed the failures in between.
abbrev pub compared :
    Text → ℕ → Bool → (Failures → Failures) → Failures × Option ℕ → Failures × Verdict
compared key now matches between (s, some retry) = (s, throttled retry)
compared key now true between (s, none) = (clear_failures key now (between s), admitted)
compared key now false between (s, none) = after_failure (record_failure key now (between s))

-- `Authenticate`, with the answer of the password comparison, and with what other attempts do to the
-- failures while the password is compared.
unfoldable pub authenticate :
    Text → ℕ → Bool → (Failures → Failures) → Failures → Failures × Verdict
unfolding limited record_failure clear_failures
authenticate key now matches between s = compared key now matches between (limited key now s)
