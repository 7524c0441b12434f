-- ===== src/Auth/Throttle.antt =====
-- internal/application/auth_service.go: who is let in, and the delay that is answered.
use xpanel.Prelude.{
  ℕ, ◌+◌, ◌-◌, ◌≤◌, ◌<◌, ◌≡◌, ◌⊎◌, inl, inr, refl, true, List, [], ◌∷◌, arith, leb, ltb, length,
  All, count_if, Bool-cases,
}
use xpanel.Prelude.Text.{Text}
use xpanel.Auth.{
  first, window, source_limit, global_limit, Failures, prune, failures_of, bounded_retry, limited,
  authenticate, throttled, admitted,
}

-- Times in the order in which they were recorded.
unfoldable pub IsAscending : List ℕ → Type 0
IsAscending [] = Unit
IsAscending (v ∷ vs) = All (λ w. v ≤ w) vs × IsAscending vs

-- How many of the times lie no more than fifteen minutes before `now`.
abbrev pub within : ℕ → List ℕ → ℕ
within now vs = count_if (λ v. leb now (v + 900_000)) vs

within-All :
    (now v : ℕ) (vs : List ℕ)
    → All (λ w. v ≤ w) vs
    → leb now (v + 900_000) ≡ true
    → within now vs ≡ length vs
within-All now v [] later h = refl
within-All now v (w ∷ vs) later h =
    let order = later.0 in
    let rest = within-All now v vs later.1 h in ground (arith, order, rest, h)

length-prune : (vs : List ℕ) (now : ℕ) → IsAscending vs → length (prune vs now) ≡ within now vs
unfolding prune IsAscending
length-prune [] now h = refl
length-prune (v ∷ vs) now h =
    let rest = length-prune vs now h.1 in
    elim (Bool-cases (ltb (v + window) now)) [
      | inl old ↦ ground (arith, old, rest)
      | inr recent ↦
          let all = within-All now v vs h.0 (ground (arith, recent)) in ground (arith, recent, all)
    ]

bounded_retry_bounds : (v : ℕ) → (1000 ≤ bounded_retry v) × (bounded_retry v ≤ 900_000)
unfolding bounded_retry
bounded_retry_bounds v = ground arith

-- With failures recorded in the order of time, and whatever other attempts do while the password is
-- compared, the right password is admitted exactly when, as the attempt begins, fewer than five failures of
-- its source and fewer than twenty of all are at most fifteen minutes old; otherwise it is throttled, and
-- the delay that is answered lies between a second and fifteen minutes.
pub authenticate_right_password :
    (key : Text) (now : ℕ) (between : Failures → Failures) (s : Failures)
    → IsAscending (failures_of key s)
    → IsAscending s.global
    → (((authenticate key now true between s).1 ≡ admitted)
        × (within now (failures_of key s) < 5)
        × (within now s.global < 20))
      ⊎ ((retry : ℕ) × ((authenticate key now true between s).1 ≡ throttled retry)
          × (1000 ≤ retry)
          × (retry ≤ 900_000)
          × ((5 ≤ within now (failures_of key s)) ⊎ (20 ≤ within now s.global)))
unfolding authenticate limited
authenticate_right_password key now between s up all_up =
    let recent = prune (failures_of key s) now in
    let global = prune s.global now in
    let few = length-prune (failures_of key s) now up in
    let few_all = length-prune s.global now all_up in
    let of_source = bounded_retry_bounds (first recent + window - now) in
    let of_all = bounded_retry_bounds (first global + window - now) in
    elim (Bool-cases (leb source_limit (length recent))) [
      | inl y ↦ inr (
        bounded_retry (first recent + window - now),
        rw y refl,
        of_source.0,
        of_source.1,
        inl (ground (arith, few, y)),
      )
      | inr n ↦ elim (Bool-cases (leb global_limit (length global))) [
        | inl y ↦ inr (
          bounded_retry (first global + window - now),
          rw (n, y) refl,
          of_all.0,
          of_all.1,
          inr (ground (arith, few_all, y)),
        )
        | inr m ↦ inl (rw (n, m) (refl, ground (arith, few, n), ground (arith, few_all, m)))
      ]
    ]
