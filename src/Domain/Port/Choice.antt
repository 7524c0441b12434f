-- ===== src/Domain/Port/Choice.antt =====
-- internal/domain/port.go, `NextAvailablePort` and `NewPortPool`.
use xpanel.Prelude.{
  ℕ, zero, suc, ◌+◌, ◌≤◌, ◌<◌, ◌≡◌, ◌≢◌, ◌↔◌, ◌⊎◌, ◌&&◌, refl, true, false, List, [], ◌∷◌, arith,
  leb, ◌==◌, if◌then◌else◌, contains, length, Bool-cases, inl, inr,
}
use xpanel.Domain.Errors.{Error, ok, err}
use xpanel.Domain.Port.{
  PortPool, capacity, in_pool, port_pool_exhausted, scan, next_available_port,
  validate_requested_port, new_port_pool, min_assignable_port, max_assignable_port,
}

-- A pool is accepted exactly when both ends are assignable ports in order, and is then the range given,
-- with at least one port.
pub new_port_pool_iff :
    (first last : ℕ)
    → let pool : PortPool = record { first = first; last = last } in
      ((new_port_pool first last ≡ ok pool)
        ↔ ((min_assignable_port ≤ first) × (first ≤ last) × (last ≤ max_assignable_port)))
      × ((q : PortPool) → new_port_pool first last ≡ ok q → (q ≡ pool) × (0 < capacity q))
unfolding new_port_pool capacity
new_port_pool_iff first last =
    (((λ h. ground arith), λ h. ground arith), λ q h. (ground arith, ground arith))

abbrev Least : ℕ → ℕ → List ℕ → ℕ → Type 0
Least first bound taken port =
    (first ≤ port)
    × (port < bound)
    × (contains taken port ≡ false)
    × ((p : ℕ) → first ≤ p → p < port → contains taken p ≡ true)

scan-Least :
    (left first : ℕ) (taken : List ℕ) (port : ℕ)
    → scan left first taken ≡ ok port
    → Least first (first + left) taken port
unfolding scan
scan-Least zero first taken port h = cc
scan-Least (suc left) first taken port h = elim (Bool-cases (contains taken first)) [
  | inl used ↦
      let ih = scan-Least left (first + 1) taken port (ground arith) in
      (
        omega arith,
        omega arith,
        ih.2,
        λ p lo hi. elim (Bool-cases (p == first)) [
          | inl e ↦ ground arith
          | inr n ↦ ih.3 p (ground arith) hi
        ],
      )
  | inr free ↦
      let e : first ≡ port = ground arith in
      (omega arith, omega arith, ground arith, λ p lo hi. absurd (omega arith))
]

scan_total :
    (left first : ℕ) (taken : List ℕ)
    → ((port : ℕ) × (scan left first taken ≡ ok port))
      ⊎ ((scan left first taken ≡ err port_pool_exhausted)
          × ((p : ℕ) → first ≤ p → p < first + left → contains taken p ≡ true))
unfolding scan
scan_total zero first taken = inr (refl, λ p lo hi. absurd (omega arith))
scan_total (suc left) first taken = elim (Bool-cases (contains taken first)) [
  | inr free ↦ inl (first, ground arith)
  | inl used ↦ elim (scan_total left (first + 1) taken) [
    | inl (port, e) ↦ inl (port, ground arith)
    | inr (e, full) ↦ inr (
      ground arith,
      λ p lo hi. elim (Bool-cases (p == first)) [
        | inl same ↦ ground arith
        | inr other ↦ full p (ground arith) (omega arith)
      ],
    )
  ]
]

-- A chosen port lies in the pool, is not assigned, is the least such port of the pool, and is one that
-- `ValidateRequestedPort` accepts.
pub next_available_port_least :
    (pool : PortPool) (assigned : List ℕ) (port : ℕ)
    → next_available_port pool assigned ≡ ok port
    → (in_pool pool port ≡ true)
      × (contains assigned port ≡ false)
      × ((p : ℕ) → in_pool pool p ≡ true → p < port → contains assigned p ≡ true)
      × (validate_requested_port pool port assigned ≡ ok tt)
unfolding next_available_port in_pool capacity validate_requested_port
next_available_port_least pool assigned port h =
    let least = scan-Least (capacity pool) pool.first assigned port h in
    let inside : leb pool.first port && leb port pool.last ≡ true = ground arith in
    (inside, least.2, (λ p i lt. least.3 p (ground arith) lt), ground (arith, least.2, inside))

remove : ℕ → List ℕ → List ℕ
remove a [] = []
remove a (x ∷ xs) = if x == a then xs else x ∷ remove a xs

length-remove :
    (a : ℕ) (xs : List ℕ) → contains xs a ≡ true → suc (length (remove a xs)) ≡ length xs
unfolding remove
length-remove a [] h = cc
length-remove a (x ∷ xs) h = ground (arith, length-remove a xs)

contains-remove :
    (a b : ℕ) (xs : List ℕ) → a ≢ b → contains xs b ≡ true → contains (remove a xs) b ≡ true
unfolding remove
contains-remove a b [] n h = cc
contains-remove a b (x ∷ xs) n h = ground (arith, contains-remove a b xs n)

-- A list that contains n consecutive numbers has n elements at least.
pigeonhole :
    (n first : ℕ) (xs : List ℕ)
    → ((p : ℕ) → first ≤ p → p < first + n → contains xs p ≡ true)
    → n ≤ length xs
pigeonhole zero first xs h = omega arith
pigeonhole (suc n) first xs h = omega (
  arith,
  length-remove first xs (h first (omega arith) (omega arith)),
  pigeonhole n (first + 1) (remove first xs)
      (λ p lo hi. contains-remove first p xs (omega arith) (h p (omega arith) (omega arith))),
)

-- While fewer ports are assigned than the pool has, a port is found; and where none is found, the error
-- is that the pool is exhausted, and every port of the pool is assigned.
pub next_available_port_total :
    (pool : PortPool) (assigned : List ℕ)
    → (length assigned < capacity pool → (port : ℕ) × (next_available_port pool assigned ≡ ok port))
      × ((e : Error)
          → next_available_port pool assigned ≡ err e
          → (e ≡ port_pool_exhausted)
            × ((p : ℕ) → in_pool pool p ≡ true → contains assigned p ≡ true))
unfolding next_available_port in_pool capacity
next_available_port_total pool assigned = elim (scan_total (capacity pool) pool.first assigned) [
  | inl (port, found) ↦ ((λ few. (port, found)), λ e h. cc)
  | inr (none_left, full) ↦ (
    (λ few. absurd (omega (arith, pigeonhole (capacity pool) pool.first assigned full))),
    λ e h. (cc, λ p i. full p (ground arith) (ground arith)),
  )
]
