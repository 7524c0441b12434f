-- ===== src/Domain/Port.antt =====
-- internal/domain/port.go: the port pool of a template and the choice of a port. Ports are numbers; a
-- negative `int` fails the same first comparison as 0 does.
pub mod Choice
use xpanel.Prelude.{
  ℕ, zero, suc, ◌+◌, ◌-◌, ◌≤◌, Bool, true, false, not, ◌&&◌, ◌||◌, List, [], ◌∷◌, ltb, leb, ◌==◌,
  if◌then◌else◌, contains, select,
}
use xpanel.Domain.Errors.{Error, Result, ok, err, validation_error, conflict_error}

abbrev pub min_assignable_port : ℕ
min_assignable_port = 1024

abbrev pub max_assignable_port : ℕ
max_assignable_port = 65535

-- `Start` and `End`.
pub record PortPool : Type 0 where
  pub first : ℕ
  pub last : ℕ

abbrev unassignable : ℕ → Bool
unassignable port = ltb port min_assignable_port || ltb max_assignable_port port

unfoldable pub new_port_pool : ℕ → ℕ → Result PortPool
new_port_pool first last =
    if unassignable first
    then err (validation_error "port_pool_start" "port pool start must be between 1024 and 65535")
    else if unassignable last
    then err (validation_error "port_pool_end" "port pool end must be between 1024 and 65535")
    else if ltb last first
    then err
        (validation_error "port_pool_end" "port pool end must not be smaller than port pool start")
    else ok (record { first = first; last = last })

-- The number of ports from the first to the last; Go's `int` is not positive where this is 0.
unfoldable pub capacity : PortPool → ℕ
capacity p = p.last + 1 - p.first

unfoldable pub in_pool : PortPool → ℕ → Bool
in_pool p port = leb p.first port && leb port p.last

abbrev pub port_pool_exhausted : Error
port_pool_exhausted =
    conflict_error "port pool is exhausted; widen the range on the inbound template"

-- The loop of `NextAvailablePort`, on the number of ports left.
pub scan : ℕ → ℕ → List ℕ → Result ℕ
scan zero port taken = err port_pool_exhausted
scan (suc left) port taken =
    let rest = scan left (port + 1) taken in if not (contains taken port) then ok port else rest

unfoldable pub next_available_port : PortPool → List ℕ → Result ℕ
unfolding scan capacity
next_available_port pool assigned = scan (capacity pool) pool.first assigned

unfoldable pub validate_requested_port : PortPool → ℕ → List ℕ → Result (Unit {0})
unfolding in_pool
validate_requested_port pool port assigned =
    if not (in_pool pool port)
    then err (validation_error "port" "port is outside the template port pool")
    else if contains assigned port
    then err (conflict_error "port is already assigned to another user")
    else ok tt

-- `sort.Ints`: an ascending sort.
abbrev pub insert : ℕ → List ℕ → List ℕ
insert x [] = x ∷ []
insert x (y ∷ ys) = if leb x y then x ∷ y ∷ ys else y ∷ insert x ys

abbrev pub sort : List ℕ → List ℕ
sort [] = []
sort (x ∷ xs) = insert x (sort xs)

unfoldable pub outside_pool_ports : PortPool → List ℕ → List ℕ
unfolding in_pool select
outside_pool_ports pool assigned = sort (select (λ port. not (in_pool pool port)) assigned)
