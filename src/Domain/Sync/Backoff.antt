-- ===== src/Domain/Sync/Backoff.antt =====
-- internal/domain/sync.go, `NextBackoff`. Durations are nanoseconds.
use native.Mathlib.Nat.{pow-suc}
use xpanel.Prelude.{
  ℕ, zero, suc, ◌+◌, ◌-◌, ◌*◌, ◌/◌, ◌%◌, ◌^◌, ◌≤◌, ◌<◌, ◌≡◌, Option, none, some, arith, ltb, ◌==◌,
  if◌then◌else◌, min,
}
use xpanel.Prelude.Int.{ℤ, pos, negsuc, ◌-ℤ◌, ◌≤ℤ◌, ◌<ℤ◌}

abbrev pub second : ℕ
second = 1_000_000_000

-- The non-positive values of `max`, and of `attempt`, are replaced by these.
abbrev pub effective_max : ℤ → ℕ
effective_max (pos zero) = 30 * second
effective_max (pos (suc n)) = suc n
effective_max (negsuc n) = 30 * second

abbrev pub effective_attempt : ℤ → ℕ
effective_attempt (pos n) = n
effective_attempt (negsuc n) = 0

-- The loop, on the attempts that are left. `cap` is doubled only while it is at
-- most half of `max`, so the int64 product does not wrap.
pub backoff_loop : ℕ → ℕ → ℕ → ℕ
backoff_loop zero max cap = cap
backoff_loop (suc i) max cap =
    let rest = backoff_loop i max (cap * 2) in
    if ltb cap max then (if ltb (max / 2) cap then max else rest) else cap

abbrev pub cap_at : ℕ → ℕ → ℕ
cap_at max cap = if ltb max cap then max else cap

unfoldable pub backoff_cap : ℤ → ℤ → ℕ
unfolding backoff_loop
backoff_cap attempt max =
    let m = effective_max max in cap_at m (backoff_loop (effective_attempt attempt) m second)

-- `if value < 0 { value = -value }` on int64: the least value is its own negation.
abbrev pub abs_int64 : ℤ → ℤ
abs_int64 (pos n) = pos n
abs_int64 (negsuc n) = if suc n == 2 ^ 63 then negsuc n else pos (suc n)

-- Go's `%`, whose result has the sign of the dividend.
abbrev pub rem : ℤ → ℕ → ℤ
rem (pos n) m = pos (n % m)
rem (negsuc n) m = pos 0 -ℤ pos (suc n % m)

-- The random source is a parameter; without one the cap itself is the delay.
unfoldable pub next_backoff : ℤ → ℤ → Option (ℕ → ℤ) → ℤ
next_backoff attempt max none = pos (backoff_cap attempt max)
next_backoff attempt max (some random) =
    let cap = backoff_cap attempt max in rem (abs_int64 (random (cap + 1))) (cap + 1)

pow_pos : (i : ℕ) → 0 < 2 ^ i
pow_pos zero = omega arith
pow_pos (suc i) = omega (arith, pow_pos i, pow-suc 2 i)

-- Past `max` further doubling changes nothing.
mul_pow_ge : (i m c : ℕ) → m ≤ c → m ≤ c * 2 ^ i
mul_pow_ge i m c h = grind (arith, pow_pos i)

double_pow : (i c : ℕ) → c * 2 ^ suc i ≡ c * 2 * 2 ^ i
double_pow i c = grind (arith, pow-suc 2 i)

backoff_loop_doubles : (i max cap : ℕ) → cap_at max (backoff_loop i max cap) ≡ min max (cap * 2 ^ i)
unfolding backoff_loop
backoff_loop_doubles zero max cap = ground arith
backoff_loop_doubles (suc i) max cap = ground (
  arith,
  double_pow i cap,
  mul_pow_ge (suc i) max cap,
  mul_pow_ge i max (cap * 2),
  backoff_loop_doubles i max (cap * 2),
)

-- The delay's cap, computed by a loop that stops early so as not to overflow, is the smaller of the
-- configured maximum and one second doubled once for each attempt.
pub backoff_cap_closed_form :
    (attempt max : ℤ)
    → backoff_cap attempt max ≡ min (effective_max max) (second * 2 ^ effective_attempt attempt)
unfolding backoff_cap
backoff_cap_closed_form attempt max =
    backoff_loop_doubles (effective_attempt attempt) (effective_max max) second

abs_nonneg : (v : ℤ) → negsuc (2 ^ 63 - 1) <ℤ v → pos 0 ≤ℤ abs_int64 v
abs_nonneg v h = ground arith

bound : (v : ℤ) (c : ℕ) → pos 0 ≤ℤ v → (pos 0 ≤ℤ rem v (c + 1)) × (rem v (c + 1) ≤ℤ pos c)
bound (pos n) c h = grind arith
bound (negsuc n) c h = absurd (omega arith)

-- Whatever the random source returns, unless it is the least int64, the delay lies between zero and
-- that cap; without a source it is the cap.
pub next_backoff_bounds :
    (attempt max : ℤ) (random : ℕ → ℤ)
    → ((n : ℕ) → negsuc (2 ^ 63 - 1) <ℤ random n)
    → (pos 0 ≤ℤ next_backoff attempt max (some random))
      × (next_backoff attempt max (some random) ≤ℤ next_backoff attempt max none)
unfolding next_backoff
next_backoff_bounds attempt max random h =
    bound (abs_int64 (random (backoff_cap attempt max + 1))) (backoff_cap attempt max)
      (abs_nonneg (random (backoff_cap attempt max + 1)) (h (backoff_cap attempt max + 1)))
