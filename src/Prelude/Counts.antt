-- ===== src/Prelude/Counts.antt =====
-- Rows counted before and after an insertion or an update.
use Prim.Native.Nat.{◌+◌, ◌≤◌}
use mathlib.Core.Path.{◌≡◌, refl, sym, subst}
use mathlib.Core.Logic.{inl, inr}
use mathlib.Core.Bool.{Bool, true, false}
use mathlib.Core.List.{List, [], ◌∷◌, ◌++◌}
use mathlib.Core.Option.{some}
use native.Mathlib.Omega.{arith}
use xpanel.Prelude.Tests.{if◌then◌else◌, Bool-cases}
use xpanel.Prelude.Lists.{count_if, any, find, update_where, update_where-none}

module _ {ℓ} {A : Type ℓ} where
  pub count_if-append :
      (p : A → Bool) (xs : List A) (y : A)
      → count_if p (xs ++ y ∷ []) ≡ count_if p xs + (if p y then 1 else 0)
  count_if-append p [] y = ground arith
  count_if-append p (x ∷ xs) y = ground (arith, count_if-append p xs y)

  pub any-count_if : (p : A → Bool) (xs : List A) → any p xs ≡ false → count_if p xs ≡ 0
  any-count_if p [] h = refl
  any-count_if p (x ∷ xs) h = ground (arith, any-count_if p xs)

  -- An update that makes no new row pass leaves no more rows that pass.
  pub count_if-le :
      (q p : A → Bool) (f : A → A) (xs : List A)
      → ((x : A) → p x ≡ true → q (f x) ≡ true → q x ≡ true)
      → count_if q (update_where p f xs) ≤ count_if q xs
  unfolding update_where
  count_if-le q p f [] keep = omega arith
  count_if-le q p f (x ∷ xs) keep = ground (arith, keep x, count_if-le q p f xs keep)

  -- The same for the one row that is updated.
  pub count_if-one :
      (q p : A → Bool) (f : A → A) (xs : List A) (r : A)
      → find p xs ≡ some r
      → count_if p xs ≤ 1
      → (q (f r) ≡ true → q r ≡ true)
      → count_if q (update_where p f xs) ≤ count_if q xs
  unfolding find update_where
  count_if-one q p f [] r e one keep = omega arith
  count_if-one q p f (x ∷ xs) r e one keep = elim (Bool-cases (p x)) [
    | inr n ↦
        ground
          (arith, n, count_if-one q p f xs r (ground (arith, e, n)) (ground (arith, one, n)) keep)
    | inl y ↦
        let same : x ≡ r = ground (arith, e, y) in
        let rest : update_where p f xs ≡ xs = update_where-none p f xs (ground (arith, one, y)) in
        ground (arith, y, rest, subst (λ z. q (f z) ≡ true → q z ≡ true) (sym same) keep)
  ]
