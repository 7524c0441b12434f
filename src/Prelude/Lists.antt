-- ===== src/Prelude/Lists.antt =====
-- Lists measured by native numbers, rows selected and updated as SQL does, predicates over lists.
use Prim.Native.Nat.{ℕ, suc, ◌+◌}
use mathlib.Core.Path.{◌≡◌, refl, subst}
use mathlib.Core.Logic.{inl, inr}
use mathlib.Core.Bool.{Bool, true, false, ◌||◌}
use mathlib.Core.List.{List, [], ◌∷◌, ◌++◌}
use mathlib.Core.Option.{Option, none, some}
use native.Mathlib.Omega.{arith}
use xpanel.Prelude.Tests.{◌==◌, if◌then◌else◌, is_some, Bool-cases}

module _ {ℓ} {A : Type ℓ} where
  abbrev pub length : List A → ℕ
  length [] = 0
  length (x ∷ xs) = suc (length xs)

  pub length-append : (xs ys : List A) → length (xs ++ ys) ≡ length xs + length ys
  length-append [] ys = omega arith
  length-append (x ∷ xs) ys = omega (arith, length-append xs ys)

  abbrev pub any : (A → Bool) → List A → Bool
  any p [] = false
  any p (x ∷ xs) = p x || any p xs

  abbrev pub count_if : (A → Bool) → List A → ℕ
  count_if p [] = 0
  count_if p (x ∷ xs) = let rest = count_if p xs in if p x then suc rest else rest

  -- `SELECT ... WHERE p LIMIT 1`: the first row that passes.
  unfoldable pub find : (A → Bool) → List A → Option A
  find p [] = none
  find p (x ∷ xs) = let rest = find p xs in if p x then some x else rest

  -- `UPDATE ... SET f WHERE p`.
  unfoldable pub update_where : (A → Bool) → (A → A) → List A → List A
  update_where p f [] = []
  update_where p f (x ∷ xs) = (if p x then f x else x) ∷ update_where p f xs

  -- The rows that pass, in order.
  unfoldable pub select : (A → Bool) → List A → List A
  select p [] = []
  select p (x ∷ xs) = let rest = select p xs in if p x then x ∷ rest else rest

  abbrev pub on_row : (A → Bool) → (A → A) → A → A
  on_row p f x = if p x then f x else x

  abbrev pub on_some : (A → A) → Option A → Option A
  on_some f none = none
  on_some f (some x) = some (f x)

  -- A row selected by a column that the update leaves alone is the updated row.
  pub find-update_where :
      (q p : A → Bool) (f : A → A) (xs : List A)
      → ((x : A) → q (f x) ≡ q x)
      → find q (update_where p f xs) ≡ on_some (on_row p f) (find q xs)
  unfolding find update_where
  find-update_where q p f [] same = refl
  find-update_where q p f (x ∷ xs) same = ground (arith, same x, find-update_where q p f xs same)

  pub count_if-update_where :
      (q p : A → Bool) (f : A → A) (xs : List A)
      → ((x : A) → q (f x) ≡ q x)
      → count_if q (update_where p f xs) ≡ count_if q xs
  unfolding update_where
  count_if-update_where q p f [] same = refl
  count_if-update_where q p f (x ∷ xs) same =
      ground (arith, same x, count_if-update_where q p f xs same)

  pub update_where-none :
      (p : A → Bool) (f : A → A) (xs : List A) → count_if p xs ≡ 0 → update_where p f xs ≡ xs
  unfolding update_where
  update_where-none p f [] h = refl
  update_where-none p f (x ∷ xs) h = ground (arith, update_where-none p f xs)

  pub find-append :
      (q : A → Bool) (xs ys : List A)
      → find q (xs ++ ys) ≡ (if is_some (find q xs) then find q xs else find q ys)
  unfolding find
  find-append q [] ys = refl
  find-append q (x ∷ xs) ys = ground (arith, find-append q xs ys)

  pub find-true : (q : A → Bool) (xs : List A) (x : A) → find q xs ≡ some x → q x ≡ true
  unfolding find
  find-true q [] x h = cc
  find-true q (y ∷ xs) x h = elim (Bool-cases (q y)) [
    | inl t ↦ ground arith
    | inr f ↦ find-true q xs x (ground arith)
  ]

module _ {ℓ κ} {A : Type ℓ} where
  abbrev pub All : (A → Type κ) → List A → Type κ
  All P [] = Unit
  All P (x ∷ xs) = P x × All P xs

-- Membership of a number, as the code tests it.
abbrev pub contains : List ℕ → ℕ → Bool
contains [] a = false
contains (x ∷ xs) a = x == a || contains xs a

module _ {ℓ κ} {A : Type ℓ} where
  -- What holds of every row still does after an update that preserves it.
  pub All-update_where :
      (P : A → Type κ) (p : A → Bool) (f : A → A) (xs : List A)
      → ((x : A) → P x → p x ≡ true → P (f x))
      → All P xs
      → All P (update_where p f xs)
  unfolding update_where
  All-update_where P p f [] keep h = tt
  All-update_where P p f (x ∷ xs) keep h = elim (Bool-cases (p x)) [
    | inl t ↦ rw t (keep x h.0 t, All-update_where P p f xs keep h.1)
    | inr n ↦ rw n (h.0, All-update_where P p f xs keep h.1)
  ]

  pub All-find :
      (P : A → Type κ) (q : A → Bool) (xs : List A) (x : A) → All P xs → find q xs ≡ some x → P x
  unfolding find
  All-find P q [] x h e = cc
  All-find P q (y ∷ xs) x h e = elim (Bool-cases (q y)) [
    | inl t ↦ let same : y ≡ x = ground arith in subst P same h.0
    | inr n ↦ All-find P q xs x h.1 (ground arith)
  ]
