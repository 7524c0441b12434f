-- ===== src/Prelude/Assoc.antt =====
-- A Go map with text keys, as an association list with no key twice.
use mathlib.Core.Path.{◌≡◌, refl, sym, subst, ◌∙◌}
use mathlib.Core.Logic.{◌≢◌, ◌⊎◌, inl, inr}
use mathlib.Core.Bool.{Bool, true}
use mathlib.Core.List.{List, [], ◌∷◌}
use mathlib.Core.Option.{Option, none, some}
use native.Mathlib.Omega.{arith}
use xpanel.Prelude.Tests.{if◌then◌else◌, is_some, Bool-cases}
use xpanel.Prelude.Lists.{All, any}
use xpanel.Prelude.Text.{Text, text_eq, text_eq_sound, text_eq_refl, text_ne}

abbrev pub Table : Type 0 → Type 0
Table V = List (Text × V)

-- Equal or not.
pub text_cases : (s t : Text) → (s ≡ t) ⊎ (s ≢ t)
text_cases s t = elim (Bool-cases (text_eq s t)) [
  | inl y ↦ inl (text_eq_sound s t y)
  | inr n ↦ inr (λ e. ground (arith, n, text_eq_complete' s t e))
]
  where
    text_eq_complete' : (s t : Text) → s ≡ t → text_eq s t ≡ true
    text_eq_complete' s t e = rw e (text_eq_refl t)

module _ {V : Type 0} where
  -- `m[k]`, and whether it is there.
  unfoldable pub lookup : Text → Table V → Option V
  lookup k [] = none
  lookup k ((x, v) ∷ m) = let rest = lookup k m in if text_eq x k then some v else rest

  -- `delete(m, k)`.
  unfoldable pub erase : Text → Table V → Table V
  erase k [] = []
  erase k ((x, v) ∷ m) = let rest = erase k m in if text_eq x k then rest else (x, v) ∷ rest

  -- `m[k] = v`.
  unfoldable pub insert : Text → V → Table V → Table V
  insert k v m = (k, v) ∷ erase k m

  abbrev pub has_key : Text → Table V → Bool
  has_key k m = is_some (lookup k m)

  pub lookup-erase : (k : Text) (m : Table V) → lookup k (erase k m) ≡ none
  unfolding lookup erase
  lookup-erase k [] = refl
  lookup-erase k ((x, v) ∷ m) = ground (arith, lookup-erase k m)

  pub lookup-erase_other : (k j : Text) (m : Table V) → j ≢ k → lookup j (erase k m) ≡ lookup j m
  unfolding lookup erase
  lookup-erase_other k j [] n = refl
  lookup-erase_other k j ((x, v) ∷ m) n = elim (Bool-cases (text_eq x k)) [
    | inl y ↦
        rw (y, text_ne x j (λ e. n (sym e ∙ text_eq_sound x k y))) (lookup-erase_other k j m n)
    | inr z ↦ rw z (ground (arith, lookup-erase_other k j m n))
  ]

  pub lookup-insert : (k : Text) (v : V) (m : Table V) → lookup k (insert k v m) ≡ some v
  unfolding lookup insert
  lookup-insert k v m = rw (text_eq_refl k) refl

  pub lookup-insert_other :
      (k j : Text) (v : V) (m : Table V) → j ≢ k → lookup j (insert k v m) ≡ lookup j m
  unfolding lookup insert
  lookup-insert_other k j v m n = rw (text_ne k j (λ e. n (sym e))) (lookup-erase_other k j m n)

  -- The keys that are listed are those that are there.
  pub any-lookup : (k : Text) (m : Table V) → any (λ e. text_eq e.0 k) m ≡ has_key k m
  unfolding lookup
  any-lookup k [] = refl
  any-lookup k ((x, v) ∷ m) = ground (arith, any-lookup k m)

  pub All-erase : (P : Text × V → Type 0) (k : Text) (m : Table V) → All P m → All P (erase k m)
  unfolding erase
  All-erase P k [] h = tt
  All-erase P k ((x, v) ∷ m) h = elim (Bool-cases (text_eq x k)) [
    | inl y ↦ rw y (All-erase P k m h.1)
    | inr n ↦ rw n (h.0, All-erase P k m h.1)
  ]

  pub All-lookup :
      (P : Text × V → Type 0) (k : Text) (m : Table V) (v : V)
      → All P m
      → lookup k m ≡ some v
      → (x : Text) × P (x, v)
  unfolding lookup
  All-lookup P k [] v h e = ground arith
  All-lookup P k ((x, u) ∷ m) v h e = elim (Bool-cases (text_eq x k)) [
    | inl y ↦ let same : u ≡ v = ground arith in (x, subst (λ z. P (x, z)) same h.0)
    | inr n ↦ All-lookup P k m v h.1 (ground arith)
  ]
