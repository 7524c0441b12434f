-- ===== src/Traffic/Counters/Names.antt =====
-- internal/adapter/xray/stats.go, `CounterName`.
use xpanel.Prelude.{
  ℕ, zero, suc, ◌+◌, ◌≡◌, refl, sym, ap, ◌∙◌, [], ◌∷◌, ◌++◌, Option, none, some, arith, length,
  length-append, ◌≢◌,
}
use xpanel.Prelude.Text.{Text, codes}
use xpanel.Traffic.Counters.{Direction, uplink, downlink, direction_name, counter_name}

nth : ℕ → Text → ℕ
nth k [] = 0
nth zero (x ∷ xs) = x
nth (suc k) (x ∷ xs) = nth k xs

nth-append : (xs ys : Text) (k n : ℕ) → n ≡ length xs + k → nth n (xs ++ ys) ≡ nth k ys
unfolding nth
nth-append [] ys k n e = let same : n ≡ k = omega arith in rw same refl
nth-append (x ∷ xs) ys k zero e = absurd (omega arith)
nth-append (x ∷ xs) ys k (suc n) e = nth-append xs ys k n (omega arith)

append_left : (xs ys s t : Text) → length xs ≡ length ys → (xs ++ s) ≡ (ys ++ t) → xs ≡ ys
append_left [] [] s t h e = refl
append_left [] (y ∷ ys) s t h e = absurd (omega arith)
append_left (x ∷ xs) [] s t h e = absurd (omega arith)
append_left (x ∷ xs) (y ∷ ys) s t h e = grind (arith, append_left xs ys s t)

abbrev ending : Direction → Text
ending d = codes ">>>traffic>>>" ++ direction_name d

lengths : (xs ys s t : Text) → (xs ++ s) ≡ (ys ++ t) → length xs + length s ≡ length ys + length t
lengths xs ys s t e = sym (length-append xs s) ∙ ap length e ∙ length-append ys t

up-ne-down : (xs ys : Text) → (xs ++ ending uplink) ≢ (ys ++ ending downlink)
unfolding nth
up-ne-down xs ys e =
    let n = lengths xs ys (ending uplink) (ending downlink) e in
    let left = nth-append xs (ending uplink) 14 (length xs + 14) refl in
    let right = nth-append ys (ending downlink) 16 (length xs + 14) (omega (arith, n)) in
    omega (arith, left, right, ap (nth (length xs + 14)) e)

ending_unique :
    (xs ys : Text) (d e : Direction) → (xs ++ ending d) ≡ (ys ++ ending e) → (xs ≡ ys) × (d ≡ e)
ending_unique xs ys uplink uplink h =
    (append_left xs ys _ _ (omega (arith, lengths xs ys (ending uplink) (ending uplink) h)) h, refl)
ending_unique xs ys downlink downlink h = (
  append_left xs ys _ _ (omega (arith, lengths xs ys (ending downlink) (ending downlink) h)) h,
  refl,
)
ending_unique xs ys uplink downlink h = absurd (up-ne-down xs ys h)
ending_unique xs ys downlink uplink h = absurd (up-ne-down ys xs (sym h))

tail : Text → Text
tail [] = []
tail (x ∷ xs) = xs

content : Option Text → Text
content none = []
content (some n) = n

-- The name of a counter determines its identity and its direction, also for identities that contain the
-- separator: two counters never share a name.
pub counter_name_injective :
    (i j : Text) (d e : Direction) (n : Text)
    → counter_name i d ≡ some n
    → counter_name j e ≡ some n
    → (i ≡ j) × (d ≡ e)
unfolding counter_name content tail
counter_name_injective [] j d e n p q = cc
counter_name_injective (x ∷ i) [] d e n p q = cc
counter_name_injective (x ∷ i) (y ∷ j) d e n p q =
    let same = ap content (p ∙ sym q) in
    ending_unique (x ∷ i) (y ∷ j) d e
      (ap (λ t. tail (tail (tail (tail (tail (tail (tail t))))))) same)
