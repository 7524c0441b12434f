-- ===== src/Fake/Clients.antt =====
-- internal/adapter/xray/fake/fake.go: the clients of an inbound, after an insertion and after an erasure.
use xpanel.Prelude.{
  ◌≡◌, ◌≢◌, refl, sym, ◌∙◌, Bool, true, ◌&&◌, List, [], ◌∷◌, map, ◌⊎◌, inl, inr, any, All, arith,
  Bool-cases,
}
use xpanel.Prelude.Text.{Text, text_eq, text_eq_sound, text_eq_refl, text_ne}
use xpanel.Prelude.Assoc.{Table, insert, erase, text_cases}
use xpanel.Ports.{RemoteUser}

abbrev pub shows : Text → Text × RemoteUser → Bool
shows id e = text_eq e.1.statistics_id id && e.1.present

abbrev pub holds_client : Text → Table RemoteUser → Bool
holds_client id = any (shows id)

-- A client stands under its own identity.
abbrev pub IsOwnKey : Text × RemoteUser → Type 0
IsOwnKey e = e.0 ≡ e.1.statistics_id

pub holds_client-erase :
    (id k : Text) (m : Table RemoteUser)
    → All IsOwnKey m
    → id ≢ k
    → holds_client id (erase k m) ≡ holds_client id m
unfolding erase
holds_client-erase id k [] h n = refl
holds_client-erase id k ((x, u) ∷ m) h n = elim (Bool-cases (text_eq x k)) [
  | inl y ↦
      rw (y, text_ne u.statistics_id id λ e. n (sym e ∙ sym h.0 ∙ text_eq_sound x k y))
        (holds_client-erase id k m h.1 n)
  | inr z ↦ rw z (ground (arith, holds_client-erase id k m h.1 n))
]

pub holds_client-insert_other :
    (id k : Text) (u : RemoteUser) (m : Table RemoteUser)
    → All IsOwnKey m
    → u.statistics_id ≡ k
    → id ≢ k
    → holds_client id (insert k u m) ≡ holds_client id m
unfolding insert
holds_client-insert_other id k u m h e n =
    rw (text_ne u.statistics_id id λ s. n (sym s ∙ e)) (holds_client-erase id k m h n)

-- A present client that is inserted is there, and no other is lost.
pub holds_client-insert :
    (id k : Text) (u : RemoteUser) (m : Table RemoteUser)
    → All IsOwnKey m
    → u.statistics_id ≡ k
    → u.present ≡ true
    → (id ≡ k) ⊎ (holds_client id m ≡ true)
    → holds_client id (insert k u m) ≡ true
unfolding insert
holds_client-insert id k u m h e p there = elim (text_cases id k) [
  | inl same ↦ rw (e ∙ sym same, text_eq_refl id, p) refl
  | inr n ↦ elim there [
    | inl same ↦ absurd (n same)
    | inr t ↦ holds_client-insert_other id k u m h e n ∙ t
  ]
]

pub any-map :
    {A B : Type 0} (p : B → Bool) (f : A → B) (xs : List A)
    → any p (map f xs) ≡ any (λ x. p (f x)) xs
any-map p f [] = refl
any-map p f (x ∷ xs) = ground (arith, any-map p f xs)
