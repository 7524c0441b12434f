-- ===== src/Store/Users/Holding.antt =====
-- internal/persistence/sqlite/store_inbounds.go and store_users.go: the inbound that an allocation holds.
use xpanel.Prelude.{
  ℕ, ◌≤◌, ◌≡◌, refl, ◌∙◌, Bool, true, false, List, [], ◌∷◌, ◌++◌, Option, none, some, arith, any,
  find, find-true, find-update_where, update_where, count_if, Bool-cases, inl, inr,
}
use xpanel.Prelude.Text.{Text, text_eq, text_eq_refl}
use xpanel.Store.Tables.{InboundRow}
use xpanel.Store.Sync.{is_unreleased_of}
use xpanel.Store.Users.{is_listening_at, moved_to}

-- The row of the allocation has this one's address, port and tag, and is released when this one is.
abbrev pub Holds : Text → InboundRow → List InboundRow → Type 0
Holds id i rows =
    (j : InboundRow) × (find (λ k. text_eq k.allocation_id id) rows ≡ some j)
    × (j.listen_address ≡ i.listen_address)
    × (j.port ≡ i.port)
    × (j.inbound_tag ≡ i.inbound_tag)
    × (j.released_at ≡ i.released_at)

-- A write of the wanted presence leaves what is held.
pub flagged-Holds :
    (id allocation_id : Text) (desired : Bool) (i : InboundRow) (rows : List InboundRow)
    → Holds id i rows
    → Holds id i (
        update_where
          (is_unreleased_of allocation_id)
          (λ k. record k { desired_present = desired })
          rows)
flagged-Holds id allocation_id desired i rows (j, e, address, port, tag, released) =
    let f = λ (k : InboundRow). record k { desired_present = desired } in
    let found =
      find-update_where (λ k. text_eq k.allocation_id id) (is_unreleased_of allocation_id) f rows
        (λ _. refl) in
    elim (Bool-cases (is_unreleased_of allocation_id j)) [
      | inl y ↦ (f j, found ∙ rw e (rw y refl), address, port, tag, released)
      | inr n ↦ (j, found ∙ rw e (rw n refl), address, port, tag, released)
    ]

-- The one row of the allocation is the row that listens at its port.
find-listening :
    (id : Text) (port : ℕ) (rows : List InboundRow) (i : InboundRow)
    → find (is_listening_at id port) rows ≡ some i
    → count_if (λ k. text_eq k.allocation_id id) rows ≤ 1
    → find (λ k. text_eq k.allocation_id id) rows ≡ some i
unfolding find
find-listening id port [] i e one = absurd (ground (arith, e))
find-listening id port (k ∷ rows) i e one = elim (Bool-cases (is_listening_at id port k)) [
  | inl y ↦
      let own : text_eq k.allocation_id id ≡ true = ground (arith, y) in
      rw own (ground (arith, y, e))
  | inr n ↦
      let later : find (is_listening_at id port) rows ≡ some i = ground (arith, n, e) in
      elim (Bool-cases (text_eq k.allocation_id id)) [
        | inl own ↦ absurd (none_left rows later (ground (arith, one, own)))
        | inr other ↦ rw other (find-listening id port rows i later (ground (arith, one, other)))
      ]
]
  where
    none_left :
        (rest : List InboundRow)
        → find (is_listening_at id port) rest ≡ some i
        → count_if (λ k. text_eq k.allocation_id id) rest ≡ 0
        → ⊥
    none_left [] h z = ground (arith, h)
    none_left (k ∷ rest) h z = elim (Bool-cases (is_listening_at id port k)) [
      | inl y ↦ ground (arith, y, z)
      | inr n ↦ none_left rest (ground (arith, n, h)) (ground (arith, z))
    ]

unreleased : (r : Option ℕ) → elim r [ none ↦ true | some _ ↦ false ] ≡ true → r ≡ none
unreleased none h = refl
unreleased (some t) h = cc

-- A move changes the port of the allocation's row, and nothing else that is held.
pub moved-Holds :
    (id : Text) (old_port new_port : ℕ) (rows : List InboundRow) (i : InboundRow)
    → find (is_listening_at id old_port) rows ≡ some i
    → count_if (λ k. text_eq k.allocation_id id) rows ≤ 1
    → (find (λ k. text_eq k.allocation_id id) rows ≡ some i)
      × (i.port ≡ old_port)
      × (i.released_at ≡ none)
      × Holds id
          (record i { port = new_port })
          (update_where (is_listening_at id old_port) (moved_to new_port) rows)
moved-Holds id old_port new_port rows i e one =
    let row = find-listening id old_port rows i e one in
    let here = find-true (is_listening_at id old_port) rows i e in
    let found =
      find-update_where (λ k. text_eq k.allocation_id id) (is_listening_at id old_port)
        (moved_to new_port) rows (λ _. refl) in
    (
      row,
      ground (arith, here),
      unreleased i.released_at (ground (arith, here)),
      (moved_to new_port i, found ∙ rw row (rw here refl), refl, refl, refl, refl),
    )

-- A row of an allocation that has none yet is the row that is found.
pub appended-Holds :
    (i : InboundRow) (rows : List InboundRow)
    → any (λ k. text_eq k.allocation_id i.allocation_id) rows ≡ false
    → Holds i.allocation_id i (rows ++ i ∷ [])
unfolding find
appended-Holds i rows h = (i, there rows h, refl, refl, refl, refl)
  where
    there :
        (xs : List InboundRow)
        → any (λ k. text_eq k.allocation_id i.allocation_id) xs ≡ false
        → find (λ k. text_eq k.allocation_id i.allocation_id) (xs ++ i ∷ []) ≡ some i
    there [] h = rw (text_eq_refl i.allocation_id) refl
    there (k ∷ xs) h = ground (arith, h, there xs)
