-- ===== src/Store/Users/Replays.antt =====
-- internal/persistence/sqlite/store_templates.go, `commandReplay`, and store.go, `WithWriteTx`, under the commands.
use xpanel.Prelude.{
  ◌≡◌, ◌⊎◌, inl, inr, refl, sym, ap, subst, ◌∙◌, true, false, List, [], ◌∷◌, ◌++◌, Option, none,
  some, arith, find, find-append, Option-cases, if◌then◌else◌,
}
use xpanel.Prelude.Text.{text_eq, text_eq_refl}
use xpanel.Domain.Errors.{Error, Result, ok, err, conflict_error, Result-cases}
use xpanel.Store.Users.{CommandRow, Panel, command_replay, with_command}

-- A saved command is found again, if its identifier was new.
found-saved :
    (c : CommandRow) (commands : List CommandRow)
    → command_replay c commands ≡ ok false
    → find (λ x. text_eq x.id c.id) (commands ++ c ∷ []) ≡ some c
unfolding command_replay
found-saved c commands h = elim (Option-cases (find (λ x. text_eq x.id c.id) commands)) [
  | inr (x, y) ↦ absurd (ground (arith, h, y))
  | inl nothing ↦ find-append (λ x. text_eq x.id c.id) commands (c ∷ []) ∙ rw nothing last
]
  where
    last : find (λ x. text_eq x.id c.id) (c ∷ []) ≡ some c
    last = unfold find in rw (text_eq_refl c.id) refl

-- The answer to a request whose identifier was saved.
replayed :
    (c d : CommandRow) (commands : List CommandRow)
    → d.id ≡ c.id
    → find (λ x. text_eq x.id c.id) commands ≡ some c
    → command_replay d commands ≡ (
        if text_eq c.fingerprint d.fingerprint
        then ok true
        else err (conflict_error "request identifier was reused with different input"))
unfolding command_replay
replayed c d commands same found =
    let found' : find (λ x. text_eq x.id d.id) commands ≡ some c =
      ap (λ i. find (λ x. text_eq x.id i) commands) same ∙ found in
    rw (command_replay, found') refl

module _ {T B : Type 0} (c d : CommandRow) (body : T → Result (T × B)) (p : Panel T) where
  -- The three outcomes of a command, and of the same request and another one after it.
  abbrev pub IsOnce : Panel T × Result (Option B) → Type 0
  IsOnce (p', r) =
      ((b : B) × (r ≡ ok (some b))
        × (with_command c body p' ≡ (p', ok none))
        × (with_command d body p'
            ≡ (p', err (conflict_error "request identifier was reused with different input"))))
      ⊎ ((r ≡ ok none) × (p' ≡ p))
      ⊎ ((e : Error) × (r ≡ err e) × (p' ≡ p))

  repeated :
      (p' : Panel T)
      → d.id ≡ c.id
      → text_eq c.fingerprint d.fingerprint ≡ false
      → find (λ x. text_eq x.id c.id) p'.commands ≡ some c
      → (with_command c body p' ≡ (p', ok none))
        × (with_command d body p'
            ≡ (p', err (conflict_error "request identifier was reused with different input")))
  unfolding with_command
  repeated p' same other found =
      let again : command_replay c p'.commands ≡ ok true =
        rw (replayed c c p'.commands refl found, text_eq_refl c.fingerprint) refl in
      let refused : command_replay d p'.commands
          ≡ err (conflict_error "request identifier was reused with different input") =
        rw (replayed c d p'.commands same found, other) refl in
      (rw (with_command, again) refl, rw (with_command, refused) refl)

  -- For a request and another one under its identifier with a different fingerprint: if the request's
  -- effect is committed, then sending it again answers as a replay and changes nothing, and sending the
  -- other is refused and changes nothing; and a request that is refused or replayed changes nothing.
  pub with_command-IsOnce :
      d.id ≡ c.id → text_eq c.fingerprint d.fingerprint ≡ false → IsOnce (with_command c body p)
  unfolding with_command
  with_command-IsOnce same other = elim (Result-cases (command_replay c p.commands)) [
    | inr (e, y) ↦
        let run : with_command c body p ≡ (p, err e) = rw (with_command, y) refl in
        subst IsOnce (sym run) (inr (inr (e, refl, refl)))
    | inl (true, y) ↦
        let run : with_command c body p ≡ (p, ok none) = rw (with_command, y) refl in
        subst IsOnce (sym run) (inr (inl (refl, refl)))
    | inl (false, y) ↦ elim (Result-cases (body p.tables)) [
      | inr (e, z) ↦
          let run : with_command c body p ≡ (p, err e) = rw (with_command, y, z) refl in
          subst IsOnce (sym run) (inr (inr (e, refl, refl)))
      | inl ((t, b), z) ↦
          let p' : Panel T = record { tables = t; commands = p.commands ++ c ∷ [] } in
          let run : with_command c body p ≡ (p', ok (some b)) = rw (with_command, y, z) refl in
          let (again, refused) = repeated p' same other (found-saved c p.commands y) in
          subst IsOnce (sym run) (inl (b, refl, again, refused))
    ]
  ]
