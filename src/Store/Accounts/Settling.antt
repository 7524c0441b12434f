-- ===== src/Store/Accounts/Settling.antt =====
-- internal/persistence/sqlite/store_quota.go, `settleCycles`: its loop ends, and where.
use xpanel.Prelude.{
  ℕ, zero, suc, ◌-◌, ◌<◌, ◌≡◌, ◌⊎◌, inl, inr, refl, sym, ap, ◌∙◌, subst, Bool, true, false, not,
  ◌&&◌, List, [], ◌∷◌, ◌++◌, Option, none, some, arith, leb, ltb, ◌==◌, any, find, find-append,
  find-true, update_where, Bool-cases, Option-cases,
}
use xpanel.Prelude.Text.{Text, text_eq, text_eq_sound, text_eq_refl}
use xpanel.Prelude.Int.{ℤ}
use xpanel.Domain.Errors.{ok, Result-cases}
use xpanel.Store.Accounts.{
  Books, CycleRow, closed, is_open_cycle, is_open_of, open_cycle, policy_of,
}
use xpanel.Store.Accounts.Cycles.{
  Loop, settled, loop_failed, unfinished, cycle_clashes, close_cycle, next_cycle, insert_cycle,
  roll, settle_loop,
}

-- A closed cycle of the same allocation that ends at the time.
abbrev pub ends_at : Text → ℕ → CycleRow → Bool
ends_at id time c =
    text_eq c.allocation_id id && (not (is_open_cycle c.status) && c.ends_at == time)

none-open :
    (id : Text) (n : CycleRow) (xs : List CycleRow)
    → n.allocation_id ≡ id
    → any (cycle_clashes n) xs ≡ false
    → find (is_open_of id) xs ≡ none
unfolding find
none-open id n [] same h = refl
none-open id n (x ∷ xs) same h =
    let h' : any (cycle_clashes n) xs ≡ false = ground (arith, h) in
    let closed' : is_open_of id x ≡ false = rw (← same) (ground (arith, h)) in
    rw closed' (none-open id n xs same h')

any-append_left :
    (p : CycleRow → Bool) (xs ys : List CycleRow) → any p xs ≡ true → any p (xs ++ ys) ≡ true
any-append_left p [] ys h = cc
any-append_left p (x ∷ xs) ys h = ground (arith, any-append_left p xs ys)

-- The row that is found and updated is there afterwards.
any-update_where :
    (q p r : CycleRow → Bool) (f : CycleRow → CycleRow) (xs : List CycleRow) (c : CycleRow)
    → find q xs ≡ some c
    → p c ≡ true
    → r (f c) ≡ true
    → any r (update_where p f xs) ≡ true
unfolding find update_where
any-update_where q p r f [] c e y z = cc
any-update_where q p r f (x ∷ xs) c e y z = elim (Bool-cases (q x)) [
  | inl t ↦ let same : x ≡ c = ground (arith, e, t) in rw (same, y, z) refl
  | inr n ↦ ground (arith, any-update_where q p r f xs c (ground (arith, e, n)) y z)
]

module _ (id : Text) where
  -- The open cycle of the tables, and the closed one before it.
  abbrev pub IsRolled : CycleRow → Books → Books → Type 0
  IsRolled c b b' =
      (d : CycleRow) × (open_cycle id b' ≡ some d)
      × (c.ends_at < d.ends_at)
      × (any (ends_at id d.starts_at) b'.cycles ≡ true)
      × (b' ≡ record b { cycles = b'.cycles })

  open_cycle-open :
      (b : Books) (c : CycleRow)
      → open_cycle id b ≡ some c
      → (text_eq c.allocation_id id ≡ true) × (is_open_cycle c.status ≡ true)
  unfolding open_cycle
  open_cycle-open b c e = ground (arith, find-true (is_open_of id) b.cycles c e)

  appended :
      (c n : CycleRow) (b : Books)
      → open_cycle id b ≡ some c
      → n.allocation_id ≡ c.allocation_id
      → n.starts_at ≡ c.ends_at
      → c.ends_at < n.ends_at
      → is_open_cycle n.status ≡ true
      → any (cycle_clashes n) (close_cycle c b).cycles ≡ false
      → IsRolled c b (record (close_cycle c b) { cycles = (close_cycle c b).cycles ++ n ∷ [] })
  unfolding open_cycle find
  appended c n b found owner start later running f =
      let (mine, was) = open_cycle-open b c found in
      let cycles = (close_cycle c b).cycles in
      let same : n.allocation_id ≡ id = owner ∙ text_eq_sound c.allocation_id id mine in
      let own : text_eq n.allocation_id id ≡ true = rw same (text_eq_refl id) in
      let row : any (ends_at id c.ends_at) cycles ≡ true =
        any-update_where (is_open_of id) (λ d. text_eq d.id c.id && is_open_cycle d.status)
          (ends_at id c.ends_at) (λ d. record d { status = closed }) b.cycles c found
          (ground (arith, text_eq_refl c.id, was)) (ground (arith, mine)) in
      (
        n,
        find-append (is_open_of id) cycles (n ∷ [])
            ∙ rw (none-open id n cycles same f, own, running) refl,
        later,
        simp start (any-append_left (ends_at id c.ends_at) cycles (n ∷ []) row),
        refl,
      )

  insert_cycle-IsRolled :
      (c n : CycleRow) (b b' : Books)
      → open_cycle id b ≡ some c
      → n.allocation_id ≡ c.allocation_id
      → n.starts_at ≡ c.ends_at
      → c.ends_at < n.ends_at
      → is_open_cycle n.status ≡ true
      → insert_cycle n (close_cycle c b) ≡ ok b'
      → IsRolled c b b'
  unfolding insert_cycle
  insert_cycle-IsRolled c n b b' found owner start later running e =
      elim (Bool-cases (any (cycle_clashes n) (close_cycle c b).cycles)) [
        | inl y ↦ absurd (ground (arith, e, y))
        | inr f ↦
            let same : record (close_cycle c b) { cycles = (close_cycle c b).cycles ++ n ∷ [] }
                ≡ b' =
              ground (arith, e, f) in
            subst (IsRolled c b) same (appended c n b found owner start later running f)
      ]

  module _ (cycle_end : ℕ → Text → ℤ → Option ℕ) (fresh : ℕ → Text) (now : ℕ) where
    roll-IsRolled :
        (rolled : ℕ) (c : CycleRow) (b b' : Books)
        → open_cycle id b ≡ some c
        → roll cycle_end fresh id now rolled c b ≡ ok b'
        → IsRolled c b b'
    unfolding roll
    roll-IsRolled rolled c b b' found e = elim (Option-cases (policy_of id b)) [
      | inl nothing ↦ absurd (ground (arith, e, nothing))
      | inr (p, y) ↦ elim (Option-cases (cycle_end c.ends_at b.quota_timezone p.reset_day)) [
        | inl nothing ↦ absurd (ground (arith, e, y, nothing))
        | inr (end, z) ↦ elim (Bool-cases (leb end c.ends_at)) [
          | inl early ↦ absurd (ground (arith, e, y, z, early))
          | inr later ↦
              insert_cycle-IsRolled c (next_cycle (fresh rolled) b.quota_timezone p.reset_day c end)
                b b' found refl refl (ground (arith, later)) refl (ground (arith, e, y, z, later))
        ]
      ]
    ]

    -- How the loop ends: never out of fuel; if it settles, the open cycle ends after `now`, and either
    -- nothing was to be done, or the open cycle starts where a closed one of the allocation ends.
    abbrev pub IsSettled : ℕ → Books → Loop → Type 0
    IsSettled rolled b unfinished = ⊥
    IsSettled rolled b (loop_failed e) = Unit
    IsSettled rolled b (settled n b') =
        (d : CycleRow) × (open_cycle id b' ≡ some d)
        × (now < d.ends_at)
        × (b' ≡ record b { cycles = b'.cycles })
        × (((n ≡ rolled) × (b' ≡ b))
            ⊎ ((rolled < n) × (any (ends_at id d.starts_at) b'.cycles ≡ true)))

    -- A loop that goes on after a turn ends as one that had done the turn before.
    after_turn :
        (rolled : ℕ) (c : CycleRow) (b b' : Books) (l : Loop)
        → IsRolled c b b'
        → IsSettled (suc rolled) b' l
        → IsSettled rolled b l
    after_turn rolled c b b' unfinished r h = h
    after_turn rolled c b b' (loop_failed e) r h = tt
    after_turn rolled c b b' (settled n b'') (d', found, later, row, same) (d, f, g, k, case) = (
      d,
      f,
      g,
      k ∙ ap (λ (x : Books). record x { cycles = b''.cycles }) same,
      inr (elim case [
        | inr (more, closed') ↦ (omega (arith, more), closed')
        | inl (one, stop) ↦
            let last : d' ≡ d = ground (arith, found, f, ap (open_cycle id) stop) in
            (omega (arith, one), simp (stop, sym last) row)
      ]),
    )

    settle_loop-IsSettled :
        (fuel rolled : ℕ) (b : Books)
        → 0 < fuel
        → ((c : CycleRow) → open_cycle id b ≡ some c → suc now - c.ends_at < fuel)
        → IsSettled rolled b (settle_loop cycle_end fresh id now fuel rolled b)
    unfolding settle_loop
    settle_loop-IsSettled zero rolled b p h = absurd (omega arith)
    settle_loop-IsSettled (suc fuel) rolled b p h = elim (Option-cases (open_cycle id b)) [
      | inl nothing ↦ rw (IsSettled, nothing) tt
      | inr (c, y) ↦ elim (Bool-cases (ltb now c.ends_at)) [
        | inl over ↦ rw (IsSettled, y, over) (c, y, ground (arith, over), refl, inl (refl, refl))
        | inr due ↦ elim (Result-cases (roll cycle_end fresh id now rolled c b)) [
          | inl (b', z) ↦
              let r = roll-IsRolled rolled c b b' y z in
              let left = h c y in
              let enough : (d : CycleRow) → open_cycle id b' ≡ some d → suc now - d.ends_at < fuel =
                λ d e.
                  let (d', found, later, _, _) = r in
                  let same : d' ≡ d = ground (arith, found, e) in
                  let later' : c.ends_at < d.ends_at =
                    subst (λ (x : CycleRow). c.ends_at < x.ends_at) same later in
                  ground (arith, left, due, later') in
              rw (IsSettled, y, due, z)
                (after_turn rolled c b b' _ r
                  (settle_loop-IsSettled fuel (suc rolled) b' (ground (arith, left, due)) enough))
          | inr (why, z) ↦ rw (IsSettled, y, due, z) tt
        ]
      ]
    ]

    -- The loop, with the fuel that it is given, always comes to an end, whatever ends the calendar computes.
    -- If it ends without an error, the allocation's open cycle ends after `now`, the other tables are as
    -- they were, and either nothing was due and nothing has changed, or the open cycle starts exactly
    -- where a closed one ends.
    pub settle_loop_settles :
        (b : Books) → IsSettled 0 b (settle_loop cycle_end fresh id now (suc (suc now)) 0 b)
    settle_loop_settles b =
        settle_loop-IsSettled (suc (suc now)) 0 b (omega arith) λ c e. omega arith
