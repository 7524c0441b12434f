-- ===== src/Store/Accounts/Counting.antt =====
-- internal/persistence/sqlite/store_traffic.go, `CommitTrafficBatch`: what an update adds where.
use xpanel.Prelude.{
  ℕ, ◌+◌, ◌≤◌, ◌≡◌, inl, inr, not, ◌||◌, ◌==◌, refl, sym, ap, ◌∙◌, Bool, true, List, [], ◌∷◌, ◌++◌,
  Option, some, arith, any, count_if, find, find-update_where, find-true, update_where, Bool-cases,
  if◌then◌else◌,
}
use xpanel.Prelude.Text.{Text, text_eq, text_eq_refl}
use xpanel.Traffic.Update.{TrafficUpdate}
use xpanel.Store.Accounts.{Books, CycleRow, TotalRow, DailyRow, is_open_of, open_cycle}
use xpanel.Store.Accounts.Batch.{
  write_cursor, add_totals, add_daily, charge_cycle, count_traffic, write_events, write_traffic,
  is_day_of, charged,
}

abbrev pub total_of : Text → Books → Option TotalRow
total_of id b = find (λ r. text_eq r.allocation_id id) b.totals

-- The sum of the days of an allocation.
abbrev pub days_uplink : Text → List DailyRow → ℕ
days_uplink id [] = 0
days_uplink id (r ∷ rs) =
    let rest = days_uplink id rs in if text_eq r.allocation_id id then r.uplink + rest else rest

abbrev pub days_downlink : Text → List DailyRow → ℕ
days_downlink id [] = 0
days_downlink id (r ∷ rs) =
    let rest = days_downlink id rs in if text_eq r.allocation_id id then r.downlink + rest else rest

abbrev grown : TrafficUpdate → DailyRow → DailyRow
grown u r = record r {
  uplink = r.uplink + u.uplink_delta;
  downlink = r.downlink + u.downlink_delta;
}

-- The days of an allocation grow by what one of them does.
days-none :
    (u : TrafficUpdate) (rs : List DailyRow)
    → count_if (is_day_of u) rs ≡ 0
    → update_where (is_day_of u) (grown u) rs ≡ rs
unfolding update_where
days-none u [] h = refl
days-none u (r ∷ rs) h = ground (arith, days-none u rs)

days-update :
    (u : TrafficUpdate) (rs : List DailyRow)
    → count_if (is_day_of u) rs ≡ 1
    → let rs' = update_where (is_day_of u) (grown u) rs in
      (days_uplink u.allocation_id rs' ≡ days_uplink u.allocation_id rs + u.uplink_delta)
      × (days_downlink u.allocation_id rs' ≡ days_downlink u.allocation_id rs + u.downlink_delta)
unfolding update_where
days-update u [] h = absurd (omega arith)
days-update u (r ∷ rs) h = elim (Bool-cases (is_day_of u r)) [
  | inl y ↦ rw (y, days-none u rs (ground (arith, h, y))) (ground (arith, y))
  | inr n ↦ rw n (ground (arith, days-update u rs (ground (arith, h, n))))
]

days-append :
    (id : Text) (rs : List DailyRow) (r : DailyRow)
    → text_eq r.allocation_id id ≡ true
    → (days_uplink id (rs ++ r ∷ []) ≡ days_uplink id rs + r.uplink)
      × (days_downlink id (rs ++ r ∷ []) ≡ days_downlink id rs + r.downlink)
days-append id [] r h = ground (arith, h)
days-append id (x ∷ rs) r h = ground (arith, days-append id rs r h)

count-any :
    {A : Type 0} (p : A → Bool) (xs : List A)
    → any p xs ≡ true
    → count_if p xs ≤ 1
    → count_if p xs ≡ 1
count-any p [] h k = absurd (ground arith)
count-any p (x ∷ xs) h k = ground (arith, count-any p xs)

days-add_daily :
    (u : TrafficUpdate) (b : Books)
    → count_if (is_day_of u) b.daily ≤ 1
    → (days_uplink u.allocation_id (add_daily u b).daily
        ≡ days_uplink u.allocation_id b.daily + u.uplink_delta)
      × (days_downlink u.allocation_id (add_daily u b).daily
          ≡ days_downlink u.allocation_id b.daily + u.downlink_delta)
unfolding add_daily
days-add_daily u b k = elim (Bool-cases (any (is_day_of u) b.daily)) [
  | inl y ↦ rw y (days-update u b.daily (count-any (is_day_of u) b.daily y k))
  | inr n ↦ rw n (days-append u.allocation_id b.daily _ (text_eq_refl u.allocation_id))
]

abbrev pub raised : TrafficUpdate → TotalRow → TotalRow
raised u t = record t {
  uplink = t.uplink + u.uplink_delta;
  downlink = t.downlink + u.downlink_delta;
}

add_zero : (n d : ℕ) → d ≡ 0 → n + d ≡ n
add_zero n d h = omega (arith, h)

charged-zero :
    (u : TrafficUpdate) (c : CycleRow) → u.uplink_delta ≡ 0 → u.downlink_delta ≡ 0 → charged u c ≡ c
charged-zero u c h k =
    rw
      (
        add_zero c.gross_uplink u.uplink_delta h,
        add_zero c.gross_downlink u.downlink_delta k,
        add_zero c.accounted_uplink u.uplink_delta h,
        add_zero c.accounted_downlink u.downlink_delta k,
      )
      refl

raised-zero :
    (u : TrafficUpdate) (t : TotalRow) → u.uplink_delta ≡ 0 → u.downlink_delta ≡ 0 → raised u t ≡ t
raised-zero u t h k =
    rw (add_zero t.uplink u.uplink_delta h, add_zero t.downlink u.downlink_delta k) refl

-- The four places that an update's deltas go to.
abbrev pub IsCounted : TrafficUpdate → TotalRow → CycleRow → Books → Books → Type 0
IsCounted u t c b b' =
    (total_of u.allocation_id b'
      ≡ some (record t {
        uplink = t.uplink + u.uplink_delta;
        downlink = t.downlink + u.downlink_delta;
      }))
    × (open_cycle u.allocation_id b'
        ≡ some (record c {
          gross_uplink = c.gross_uplink + u.uplink_delta;
          gross_downlink = c.gross_downlink + u.downlink_delta;
          accounted_uplink = c.accounted_uplink + u.uplink_delta;
          accounted_downlink = c.accounted_downlink + u.downlink_delta;
        }))
    × (days_uplink u.allocation_id b'.daily ≡ days_uplink u.allocation_id b.daily + u.uplink_delta)
    × (days_downlink u.allocation_id b'.daily
        ≡ days_downlink u.allocation_id b.daily + u.downlink_delta)

module _ (u : TrafficUpdate) (now : ℕ) (b : Books) (t : TotalRow) (c : CycleRow) where
  nothing-IsCounted :
      u.uplink_delta ≡ 0
      → u.downlink_delta ≡ 0
      → total_of u.allocation_id b ≡ some t
      → open_cycle u.allocation_id b ≡ some c
      → IsCounted u t c b b
  nothing-IsCounted h k x y = (
    x ∙ ap some (sym (raised-zero u t h k)),
    y ∙ ap some (sym (charged-zero u c h k)),
    omega (arith, h),
    omega (arith, k),
  )

  something-IsCounted :
      count_if (is_day_of u) b.daily ≤ 1
      → total_of u.allocation_id b ≡ some t
      → open_cycle u.allocation_id b ≡ some c
      → IsCounted u t c b (charge_cycle u (add_daily u (add_totals u b)))
  unfolding charge_cycle add_totals add_daily open_cycle
  something-IsCounted one x y =
      let mine = λ (r : TotalRow). text_eq r.allocation_id u.allocation_id in
      let days = days-add_daily u (add_totals u b) one in
      (
        find-update_where mine mine (raised u) b.totals (λ _. refl)
            ∙ rw x (rw (find-true mine b.totals t x) refl),
        find-update_where (is_open_of u.allocation_id) (is_open_of u.allocation_id) (charged u)
              b.cycles (λ _. refl)
            ∙ rw y (rw (find-true (is_open_of u.allocation_id) b.cycles c y) refl),
        days.0,
        days.1,
      )

  count_traffic-IsCounted :
      count_if (is_day_of u) b.daily ≤ 1
      → total_of u.allocation_id b ≡ some t
      → open_cycle u.allocation_id b ≡ some c
      → IsCounted u t c b (count_traffic u b)
  unfolding count_traffic
  count_traffic-IsCounted one x y =
      elim (Bool-cases (not (u.uplink_delta == 0) || not (u.downlink_delta == 0))) [
        | inl some_traffic ↦ rw (IsCounted, some_traffic) (something-IsCounted one x y)
        | inr none_at_all ↦
            rw (IsCounted, none_at_all)
              (nothing-IsCounted (ground (arith, none_at_all)) (ground (arith, none_at_all)) x y)
      ]

-- An update that is written adds the same deltas to the lifetime total, to the days, whether today has a
-- row or not, and to the open cycle, to its gross and its accounted bytes alike.
pub write_traffic-IsCounted :
    (u : TrafficUpdate) (now : ℕ) (b : Books) (t : TotalRow) (c : CycleRow)
    → count_if (is_day_of u) b.daily ≤ 1
    → total_of u.allocation_id b ≡ some t
    → open_cycle u.allocation_id b ≡ some c
    → IsCounted u t c b (write_traffic u now b)
unfolding write_traffic write_cursor write_events open_cycle
write_traffic-IsCounted u now b t c one x y =
    count_traffic-IsCounted u now (write_cursor u b) t c one x y
