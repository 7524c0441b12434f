-- ===== src/Reconcile/Orphans.antt =====
-- internal/application/reconciliation_service.go: the inbounds of the panel that nobody owns.
use xpanel.Prelude.{
  refl, ◌&&◌, ℕ, ◌≡◌, ◌⊎◌, inl, inr, sym, subst, Bool, true, false, List, [], ◌∷◌, select, arith,
  All, any, Bool-cases,
}
use xpanel.Prelude.Text.{Text, text_eq, text_eq_sound}
use xpanel.Domain.Errors.{ok}
use xpanel.Ports.{RemoteInbound}
use xpanel.Store.Tables.{Db, DriftRow, DriftKind, inbound}
use xpanel.Store.Drift.{is_open_removal}
use xpanel.Reconcile.{UserRecord, Request, queue_all, orphans, panel_tags, has_tag}
use xpanel.Reconcile.Queueing.{added, queue_all-All, queue_all-shaped, same_kind, aims_at, IsSpared}

abbrev pub owns : List UserRecord → Text → Bool
owns records tag = any (λ r. text_eq r.inbound_row.inbound_tag tag) records

-- An open removal of the inbound itself.
abbrev pub is_inbound_removal : Text → Text → DriftRow → Bool
is_inbound_removal template tag r =
    is_open_removal template tag r && text_eq r.inbound_tag tag && same_kind r.kind inbound

-- Every listed inbound is not the panel's, or somebody's, or has an open removal.
abbrev pub AllOwned : Text → List UserRecord → Db → Db → List RemoteInbound → Type 0
AllOwned template records db db' [] = Unit
AllOwned template records db db' (i ∷ rest) =
    ((i.panel_managed ≡ false)
      ⊎ (owns records i.inbound_tag ≡ true)
      ⊎ (any (is_inbound_removal template i.inbound_tag) db'.drift_removals ≡ true)
      ⊎ (any (is_open_removal template i.inbound_tag) db.drift_removals ≡ true))
    × AllOwned template records db db' rest

abbrev IsLeft : Db → Db → Request → Type 0
IsLeft db db' q =
    (any (is_inbound_removal q.template q.statistics) db'.drift_removals ≡ true)
    ⊎ (any (is_open_removal q.template q.statistics) db.drift_removals ≡ true)

owned :
    (template : Text) (records : List UserRecord) (db db' : Db) (inbounds : List RemoteInbound)
    → All (IsLeft db db') (orphans template (panel_tags inbounds) records)
    → AllOwned template records db db' inbounds
unfolding orphans panel_tags select
owned template records db db' [] h = tt
owned template records db db' (i ∷ rest) h = elim (Bool-cases i.panel_managed) [
  | inr foreign ↦
      let h' : All (IsLeft db db') (orphans template (panel_tags rest) records) = rw foreign at h in
      (inl foreign, owned template records db db' rest h')
  | inl ours ↦ elim (Bool-cases (owns records i.inbound_tag)) [
    | inl y ↦
        let h' : All (IsLeft db db') (orphans template (panel_tags rest) records) =
          rw (ours, y) at h in
        (inr (inl y), owned template records db db' rest h')
    | inr n ↦
        let (first, h') = rw (ours, n) at h in
        (inr (inr first), owned template records db db' rest h')
  ]
]

orphans-shaped :
    (template : Text) (records : List UserRecord) (tags : List Text)
    → All
        (λ q. ◌≡◌ {A = Text × DriftKind} (q.statistics, inbound) (q.tag, q.kind))
        (orphans template tags records)
unfolding orphans select
orphans-shaped template records [] = tt
orphans-shaped template records (t ∷ ts) =
    let rest = orphans-shaped template records ts in
    elim (Bool-cases (owns records t)) [ inl y ↦ rw y rest | inr n ↦ rw n (refl, rest) ]

other-tag :
    (records : List UserRecord) (t tag : Text)
    → owns records t ≡ false
    → owns records tag ≡ true
    → text_eq t tag ≡ false
other-tag records t tag n k = elim (Bool-cases (text_eq t tag)) [
  | inr other ↦ other
  | inl e ↦
      let same : t ≡ tag = text_eq_sound t tag e in
      let owned' : owns records t ≡ true = subst (λ x. owns records x ≡ true) (sym same) k in
      absurd (ground (arith, n, owned'))
]

spared :
    (template tag client : Text) (records : List UserRecord) (now : ℕ) (tags : List Text)
    → (owns records tag ≡ true) ⊎ (has_tag tags tag ≡ false)
    → All
        (λ q. (id : Text) → aims_at tag client (added id q now) ≡ false)
        (orphans template tags records)
unfolding orphans select
spared template tag client records now [] k = tt
spared template tag client records now (t ∷ ts) k =
    let later : (owns records tag ≡ true) ⊎ (has_tag ts tag ≡ false) = elim k [
      | inl y ↦ inl y
      | inr n ↦ inr (ground (arith, n))
    ] in
    let rest = spared template tag client records now ts later in
    elim (Bool-cases (owns records t)) [
      | inl y ↦ rw y rest
      | inr n ↦
          let other : text_eq t tag ≡ false = elim k [
            | inl y ↦ other-tag records t tag n y
            | inr unlisted ↦ ground (arith, unlisted)
          ] in
          rw n ((λ id. ground (arith, other)), rest)
    ]

-- After the loop over the inbounds that Xray lists, without an error, every one that is the panel's has an
-- owner or an open removal of the inbound itself, unless an open removal of the template and the tag was in
-- the queue before; and no removal is aimed at an inbound that has an owner, or at one that is not listed
-- as the panel's, if none was before.
pub orphans_queued :
    (fresh : Db → Text) (now : ℕ) (template tag client : Text) (records : List UserRecord)
    (inbounds : List RemoteInbound) (db db' : Db)
    → (owns records tag ≡ true) ⊎ (has_tag (panel_tags inbounds) tag ≡ false)
    → IsSpared tag client db
    → queue_all fresh now (orphans template (panel_tags inbounds) records) db ≡ ok db'
    → AllOwned template records db db' inbounds × IsSpared tag client db'
orphans_queued fresh now template tag client records inbounds db db' k safe h =
    let qs = orphans template (panel_tags inbounds) records in
    (
      owned template records db db' inbounds (
          queue_all-shaped fresh now (λ s. (s, inbound)) qs db db'
            (orphans-shaped template records (panel_tags inbounds)) h),
      queue_all-All fresh now (λ r. aims_at tag client r ≡ false) qs db db' (λ _ _ p. p)
          (spared template tag client records now (panel_tags inbounds) k) h safe,
    )
