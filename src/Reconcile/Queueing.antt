-- ===== src/Reconcile/Queueing.antt =====
-- internal/application/reconciliation_service.go: what a round puts into the drift queue.
use xpanel.Prelude.{
  Option, ℕ, ◌≡◌, ◌⊎◌, inl, inr, refl, sym, ◌∙◌, subst, Bool, true, false, not, ◌&&◌, ◌||◌, List,
  [], ◌∷◌, ◌++◌, select, some, arith, All, All-update_where, any, update_where, Bool-cases,
}
use xpanel.Prelude.Text.{Text, text_eq, text_eq_refl, text_eq_sound}
use xpanel.Domain.Errors.{Result, ok, Result-cases}
use xpanel.Domain.Inbound.{rotation_safety_id}
use xpanel.Ports.{RemoteUser}
use xpanel.Store.Tables.{Db, DriftRow, DriftKind, identity, inbound}
use xpanel.Store.Drift.{
  enqueue_drift_removal, new_removal, supersede_failed, is_open_removal, owner_key, null_text,
}
use xpanel.Store.Drift.Single.{owner_key-null_text}
use xpanel.Reconcile.{Request, queue_all, unknown_clients, is_unknown}

abbrev pub added : Text → Request → ℕ → DriftRow
added id q now = new_removal id q.template q.tag q.kind q.statistics now

abbrev is_identity : DriftKind → Bool
is_identity identity = true
is_identity inbound = false

abbrev pub same_kind : DriftKind → DriftKind → Bool
same_kind identity k = is_identity k
same_kind inbound k = not (is_identity k)

same_kind_refl : (k : DriftKind) → same_kind k k ≡ true
same_kind_refl identity = refl
same_kind_refl inbound = refl

append-All :
    {A : Type 0} (P : A → Type 0) (xs : List A) (y : A) → All P xs → P y → All P (xs ++ y ∷ [])
append-All P [] y h p = (p, tt)
append-All P (x ∷ xs) y h p = (h.0, append-All P xs y h.1 p)

module _ (fresh : Db → Text) (now : ℕ) where
  abbrev pushed : Request → Db → Db × Result Bool
  pushed q db = enqueue_drift_removal (fresh db) q.template q.tag q.kind q.statistics now db

  -- What the tables hold after one call that is no error.
  pushed-rows :
      (q : Request) (db : Db) (b : Bool)
      → (pushed q db).1 ≡ ok b
      → (((pushed q db).0 ≡ db)
          × (any (is_open_removal q.template q.statistics) db.drift_removals ≡ true))
        ⊎ ((pushed q db).0.drift_removals
            ≡ supersede_failed
                (fresh db)
                q.template
                q.statistics
                (db.drift_removals ++ added (fresh db) q now ∷ []))
  unfolding enqueue_drift_removal
  pushed-rows q db b h = elim (Bool-cases (any (λ r. text_eq r.id (fresh db)) db.drift_removals)) [
    | inl taken ↦ absurd (ground (arith, h, taken))
    | inr new ↦
        elim (Bool-cases (any (is_open_removal q.template q.statistics) db.drift_removals)) [
          | inl running ↦ inl (rw (enqueue_drift_removal, new, running) refl, running)
          | inr none_open ↦ inr (rw (enqueue_drift_removal, new, none_open) refl)
        ]
  ]

  queue_all-inv :
      (q : Request) (qs : List Request) (db db' : Db)
      → queue_all fresh now (q ∷ qs) db ≡ ok db'
      → (b : Bool) × ((pushed q db).1 ≡ ok b) × (queue_all fresh now qs (pushed q db).0 ≡ ok db')
  unfolding queue_all
  queue_all-inv q qs db db' h = elim (Result-cases (pushed q db).1) [
    | inr (e, y) ↦ absurd (ground (arith, h, y))
    | inl (b, y) ↦ (b, y, ground (arith, h, y))
  ]

  -- What holds of all rows holds after a loop whose new rows it holds of.
  pub queue_all-All :
      (P : DriftRow → Type 0) (qs : List Request) (db db' : Db)
      → ((r : DriftRow) (id : Text) → P r → P (record r { superseded_by = some id }))
      → All (λ q. (id : Text) → P (added id q now)) qs
      → queue_all fresh now qs db ≡ ok db'
      → All P db.drift_removals
      → All P db'.drift_removals
  queue_all-All P [] db db' keep new h p =
      let same : db ≡ db' = unfold queue_all in ground (arith, h) in
      subst (λ (x : Db). All P x.drift_removals) same p
  queue_all-All P (q ∷ qs) db db' keep new h p =
      let (b, y, h') = queue_all-inv q qs db db' h in
      let next : All P (pushed q db).0.drift_removals = elim (pushed-rows q db b y) [
        | inl (same, _) ↦ subst (λ (x : Db). All P x.drift_removals) (sym same) p
        | inr rows ↦ subst (All P) (sym rows) (
            All-update_where P _ _ (db.drift_removals ++ added (fresh db) q now ∷ [])
              (λ r pr _. keep r (fresh db) pr)
              (append-All P db.drift_removals (added (fresh db) q now) p (new.0 (fresh db))))
      ] in
      queue_all-All P qs (pushed q db).0 db' keep new.1 h' next

  any-update_same :
      (q p : DriftRow → Bool) (f : DriftRow → DriftRow) (rows : List DriftRow)
      → ((r : DriftRow) → q (f r) ≡ q r)
      → any q (update_where p f rows) ≡ any q rows
  unfolding update_where
  any-update_same q p f [] same = refl
  any-update_same q p f (r ∷ rows) same = ground (arith, same r, any-update_same q p f rows same)

  any-append :
      (q : DriftRow → Bool) (rows : List DriftRow) (r : DriftRow)
      → any q (rows ++ r ∷ []) ≡ (any q rows || q r)
  any-append q [] r = ground arith
  any-append q (x ∷ rows) r = ground (arith, any-append q rows r)

  abbrev is_queued : Text → Text → Db → Bool
  is_queued template statistics db = any (is_open_removal template statistics) db.drift_removals

  -- The rows of a key after a call: as before, and with the new one.
  pushed-queued :
      (q : Request) (db : Db) (b : Bool) (t s : Text)
      → (pushed q db).1 ≡ ok b
      → (is_queued t s db || is_open_removal t s (added (fresh db) q now)) ≡ true
      → is_queued t s (pushed q db).0 ≡ true
  pushed-queued q db b t s y h = elim (pushed-rows q db b y) [
    | inr rows ↦ rw rows (
        any-update_same (is_open_removal t s) _ _ (db.drift_removals ++ added (fresh db) q now ∷ [])
          (λ _. refl)
        ∙ any-append (is_open_removal t s) db.drift_removals (added (fresh db) q now)
        ∙ h)
    | inl (same, running) ↦ elim (Bool-cases (is_queued t s db)) [
      | inl there ↦ rw same there
      | inr missing ↦
          let mine : is_open_removal t s (added (fresh db) q now) ≡ true =
            ground (arith, h, missing) in
          let a : q.template ≡ t =
            sym (owner_key-null_text q.template)
            ∙ text_eq_sound (owner_key (null_text q.template)) t (ground (arith, mine)) in
          let c : q.statistics ≡ s = text_eq_sound q.statistics s (ground (arith, mine)) in
          rw same (
            subst (λ x. is_queued x s db ≡ true) a
              (subst (λ x. is_queued q.template x db ≡ true) c running))
    ]
  ]

  new-open :
      (q : Request) (id : Text) → is_open_removal q.template q.statistics (added id q now) ≡ true
  new-open q id =
      rw (owner_key-null_text q.template, text_eq_refl q.template, text_eq_refl q.statistics) refl

  queue_all-stays :
      (qs : List Request) (db db' : Db) (t s : Text)
      → queue_all fresh now qs db ≡ ok db'
      → is_queued t s db ≡ true
      → is_queued t s db' ≡ true
  queue_all-stays [] db db' t s h y =
      let same : db ≡ db' = unfold queue_all in ground (arith, h) in
      subst (λ x. is_queued t s x ≡ true) same y
  queue_all-stays (q ∷ qs) db db' t s h y =
      let (b, z, h') = queue_all-inv q qs db db' h in
      queue_all-stays qs (pushed q db).0 db' t s h' (pushed-queued q db b t s z (ground (arith, y)))

  -- After a loop without an error, every request has an open removal, its own or one before it.
  pub queue_all-queued :
      (qs : List Request) (db db' : Db)
      → queue_all fresh now qs db ≡ ok db'
      → All (λ q. is_queued q.template q.statistics db' ≡ true) qs
  queue_all-queued [] db db' h = tt
  queue_all-queued (q ∷ qs) db db' h =
      let (b, y, h') = queue_all-inv q qs db db' h in
      (
        queue_all-stays qs (pushed q db).0 db' q.template q.statistics h' (
            pushed-queued q db b q.template q.statistics y (ground (arith, new-open q (fresh db)))),
        queue_all-queued qs (pushed q db).0 db' h',
      )

  -- Where and what a removal of a client is to remove, for each client.
  module _ (shape : Text → Text × DriftKind) where
    -- An open removal of the client, at its inbound and of its kind.
    abbrev pub is_shaped : Text → Text → DriftRow → Bool
    is_shaped t s r =
        is_open_removal t s r && text_eq r.inbound_tag (shape s).0 && same_kind r.kind (shape s).1

    -- An open removal of these tables is of its shape, or its client had one before.
    abbrev AllShaped : Db → Db → Type 0
    AllShaped before db =
        (t s : Text)
        → is_queued t s db ≡ true
        → (any (is_shaped t s) db.drift_removals ≡ true) ⊎ (is_queued t s before ≡ true)

    added-shaped :
        (q : Request) (id t s : Text)
        → shape q.statistics ≡ (q.tag, q.kind)
        → is_open_removal t s (added id q now) ≡ true
        → is_shaped t s (added id q now) ≡ true
    added-shaped q id t s e y =
        let c : q.statistics ≡ s = text_eq_sound q.statistics s (ground (arith, y)) in
        let shaped : shape s ≡ (q.tag, q.kind) = subst (λ x. shape x ≡ (q.tag, q.kind)) c e in
        rw shaped (rw (text_eq_refl q.tag, same_kind_refl q.kind) (ground (arith, y)))

    appended-any :
        (p : DriftRow → Bool) (q : Request) (db : Db)
        → ((r : DriftRow) (x : Option Text) → p (record r { superseded_by = x }) ≡ p r)
        → any p (
            supersede_failed
              (fresh db)
              q.template
              q.statistics
              (db.drift_removals ++ added (fresh db) q now ∷ []))
          ≡ (any p db.drift_removals || p (added (fresh db) q now))
    appended-any p q db same =
        any-update_same p _ (λ r. record r { superseded_by = some (fresh db) })
          (db.drift_removals ++ added (fresh db) q now ∷ []) (λ r. same r (some (fresh db)))
        ∙ any-append p db.drift_removals (added (fresh db) q now)

    pushed-AllShaped :
        (q : Request) (before db : Db) (b : Bool)
        → shape q.statistics ≡ (q.tag, q.kind)
        → (pushed q db).1 ≡ ok b
        → AllShaped before db
        → AllShaped before (pushed q db).0
    pushed-AllShaped q before db b e y h = elim (pushed-rows q db b y) [
      | inl (same, _) ↦ subst (AllShaped before) (sym same) h
      | inr rows ↦ λ t s open_now.
          let new = added (fresh db) q now in
          let counted = appended-any (is_open_removal t s) q db (λ _ _. refl) in
          let shaped = appended-any (is_shaped t s) q db (λ _ _. refl) in
          let either : (is_queued t s db || is_open_removal t s new) ≡ true =
            sym counted ∙ rw (← rows) (open_now) in
          elim (Bool-cases (is_open_removal t s new)) [
            | inl mine ↦
                let here = added-shaped q (fresh db) t s e mine in
                inl (rw rows (shaped ∙ ground (arith, here)))
            | inr other ↦ elim (h t s (ground (arith, either, other))) [
              | inl there ↦ inl (rw rows (shaped ∙ ground (arith, there)))
              | inr earlier ↦ inr earlier
            ]
          ]
    ]

    queue_all-AllShaped :
        (qs : List Request) (before db db' : Db)
        → All (λ q. shape q.statistics ≡ (q.tag, q.kind)) qs
        → queue_all fresh now qs db ≡ ok db'
        → AllShaped before db
        → AllShaped before db'
    queue_all-AllShaped [] before db db' es h all =
        let same : db ≡ db' = unfold queue_all in ground (arith, h) in
        subst (AllShaped before) same all
    queue_all-AllShaped (q ∷ qs) before db db' es h all =
        let (b, y, h') = queue_all-inv q qs db db' h in
        queue_all-AllShaped qs before (pushed q db).0 db' es.1 h'
          (pushed-AllShaped q before db b es.0 y all)

    -- After a loop without an error, every request has an open removal of its shape, or its client had an
    -- open removal before the loop.
    pub queue_all-shaped :
        (qs : List Request) (db db' : Db)
        → All (λ q. shape q.statistics ≡ (q.tag, q.kind)) qs
        → queue_all fresh now qs db ≡ ok db'
        → All
            (λ q.
              (any (is_shaped q.template q.statistics) db'.drift_removals ≡ true)
              ⊎ (any (is_open_removal q.template q.statistics) db.drift_removals ≡ true))
            qs
    queue_all-shaped qs db db' es h = shaped_ones qs (queue_all-queued qs db db' h)
      where
        shaped_ones :
            (rest : List Request)
            → All (λ q. is_queued q.template q.statistics db' ≡ true) rest
            → All
                (λ q.
                  (any (is_shaped q.template q.statistics) db'.drift_removals ≡ true)
                  ⊎ (any (is_open_removal q.template q.statistics) db.drift_removals ≡ true))
                rest
        shaped_ones [] all = tt
        shaped_ones (q ∷ rest) all = (
          queue_all-AllShaped qs db db db' es h (λ t s y. inr y) q.template q.statistics all.0,
          shaped_ones rest all.1,
        )

-- The removal would take the client from the inbound, or the inbound itself.
abbrev pub aims_at : Text → Text → DriftRow → Bool
aims_at tag client r =
    text_eq r.inbound_tag tag && (not (is_identity r.kind) || text_eq r.statistics_id client)

abbrev pub IsSpared : Text → Text → Db → Type 0
IsSpared tag client db = All (λ r. aims_at tag client r ≡ false) db.drift_removals

-- The clients that a loop passes over: the user's own, and while a rotation is open its transition client.
abbrev pub is_kept : Text → Bool → Text → Bool
is_kept own rotating client =
    text_eq client own || (rotating && text_eq client (rotation_safety_id own))

-- An open removal of the client from the inbound with the tag.
abbrev pub is_removal_of : Text → Text → Text → DriftRow → Bool
is_removal_of template tag client r =
    is_open_removal template client r && text_eq r.inbound_tag tag && same_kind r.kind identity

-- What the user's loop leaves to the queue, for every client that is present and is not kept.
abbrev pub AllQueued : Text → Text → Text → Bool → Db → Db → List RemoteUser → Type 0
AllQueued template tag own rotating db db' [] = Unit
AllQueued template tag own rotating db db' (u ∷ us) =
    (((u.present && not (is_kept own rotating u.statistics_id)) ≡ false)
      ⊎ (any (is_removal_of template tag u.statistics_id) db'.drift_removals ≡ true)
      ⊎ (any (is_open_removal template u.statistics_id) db.drift_removals ≡ true))
    × AllQueued template tag own rotating db db' us

unknown-other :
    (own client : Text) (rotating : Bool) (u : RemoteUser)
    → is_kept own rotating client ≡ true
    → is_unknown own rotating u ≡ true
    → text_eq u.statistics_id client ≡ false
unknown-other own client rotating u k y = elim (Bool-cases (text_eq u.statistics_id client)) [
  | inr n ↦ n
  | inl e ↦
      let same : client ≡ u.statistics_id = sym (text_eq_sound u.statistics_id client e) in
      let kept : is_kept own rotating u.statistics_id ≡ true =
        subst (λ x. is_kept own rotating x ≡ true) same k in
      absurd (ground (arith, y, kept))
]

unknown-spared :
    (template tag own client : Text) (rotating : Bool) (now : ℕ) (us : List RemoteUser)
    → is_kept own rotating client ≡ true
    → All
        (λ q. (id : Text) → aims_at tag client (added id q now) ≡ false)
        (unknown_clients template tag own rotating us)
unfolding unknown_clients select
unknown-spared template tag own client rotating now [] k = tt
unknown-spared template tag own client rotating now (u ∷ us) k =
    let rest = unknown-spared template tag own client rotating now us k in
    elim (Bool-cases (is_unknown own rotating u)) [
      | inr n ↦ rw n rest
      | inl y ↦
          let other = unknown-other own client rotating u k y in
          rw y ((λ id. ground (arith, other)), rest)
    ]

abbrev IsLeft : Text → Text → Db → Db → Request → Type 0
IsLeft template tag db db' q =
    (any (is_removal_of q.template tag q.statistics) db'.drift_removals ≡ true)
    ⊎ (any (is_open_removal q.template q.statistics) db.drift_removals ≡ true)

unknown-queued :
    (template tag own : Text) (rotating : Bool) (db db' : Db) (us : List RemoteUser)
    → All (IsLeft template tag db db') (unknown_clients template tag own rotating us)
    → AllQueued template tag own rotating db db' us
unfolding unknown_clients select
unknown-queued template tag own rotating db db' [] h = tt
unknown-queued template tag own rotating db db' (u ∷ us) h =
    elim (Bool-cases (is_unknown own rotating u)) [
      | inr n ↦
          let h' : All (IsLeft template tag db db') (unknown_clients template tag own rotating us) =
            rw n at h in
          (inl (ground (arith, n)), unknown-queued template tag own rotating db db' us h')
      | inl y ↦
          let (first, h') = rw y at h in
          (inr first, unknown-queued template tag own rotating db db' us h')
    ]

unknown-shaped :
    (template tag own : Text) (rotating : Bool) (us : List RemoteUser)
    → All
        (λ q. ◌≡◌ {A = Text × DriftKind} (tag, identity) (q.tag, q.kind))
        (unknown_clients template tag own rotating us)
unfolding unknown_clients select
unknown-shaped template tag own rotating [] = tt
unknown-shaped template tag own rotating (u ∷ us) =
    let rest = unknown-shaped template tag own rotating us in
    elim (Bool-cases (is_unknown own rotating u)) [ inr n ↦ rw n rest | inl y ↦ rw y (refl, rest) ]

-- For a user's inbound with the clients that Xray lists: after the loop over them, without an error, every
-- present client that is neither the user's own nor, during a rotation, its transition client, has an open
-- removal of this client from this inbound, unless an open removal of the template and the client was in
-- the queue before; and no removal is aimed at the inbound or at a client that is kept, if none was before.
pub unknown_clients_queued :
    (fresh : Db → Text) (now : ℕ) (template tag own client : Text) (rotating : Bool)
    (us : List RemoteUser) (db db' : Db)
    → is_kept own rotating client ≡ true
    → IsSpared tag client db
    → queue_all fresh now (unknown_clients template tag own rotating us) db ≡ ok db'
    → AllQueued template tag own rotating db db' us × IsSpared tag client db'
unknown_clients_queued fresh now template tag own client rotating us db db' k spared h =
    let qs = unknown_clients template tag own rotating us in
    (
      unknown-queued template tag own rotating db db' us (
          queue_all-shaped fresh now (λ _. (tag, identity)) qs db db'
            (unknown-shaped template tag own rotating us) h),
      queue_all-All fresh now (λ r. aims_at tag client r ≡ false) qs db db' (λ _ _ p. p)
          (unknown-spared template tag own client rotating now us k) h spared,
    )
