-- ===== src/Store/Drift/Single.antt =====
-- internal/persistence/sqlite/store_drift.go: the open removals of one key.
use xpanel.Prelude.{
  ℕ, ◌+◌, ◌≤◌, ◌≡◌, refl, sym, ap, ◌∙◌, subst, Bool, true, false, not, ◌&&◌, List, [], ◌∷◌, ◌++◌,
  Option, none, some, arith, inl, inr, any, find, count_if, update_where, count_if-append,
  any-count_if, count_if-le, count_if-one, Bool-cases, Option-cases, ◌==◌,
}
use xpanel.Prelude.Text.{Text, text_eq, text_eq_sound}
use xpanel.Domain.Sync.{retry_wait, succeeded, permanent_failed}
use xpanel.Store.Tables.{Db, DriftRow, DriftKind}
use xpanel.Store.Sync.{is_open}
use xpanel.Store.Drift.{
  owner_key, null_text, has_key, is_open_removal, is_stale, new_removal, enqueue_drift_removal,
  is_removal_due, may_lease, leased_until, lease_removal, lease_due_drift_removal, holds_removal,
  may_renew_removal, renew_drift_removal_lease, set_removal, completing, rescheduling, failing,
  finish_drift_removal, removal_ended, complete_drift_removal, reschedule_drift_removal,
  fail_drift_removal,
}
use xpanel.Store.Drift.Steps.{
  Step, enqueue, lease, renew, complete, reschedule, fail, Reach, here, next,
}

-- No key has two open removals, and no identifier two rows.
pub record IsSound (rows : List DriftRow) : Type 0 where
  pub single :
      (template statistics : Text) → count_if (is_open_removal template statistics) rows ≤ 1
  pub keyed : (id : Text) → count_if (λ r. text_eq r.id id) rows ≤ 1

pub owner_key-null_text : (t : Text) → owner_key (null_text t) ≡ t
owner_key-null_text [] = refl
owner_key-null_text (x ∷ t) = refl

abbrev Renames : (DriftRow → DriftRow) → Type 0
Renames f =
    (r : DriftRow)
    → ((f r).id ≡ r.id)
      × (owner_key (f r).template_id ≡ owner_key r.template_id)
      × ((f r).statistics_id ≡ r.statistics_id)

open-before :
    (f : DriftRow → DriftRow) (t s : Text) (r : DriftRow)
    → Renames f
    → (is_open (f r).state ≡ true → is_open r.state ≡ true)
    → is_open_removal t s (f r) ≡ true
    → is_open_removal t s r ≡ true
open-before f t s r same closed h =
    let (_, a, b) = same r in
    ground (arith, ap (λ x. text_eq x t) a, ap (λ x. text_eq x s) b, h, closed)

id-before :
    (f : DriftRow → DriftRow) (id : Text) (r : DriftRow)
    → Renames f
    → text_eq (f r).id id ≡ true
    → text_eq r.id id ≡ true
id-before f id r same h = rw (← (same r).0) h

-- A closed row is not opened: then the rows stay sound.
update-IsSound :
    (p : DriftRow → Bool) (f : DriftRow → DriftRow) (rows : List DriftRow)
    → Renames f
    → ((r : DriftRow) → p r ≡ true → is_open (f r).state ≡ true → is_open r.state ≡ true)
    → IsSound rows
    → IsSound (update_where p f rows)
update-IsSound p f rows same closed h = record {
  single = λ t s. omega (
    arith,
    count_if-le (is_open_removal t s) p f rows (λ r y z. open-before f t s r same (closed r y) z),
    h.single t s,
  );
  keyed = λ id. omega (
    arith,
    count_if-le (λ r. text_eq r.id id) p f rows (λ r y z. id-before f id r same z),
    h.keyed id,
  );
}

-- The same where only the row of the identifier is known to be open.
set_removal-IsSound :
    (id : Text) (f : DriftRow → DriftRow) (db : Db) (r : DriftRow)
    → Renames f
    → find (λ x. text_eq x.id id) db.drift_removals ≡ some r
    → is_open r.state ≡ true
    → IsSound db.drift_removals
    → IsSound (set_removal id f db).drift_removals
set_removal-IsSound id f db r same found running h = record {
  single = λ t s. omega (
    arith,
    count_if-one (is_open_removal t s) (λ x. text_eq x.id id) f db.drift_removals r found
        (h.keyed id) (open-before f t s r same (λ _. running)),
    h.single t s,
  );
  keyed = λ other. omega (
    arith,
    count_if-one (λ x. text_eq x.id other) (λ x. text_eq x.id id) f db.drift_removals r found
        (h.keyed id) (id-before f other r same),
    h.keyed other,
  );
}

holds_removal-open :
    (owner : Text) (r : DriftRow) → holds_removal owner r ≡ true → is_open r.state ≡ true
unfolding holds_removal
holds_removal-open owner r h = ground arith

finish-IsSound :
    (id owner : Text) (apply : Db → Db) (f : DriftRow → DriftRow) (db : Db)
    → Renames f
    → (apply db).drift_removals ≡ (set_removal id f db).drift_removals
    → IsSound db.drift_removals
    → IsSound (finish_drift_removal id owner apply db).0.drift_removals
unfolding finish_drift_removal
finish-IsSound id owner apply f db same does h =
    elim (Option-cases (find (λ x. text_eq x.id id) db.drift_removals)) [
      | inl nothing ↦ rw (nothing, finish_drift_removal) h
      | inr (r, found) ↦ elim (Bool-cases (holds_removal owner r)) [
        | inr not_held ↦ rw (found, not_held, finish_drift_removal) h
        | inl held ↦
            let sound =
              set_removal-IsSound id f db r same found (holds_removal-open owner r held) h in
            rw (found, held, finish_drift_removal) (subst IsSound (sym does) sound)
      ]
    ]

due-open : (now : ℕ) (r : DriftRow) → is_removal_due now r ≡ true → is_open r.state ≡ true
unfolding is_removal_due
due-open now r h = ground arith

lease-IsSound :
    (owner : Text) (now duration : ℕ) (db : Db) (selected : Option DriftRow)
    → IsSound db.drift_removals
    → IsSound (lease_removal owner now duration db selected).0.drift_removals
unfolding lease_removal
lease-IsSound owner now duration db none h = h
lease-IsSound owner now duration db (some r) h =
    elim (Bool-cases (count_if (may_lease now r) db.drift_removals == 1)) [
      | inr n ↦ rw n h
      | inl y ↦ rw y (
          update-IsSound (may_lease now r) (leased_until owner (now + duration)) db.drift_removals
            (λ _. (refl, refl, refl)) (λ x may _. due-open now x (ground (arith, may))) h)
    ]

-- A new row under a key without an open one.
append-IsSound :
    (n : DriftRow) (template : Text) (rows : List DriftRow)
    → owner_key n.template_id ≡ template
    → any (λ r. text_eq r.id n.id) rows ≡ false
    → any (is_open_removal template n.statistics_id) rows ≡ false
    → IsSound rows
    → IsSound (rows ++ n ∷ [])
append-IsSound n template rows owner fresh unopened h = record {
  single = λ t s.
      let counted = count_if-append (is_open_removal t s) rows n in
      elim (Bool-cases (is_open_removal t s n)) [
        | inr other ↦ ground (arith, counted, other, h.single t s)
        | inl mine ↦
            let a : text_eq (owner_key n.template_id) t ≡ true = ground (arith, mine) in
            let b : text_eq n.statistics_id s ≡ true = ground (arith, mine) in
            let t' : template ≡ t = sym owner ∙ text_eq_sound _ t a in
            let s' : n.statistics_id ≡ s = text_eq_sound _ s b in
            let none_open : any (is_open_removal t s) rows ≡ false =
              subst (λ x. any (is_open_removal x s) rows ≡ false) t'
                (subst (λ x. any (is_open_removal template x) rows ≡ false) s' unopened) in
            ground (arith, counted, mine, any-count_if (is_open_removal t s) rows none_open)
      ];
  keyed = λ id.
      let counted = count_if-append (λ r. text_eq r.id id) rows n in
      elim (Bool-cases (text_eq n.id id)) [
        | inr other ↦ ground (arith, counted, other, h.keyed id)
        | inl mine ↦
            let same : n.id ≡ id = text_eq_sound n.id id mine in
            let absent : any (λ r. text_eq r.id id) rows ≡ false =
              subst (λ x. any (λ r. text_eq r.id x) rows ≡ false) same fresh in
            ground (arith, counted, mine, any-count_if (λ r. text_eq r.id id) rows absent)
      ];
}

enqueue-IsSound :
    (id template tag : Text) (kind : DriftKind) (statistics : Text) (now : ℕ) (db : Db)
    → IsSound db.drift_removals
    → IsSound (enqueue_drift_removal id template tag kind statistics now db).0.drift_removals
unfolding enqueue_drift_removal
enqueue-IsSound id template tag kind statistics now db h =
    elim (Bool-cases (any (λ r. text_eq r.id id) db.drift_removals)) [
      | inl taken ↦ rw taken h
      | inr fresh ↦
          elim (Bool-cases (any (is_open_removal template statistics) db.drift_removals)) [
            | inl running ↦ rw (fresh, running) h
            | inr unopened ↦
                rw (fresh, unopened)
                  (update-IsSound
                    (λ r. has_key template statistics r && is_stale r && not (text_eq r.id id))
                    (λ r. record r { superseded_by = some id })
                    (db.drift_removals ++ new_removal id template tag kind statistics now ∷ [])
                    (λ _. (refl, refl, refl)) (λ _ _ still. still)
                    (append-IsSound (new_removal id template tag kind statistics now) template
                      db.drift_removals (owner_key-null_text template) fresh unopened h))
          ]
    ]

step-IsSound : (db db' : Db) → Step db db' → IsSound db.drift_removals → IsSound db'.drift_removals
unfolding lease_due_drift_removal renew_drift_removal_lease complete_drift_removal
    reschedule_drift_removal fail_drift_removal
step-IsSound db db' (enqueue id template tag kind statistics now e) h =
    rw e (enqueue-IsSound id template tag kind statistics now db h)
step-IsSound db db' (lease owner now duration e) h = rw e (lease-IsSound owner now duration db _ h)
step-IsSound db db' (renew id owner now duration e) h = rw e (
    update-IsSound (may_renew_removal id owner)
      (λ r. record r { lease_expires_at = some (now + duration) }) db.drift_removals
      (λ _. (refl, refl, refl)) (λ _ _ still. still) h)
step-IsSound db db' (complete id owner event e) h = rw e (
    finish-IsSound id owner (completing id event) (removal_ended succeeded) db
      (λ _. (refl, refl, refl)) refl h)
step-IsSound db db' (reschedule id owner attempts later e) h = rw e (
    finish-IsSound id owner (rescheduling id attempts later)
      (λ r. record (removal_ended retry_wait r) {
        attempt_count = attempts;
        next_attempt_at = later;
      })
      db (λ _. (refl, refl, refl)) refl h)
step-IsSound db db' (fail id owner event e) h = rw e (
    finish-IsSound id owner (failing id event) (removal_ended permanent_failed) db
      (λ _. (refl, refl, refl)) refl h)

-- In every state that the calls of any workers and reconcilers reach, in any order, from a sound queue,
-- there is at most one open removal for each owner and identity, and one row for each identifier.
pub Reach-IsSound : {s t : Db} → IsSound s.drift_removals → Reach s t → IsSound t.drift_removals
Reach-IsSound h here = h
Reach-IsSound h (next {t} {u} r step) = step-IsSound t u step (Reach-IsSound h r)
