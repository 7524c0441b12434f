-- ===== src/Store/Templates.antt =====
-- internal/persistence/sqlite/store_templates.go: the capability generation of the Xray process, and the
-- evidence for a template's compatibility. Times, also the boot epoch, are milliseconds; the text of an
-- epoch keeps whole seconds. The instance has its one row.
pub mod Generations
pub mod Evidence
pub mod Tests
use xpanel.Prelude.{
  ℕ, ◌+◌, ◌*◌, ◌/◌, Bool, true, false, not, ◌&&◌, ◌||◌, List, [], ◌∷◌, ◌++◌, Option, none, some,
  ltb, ◌==◌, is_some, if◌then◌else◌, update_where, select, count_if, any, map,
}
use xpanel.Prelude.Text.{Text, text_eq}
use xpanel.Domain.Errors.{Error, Result, ok, err, conflict_error}
use xpanel.Domain.Traffic.{restart_confirmed}
use xpanel.Domain.User.{AccessAllocation, is_active}
use xpanel.Store.Tables.{
  Db, InstanceRow, Health, healthy, TemplateRow, CompatibilityState, unverified, compatible,
  AuditEvent, user_by_id,
}

-- internal/ports/store.go.
pub record CapabilitySignal : Type 0 where
  pub boot_epoch : ℕ
  pub uptime_seconds : ℕ
  pub known : Bool
  pub suspected_restart : Bool

abbrev pub to_seconds : ℕ → ℕ
to_seconds t = t / 1000 * 1000

-- The three signs of another process.
unfoldable pub restarted : CapabilitySignal → ℕ → ℕ → ℕ → Bool
restarted s tolerance anchor uptime =
    restart_confirmed (some anchor) s.boot_epoch true tolerance
    || (ltb 0 uptime && ltb s.uptime_seconds uptime)
    || s.suspected_restart

-- The row after a signal, and whether the generation has advanced.
unfoldable pub advance : CapabilitySignal → ℕ → InstanceRow → InstanceRow × Bool
unfolding restarted
advance s tolerance i = if not s.known then (i, false) else elim i.boot_epoch [
  | none ↦ (
    record i {
      boot_epoch = some (to_seconds s.boot_epoch);
      last_uptime_seconds = s.uptime_seconds;
    },
    false,
  )
  | some anchor ↦
      if not (restarted s tolerance anchor i.last_uptime_seconds)
      then (
        (if ltb i.last_uptime_seconds s.uptime_seconds
            then record i { last_uptime_seconds = s.uptime_seconds }
            else i),
        false,
      )
      else (
        record i {
          boot_epoch = some (to_seconds s.boot_epoch);
          capability_generation = i.capability_generation + 1;
          last_uptime_seconds = s.uptime_seconds;
        },
        true,
      )
]

-- `AdvanceCapabilityGeneration`: the current generation, and whether it has just advanced.
unfoldable pub advance_capability_generation : CapabilitySignal → ℕ → Db → Db × (ℕ × Bool)
advance_capability_generation s tolerance db =
    let (i, advanced) = advance s tolerance db.instance_row in
    (record db { instance_row = i }, (i.capability_generation, advanced))

abbrev or_anchor : Option ℕ → Option ℕ → Option ℕ
or_anchor none epoch = epoch
or_anchor (some anchor) epoch = some anchor

-- `MarkInstanceHealthy`: the anchor is written only where there is none.
unfoldable pub mark_instance_healthy : Option ℕ → Db → Db
mark_instance_healthy epoch db = record db {
  instance_row = record db.instance_row {
    health = healthy;
    boot_epoch = or_anchor db.instance_row.boot_epoch epoch;
  };
}

unfoldable pub mark_instance_unreachable : Db → Db
mark_instance_unreachable db = record db {
  instance_row = record db.instance_row { health = Health.unreachable };
}

abbrev pub is_compatible : CompatibilityState → Bool
is_compatible compatible = true
is_compatible _ = false

-- `COALESCE(validated_generation,0)`.
abbrev pub evidence : TemplateRow → ℕ
evidence t = elim t.validated_generation [ none ↦ 0 | some g ↦ g ]

-- The `WHERE` of the stale evidence.
abbrev pub is_outdated : ℕ → TemplateRow → Bool
is_outdated generation t =
    not t.archived && is_compatible t.compatibility && not (evidence t == generation)

abbrev pub unverify : TemplateRow → TemplateRow
unverify t = record t {
  compatibility = unverified;
  validated_generation = none;
  revision = t.revision + 1;
}

-- `InvalidateStaleCapabilityEvidence`, with the templates that it sets back.
unfoldable pub invalidate_stale_capability_evidence : ℕ → Db → Db × List Text
invalidate_stale_capability_evidence generation db = if generation == 0 then (db, []) else (
  record db { templates = update_where (is_outdated generation) unverify db.templates },
  map (λ t. t.id) (select (is_outdated generation) db.templates),
)

-- `ports.ValidationOutcome`, without its texts and times.
pub record ValidationOutcome : Type 0 where
  pub template_id : Text
  pub expected_revision : ℕ
  pub state : CompatibilityState
  pub capability_generation : ℕ
  pub health : Health
  pub boot_epoch : Option ℕ
  pub audit : AuditEvent

abbrev pub is_live_at : Text → ℕ → TemplateRow → Bool
is_live_at id revision t = text_eq t.id id && t.revision == revision && not t.archived

abbrev validated : ValidationOutcome → TemplateRow → TemplateRow
validated o t = record t {
  compatibility = o.state;
  validated_generation =
      if is_compatible o.state && ltb 0 o.capability_generation
      then some o.capability_generation
      else none;
}

-- `CompleteTemplateValidation`: applied only to the revision that was validated.
unfoldable pub complete_template_validation : ValidationOutcome → Db → Db × Bool
complete_template_validation o db =
    if not (count_if (is_live_at o.template_id o.expected_revision) db.templates == 1)
    then (db, false)
    else (
      record db {
        templates =
            update_where (is_live_at o.template_id o.expected_revision) (validated o) db.templates;
        instance_row = record db.instance_row {
          health = o.health;
          boot_epoch = or_anchor db.instance_row.boot_epoch o.boot_epoch;
        };
        audit_events =
            db.audit_events
            ++ (if is_compatible o.state then o.audit else record o.audit { succeeded = false })
              ∷ [];
      },
      true,
    )

-- An allocation of a user that is not deleted keeps its template.
abbrev uses : Db → Text → AccessAllocation → Bool
uses db id a =
    text_eq a.template_id id
    && elim (user_by_id a.user_id db.users) [ none ↦ false | some u ↦ is_active u.lifecycle ]

-- `ArchiveTemplate`.
unfoldable pub archive_template : Text → ℕ → Db → Db × Result (Unit {0})
archive_template id revision db =
    if any (uses db id) db.allocations || not (count_if (is_live_at id revision) db.templates == 1)
    then (db, err (conflict_error "inbound template changed or still has managed users"))
    else (
      record db {
        templates =
            update_where (is_live_at id revision)
              (λ t. record t { archived = true; revision = t.revision + 1 }) db.templates;
      },
      ok tt,
    )
