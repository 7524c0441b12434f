-- ===== src/Store/Accounts/Tests.antt =====
-- The traffic transactions on a small database.
use xpanel.Prelude.{
  ℕ, ◌+◌, ◌≡◌, refl, arith, Bool, true, false, [], ◌∷◌, Option, none, some, find, update_where,
}
use xpanel.Prelude.Text.{Text, codes, text_eq}
use xpanel.Prelude.Int.{ℤ, pos}
use xpanel.Domain.Errors.{Result, ok, err}
use xpanel.Domain.User.{
  LifecycleState, ProjectionState, within_limit, exceeded, ManagedUser, AccessAllocation,
}
use xpanel.Domain.Sync.{new_synchronization_operation, reconcile, confirm}
use xpanel.Domain.Quota.{decide_transition, is_quota_exceeded}
use xpanel.Traffic.Update.{TrafficCursorRecord, TrafficUpdate}
use xpanel.Store.Tables.{healthy, allocation_by_id, user_by_id}
use xpanel.Store.Intent.{apply_decision, enqueue_decision}
use xpanel.Store.Accounts.{
  Books, CycleRow, TotalRow, Facts, opened, open_cycle, policy_of, read_facts,
}
use xpanel.Store.Accounts.Cycles.{settle_loop}
use xpanel.Store.Accounts.Settling.{IsSettled, settle_loop_settles}
use xpanel.Store.Accounts.Batch.{write_traffic, commit_settled}
use xpanel.Store.Accounts.Enforcing.{commit_settled-enforces}
use xpanel.Store.Accounts.Counting.{total_of, IsCounted, write_traffic-IsCounted}

abbrev pub dave : ManagedUser
dave = record { id = codes "dave"; lifecycle = LifecycleState.active; revision = 1 }

abbrev pub access : AccessAllocation
access = record {
  id = codes "a1";
  user_id = codes "dave";
  template_id = codes "t1";
  admin_enabled = true;
  quota_state = within_limit;
  projection_state = ProjectionState.present;
  observed_present = some true;
  desired_revision = 1;
  synced_revision = 1;
  desired_credential_version = 1;
  synced_credential_version = some 1;
}

abbrev pub cycle : CycleRow
cycle = record {
  id = codes "c1";
  allocation_id = codes "a1";
  starts_at = 0;
  ends_at = 30;
  timezone = codes "UTC";
  reset_day = pos 1;
  status = opened;
  gross_uplink = 40;
  gross_downlink = 50;
  accounted_uplink = 40;
  accounted_downlink = 50;
  manual_reset_count = 0;
}

abbrev no_cursor : TrafficCursorRecord
no_cursor = record {
  boot_epoch = none;
  uplink_counter = none;
  downlink_counter = none;
  uplink_epoch = 0;
  downlink_epoch = 0;
  last_observed_at = none;
  last_success_at = none;
  missing_since = none;
}

abbrev total : TotalRow
total = record { allocation_id = codes "a1"; uplink = 400; downlink = 500 }

abbrev pub books : Books
books = record {
  db = record {
    users = dave ∷ [];
    allocations = access ∷ [];
    templates = [];
    inbounds = [];
    identities = [];
    credentials = [];
    operations = [];
    instance_row = record {
      health = healthy;
      boot_epoch = none;
      capability_generation = 1;
      last_uptime_seconds = 0;
    };
    drift_removals = [];
    audit_events = [];
  };
  quota_timezone = codes "UTC";
  policies =
      record { allocation_id = codes "a1"; limit_bytes = some (pos 100); reset_day = pos 1 } ∷ [];
  cycles = cycle ∷ [];
  cursors = record { allocation_id = codes "a1"; cursor = no_cursor } ∷ [];
  totals = total ∷ [];
  daily = [];
  continuity = [];
  resets = [];
}

abbrev pub thirty_days : ℕ → Text → ℤ → Option ℕ
thirty_days start zone day = some (start + 30)

abbrev pub numbered : ℕ → Text
numbered n = 99 ∷ n ∷ []

settle_loop_settles_example :
    IsSettled
      (codes "a1")
      thirty_days
      numbered
      95
      0
      books
      (settle_loop thirty_days numbered (codes "a1") 95 97 0 books)
settle_loop_settles_example = settle_loop_settles (codes "a1") thirty_days numbered 95 books

abbrev update : TrafficUpdate
update = record {
  allocation_id = codes "a1";
  cursor = no_cursor;
  uplink_delta = 7;
  downlink_delta = 8;
  day_start_utc = 0;
  local_date = codes "1970-01-01";
  timezone = codes "UTC";
  events = [];
  quota_block =
      new_synchronization_operation (codes "o1") (codes "a1") 0 false none reconcile confirm 9;
  audit_target = codes "dave";
}

total_found : total_of (codes "a1") books ≡ some total
unfolding find text_eq
total_found = refl

pub cycle_found : open_cycle (codes "a1") books ≡ some cycle
unfolding open_cycle find text_eq
cycle_found = refl

write_traffic-IsCounted_example : IsCounted update total cycle books (write_traffic update 9 books)
write_traffic-IsCounted_example =
    write_traffic-IsCounted update 9 books total cycle (omega arith) total_found cycle_found

abbrev pub books_of : Result (Books × Bool) → Books
books_of (ok r) = r.0
books_of (err e) = books

abbrev pub facts_of : Result Facts → Facts
facts_of (ok f) = f
facts_of (err e) = record {
  facts = record {
    lifecycle = LifecycleState.active;
    admin_enabled = true;
    quota_state = within_limit;
    desired_revision = 0;
    desired_credential_version = 0;
  };
  limit = none;
  accounted_uplink = 0;
  accounted_downlink = 0;
}

abbrev committed : Books
committed = books_of (commit_settled 9 update books)

abbrev facts_after : Facts
facts_after = facts_of (read_facts (codes "a1") committed)

blocks : commit_settled 9 update books ≡ ok (committed, true)
unfolding commit_settled read_facts allocation_by_id find text_eq user_by_id policy_of open_cycle
    update_where is_quota_exceeded apply_decision decide_transition enqueue_decision
blocks = refl

reads : read_facts (codes "a1") committed ≡ ok facts_after
unfolding commit_settled read_facts allocation_by_id find text_eq user_by_id policy_of open_cycle
    update_where is_quota_exceeded apply_decision decide_transition enqueue_decision
reads = refl

over :
    is_quota_exceeded facts_after.limit
      (pos facts_after.accounted_uplink)
      (pos facts_after.accounted_downlink)
    ≡ true
unfolding commit_settled read_facts allocation_by_id find text_eq user_by_id policy_of open_cycle
    update_where is_quota_exceeded apply_decision decide_transition enqueue_decision
over = refl

commit_settled-enforces_example : facts_after.facts.quota_state ≡ exceeded
commit_settled-enforces_example =
    commit_settled-enforces update 9 books committed true facts_after blocks reads over
