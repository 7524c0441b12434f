-- ===== src/Store/Accounts/Commands/Tests.antt =====
-- A limit that is lowered below what was used, and a cycle that is cleared after it.
use xpanel.Store.Intent.{apply_decision, enqueue_decision}
use xpanel.Domain.Quota.{validate_quota_policy, is_quota_exceeded, decide_transition}
use xpanel.Prelude.{◌≡◌, refl, true, false, [], ◌∷◌, none, some, find, update_where}
use xpanel.Prelude.Text.{codes, text_eq}
use xpanel.Prelude.Int.{pos}
use xpanel.Domain.Errors.{ok}
use xpanel.Domain.User.{within_limit}
use xpanel.Domain.Sync.{new_synchronization_operation, SyncReason, SyncPhase}
use xpanel.Store.Tables.{user_updated, user_by_id, allocation_by_id}
use xpanel.Store.Accounts.{Books, Facts, read_facts, open_cycle, policy_of}
use xpanel.Store.Accounts.Tests.{books, books_of, facts_of, cycle, cycle_found}
use xpanel.Store.Accounts.Commands.{
  UserUpdateRecord, QuotaResetRecord, update_body, reset_body, allocation_of, over_of,
}
use xpanel.Store.Accounts.Commands.Clearing.{reset_cycle-clears}
use xpanel.Store.Accounts.Commands.Judging.{verdict, update_user-judges}

abbrev lowered : UserUpdateRecord
lowered = record {
  user_id = codes "dave";
  expected_revision = 1;
  name_taken = false;
  limit_bytes = some (pos 80);
  reset_day = pos 1;
  admin_enabled = true;
  operation_template =
      new_synchronization_operation (codes "o1") (codes "a1") 0 false none SyncReason.reconcile
        SyncPhase.confirm 9;
  quota_audit = some (codes "dave");
  command = record { id = codes "c1"; fingerprint = codes "f1" };
  audits = record { action = user_updated; target_id = codes "dave"; succeeded = true } ∷ [];
  now = 9;
}

abbrev updated : Books
updated = books_of (update_body lowered books)

abbrev facts_after : Facts
facts_after = facts_of (read_facts (codes "a1") updated)

updates : update_body lowered books ≡ ok (updated, true)
unfolding update_body text_eq find validate_quota_policy read_facts allocation_by_id user_by_id
    update_where policy_of open_cycle apply_decision decide_transition is_quota_exceeded
    enqueue_decision
updates = refl

owned : allocation_of (codes "dave") books ≡ some (codes "a1")
unfolding allocation_of find text_eq
owned = refl

reads : read_facts (codes "a1") updated ≡ ok facts_after
unfolding update_body read_facts allocation_by_id find text_eq validate_quota_policy user_by_id
    update_where policy_of open_cycle apply_decision decide_transition is_quota_exceeded
    enqueue_decision
reads = refl

update_user-judges_example :
    (facts_after.facts.quota_state ≡ verdict (over_of facts_after))
    × (facts_after.facts.admin_enabled ≡ true)
    × (facts_after.limit ≡ some (pos 80))
update_user-judges_example =
    update_user-judges lowered books updated true (codes "a1") facts_after updates owned reads

abbrev reset : QuotaResetRecord
reset = record {
  allocation_id = codes "a1";
  cycle_id = codes "c1";
  event_id = codes "e1";
  actor_id = codes "admin";
  command = record { id = codes "c2"; fingerprint = codes "f2" };
  operation_template = lowered.operation_template;
  audit = record { action = user_updated; target_id = codes "dave"; succeeded = true };
  now = 10;
}

abbrev facts_before : Facts
facts_before = facts_of (read_facts (codes "a1") books)

reads_before : read_facts (codes "a1") books ≡ ok facts_before
unfolding read_facts allocation_by_id find text_eq user_by_id policy_of open_cycle
reads_before = refl

abbrev cleared_books : Books
cleared_books = books_of (reset_body reset books)

resets : reset_body reset books ≡ ok (cleared_books, false)
unfolding reset_body find text_eq read_facts allocation_by_id user_by_id policy_of open_cycle
    update_where apply_decision decide_transition
resets = refl

abbrev facts_cleared : Facts
facts_cleared = facts_of (read_facts (codes "a1") cleared_books)

reads_cleared : read_facts (codes "a1") cleared_books ≡ ok facts_cleared
unfolding reset_body read_facts allocation_by_id find text_eq user_by_id policy_of open_cycle
    update_where apply_decision decide_transition
reads_cleared = refl

reset_cycle-clears_example :
    (facts_cleared.facts.quota_state ≡ within_limit)
    × (facts_cleared.accounted_uplink ≡ 0)
    × (facts_cleared.accounted_downlink ≡ 0)
    × (facts_cleared.facts.admin_enabled ≡ facts_before.facts.admin_enabled)
    × (facts_cleared.limit ≡ facts_before.limit)
reset_cycle-clears_example =
    reset_cycle-clears reset books cleared_books false cycle facts_before facts_cleared resets
      cycle_found refl reads_before reads_cleared
