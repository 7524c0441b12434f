-- ===== src/Store/Accounts/Creation/Tests.antt =====
-- A second user beside the one of the tables.
use xpanel.Domain.Quota.{validate_quota_policy}
use xpanel.Domain.Inbound.{contains_text, validate_inbound_tag, is_panel_namespace}
use xpanel.Prelude.{◌≡◌, refl, arith, true, false, [], ◌∷◌, some}
use xpanel.Prelude.Text.{codes, text_eq, has_prefix}
use xpanel.Prelude.Int.{pos}
use xpanel.Domain.Errors.{Result, ok, err}
use xpanel.Domain.User.{LifecycleState, CredentialState}
use xpanel.Domain.Sync.{new_synchronization_operation, SyncReason, SyncPhase}
use xpanel.Store.Tables.{user_updated, port_changed}
use xpanel.Store.Accounts.{Books}
use xpanel.Store.Accounts.Tests.{books, cycle, access}
use xpanel.Store.Users.Tests.{listener}
use xpanel.Store.Users.Ports.{IsAssigned}
use xpanel.Store.Accounts.Creation.{UserCreateRecord, create_body}
use xpanel.Store.Users.Holding.{Holds}
use xpanel.Store.Accounts.Creation.Assigning.{create_user-IsAssigned}

abbrev tables : Books
tables = record books { db = record books.db { inbounds = listener ∷ [] } }

abbrev eve : UserCreateRecord
eve = record {
  user = record { id = codes "eve"; lifecycle = LifecycleState.active; revision = 0 };
  name_taken = false;
  identity = record { allocation_id = codes "a2"; statistics_id = codes "eve" };
  allocation = record access { id = codes "a2"; user_id = codes "eve" };
  inbound_row = record listener {
    allocation_id = codes "a2";
    inbound_tag = codes "xpanel-a2";
    port = 20001;
  };
  credential = record {
    id = codes "k2";
    allocation_id = codes "a2";
    version = 1;
    state = CredentialState.pending;
    key_ciphertext = 7 ∷ [];
    key_nonce = 8 ∷ [];
  };
  policy = record { allocation_id = codes "a2"; limit_bytes = some (pos 100); reset_day = pos 1 };
  cycle = record cycle { id = codes "c2"; allocation_id = codes "a2" };
  operation =
      new_synchronization_operation (codes "o2") (codes "a2") 1 true (some 1) SyncReason.create
        SyncPhase.confirm 9;
  command = record { id = codes "m2"; fingerprint = codes "f2" };
  audit = record { action = user_updated; target_id = codes "eve"; succeeded = true };
  port_audit = record { action = port_changed; target_id = codes "eve"; succeeded = true };
}

abbrev books_of : Result (Books × Unit {0}) → Books
books_of (ok r) = r.0
books_of (err e) = tables

abbrev created : Books
created = books_of (create_body eve tables)

creates : create_body eve tables ≡ ok (created, tt)
unfolding create_body text_eq validate_inbound_tag is_panel_namespace has_prefix contains_text
    validate_quota_policy
creates = refl

one_listener : IsAssigned tables.db.inbounds
one_listener = record { bound = λ address port. ground arith; keyed = λ id. ground arith }

create_user-IsAssigned_example :
    IsAssigned created.db.inbounds
    × Holds eve.inbound_row.allocation_id eve.inbound_row created.db.inbounds
create_user-IsAssigned_example = create_user-IsAssigned eve tables created creates one_listener
