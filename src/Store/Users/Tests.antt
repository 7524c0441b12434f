-- ===== src/Store/Users/Tests.antt =====
-- Commands on a small database.
use xpanel.Prelude.{◌≡◌, refl, arith, true, false, [], ◌∷◌, none, some, find, update_where}
use xpanel.Prelude.Text.{codes, text_eq}
use xpanel.Domain.Errors.{Result, ok, err}
use xpanel.Domain.Port.{PortPool, in_pool}
use xpanel.Domain.Sync.{new_synchronization_operation, SyncReason, inbound_phase_for}
use xpanel.Store.Tables.{
  Db, AuditEvent, TemplateRow, InboundRow, compatible, reconcile_removed_unknown, allocation_by_id,
  template_by_id,
}
use xpanel.Store.Accounts.Tests.{books}
use xpanel.Store.Users.{
  CommandRow, with_command, PortChangeRecord, change_port_body, pool_of, audited, and_then,
}
use xpanel.Store.Users.Replays.{IsOnce, with_command-IsOnce}
use xpanel.Store.Users.Ports.{IsAssigned, IsMoved, change_port-IsAssigned}

abbrev pool : PortPool
pool = record { first = 20000; last = 20009 }

abbrev template : TemplateRow
template = record {
  id = codes "t1";
  listen_address = codes "0.0.0.0";
  pool = pool;
  method = codes "aes";
  compatibility = compatible;
  archived = false;
  validated_generation = none;
  revision = 1;
}

abbrev pub listener : InboundRow
listener = record {
  allocation_id = codes "a1";
  template_id = codes "t1";
  inbound_tag = codes "xpanel-a1";
  listen_address = codes "0.0.0.0";
  port = 20000;
  server_key = 5 ∷ [];
  desired_present = true;
  observed_present = some true;
  released_at = none;
}

abbrev tables : Db
tables = record books.db { templates = template ∷ []; inbounds = listener ∷ [] }

abbrev event : AuditEvent
event = record { action = reconcile_removed_unknown; target_id = codes "dave"; succeeded = true }

abbrev change : PortChangeRecord
change = record {
  user_id = codes "dave";
  allocation_id = codes "a1";
  expected_revision = 1;
  old_port = 20000;
  new_port = 20004;
  operation =
      new_synchronization_operation (codes "o1") (codes "a1") 2 true (some 1) SyncReason.reconcile
        (inbound_phase_for true) 9;
  command = record { id = codes "c1"; fingerprint = codes "f1" };
  audit = event;
  now = 9;
}

abbrev tables_of : Result Db → Db
tables_of (ok db) = db
tables_of (err e) = tables

abbrev moved : Db
moved = tables_of (change_port_body change tables)

changed : change_port_body change tables ≡ ok moved
unfolding change_port_body find text_eq pool_of allocation_by_id template_by_id in_pool update_where
changed = refl

one_listener : IsAssigned tables.inbounds
one_listener = record { bound = λ address port. ground arith; keyed = λ id. ground arith }

change_port-IsAssigned_example :
    IsAssigned moved.inbounds
    × IsMoved change.allocation_id change.old_port change.new_port tables.inbounds moved.inbounds
    × ((p : PortPool) × (pool_of change.allocation_id tables ≡ some p)
        × (in_pool p change.new_port ≡ true))
change_port-IsAssigned_example = change_port-IsAssigned change tables moved one_listener changed

abbrev other : CommandRow
other = record { id = codes "c1"; fingerprint = codes "f2" }

abbrev body : Db → Result (Db × Unit {0})
body db = and_then (change_port_body change db) (audited event)

differs : text_eq (codes "f1") (codes "f2") ≡ false
unfolding text_eq
differs = refl

with_command-IsOnce_example :
    IsOnce change.command other body
      (record { tables = tables; commands = [] })
      (with_command change.command body (record { tables = tables; commands = [] }))
with_command-IsOnce_example =
    with_command-IsOnce change.command other body (record { tables = tables; commands = [] }) refl
      differs
