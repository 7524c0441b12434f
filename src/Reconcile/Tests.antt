-- ===== src/Reconcile/Tests.antt =====
-- A listing with an unknown client, and one with an inbound that nobody owns.
use xpanel.Prelude.{◌≡◌, inl, refl, true, List, [], ◌∷◌, select}
use xpanel.Prelude.Text.{Text, codes, text_eq}
use xpanel.Domain.Errors.{Result, ok, err}
use xpanel.Domain.Inbound.{rotation_safety_id}
use xpanel.Ports.{RemoteInbound, RemoteUser, managed}
use xpanel.Store.Tables.{Db}
use xpanel.Store.Drift.{enqueue_drift_removal}
use xpanel.Store.Accounts.Tests.{books, access, dave}
use xpanel.Store.Users.Tests.{listener}
use xpanel.Reconcile.{UserRecord, Request, queue_all, orphans, unknown_clients, panel_tags}
use xpanel.Reconcile.Queueing.{IsSpared, AllQueued, is_kept, unknown_clients_queued}
use xpanel.Reconcile.Orphans.{AllOwned, owns, orphans_queued}

abbrev named : Db → Text
named db = codes "r1"

abbrev client : Text → RemoteUser
client id = record { statistics_id = id; credential_version = 1; present = true; kind = managed }

abbrev clients : List RemoteUser
clients = client (codes "dave") ∷ client (codes "guest") ∷ []

abbrev strangers : List Request
strangers = unknown_clients (codes "t1") (codes "xpanel-a1") (codes "dave") true clients

abbrev db_of : Result Db → Db
db_of (ok db) = db
db_of (err e) = books.db

abbrev db1 : Db
db1 = db_of (queue_all named 9 strangers books.db)

queued1 : queue_all named 9 strangers books.db ≡ ok db1
unfolding queue_all unknown_clients select enqueue_drift_removal text_eq rotation_safety_id
queued1 = refl

own_kept : is_kept (codes "dave") true (codes "dave") ≡ true
unfolding text_eq
own_kept = refl

unknown_clients_queued_example :
    AllQueued (codes "t1") (codes "xpanel-a1") (codes "dave") true books.db db1 clients
    × IsSpared (codes "xpanel-a1") (codes "dave") db1
unknown_clients_queued_example =
    unknown_clients_queued named 9 (codes "t1") (codes "xpanel-a1") (codes "dave") (codes "dave")
      true clients books.db db1 own_kept tt queued1

abbrev owner : UserRecord
owner = record {
  user = dave;
  allocation = access;
  inbound_row = listener;
  statistics_id = codes "dave";
}

abbrev inbounds : List RemoteInbound
inbounds =
    record { inbound_tag = codes "xpanel-a1"; panel_managed = true; user_count = 1 }
    ∷ record { inbound_tag = codes "xpanel-a2"; panel_managed = true; user_count = 1 }
    ∷ []

abbrev left : List Request
left = orphans (codes "t1") (panel_tags inbounds) (owner ∷ [])

abbrev db2 : Db
db2 = db_of (queue_all named 9 left books.db)

queued2 : queue_all named 9 left books.db ≡ ok db2
unfolding queue_all orphans panel_tags select enqueue_drift_removal text_eq
queued2 = refl

has_owner : owns (owner ∷ []) (codes "xpanel-a1") ≡ true
unfolding text_eq
has_owner = refl

orphans_queued_example :
    AllOwned (codes "t1") (owner ∷ []) books.db db2 inbounds
    × IsSpared (codes "xpanel-a1") (codes "dave") db2
orphans_queued_example =
    orphans_queued named 9 (codes "t1") (codes "xpanel-a1") (codes "dave") (owner ∷ []) inbounds
      books.db db2 (inl has_owner) tt queued2
