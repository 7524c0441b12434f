-- ===== src/Fake/Tests.antt =====
-- The removal of a client from a node in memory, and its law applied to it.
use xpanel.Prelude.{◌≡◌, refl, true, [], ◌∷◌}
use xpanel.Prelude.Text.{codes, text_eq}
use xpanel.Prelude.Assoc.{lookup}
use xpanel.Domain.Inbound.{rotation_safety_id}
use xpanel.Ports.{RemoteUser, managed, RemoveUserCommand}
use xpanel.Fake.{Node, users_of, remove_user}
use xpanel.Fake.LastClient.{guarded_by, remove_user-guard}

abbrev client : RemoteUser
client = record {
  statistics_id = codes "xpanel-u1";
  credential_version = 1;
  present = true;
  kind = managed;
}

abbrev operator : RemoteUser
operator = record {
  statistics_id = codes "operator";
  credential_version = 0;
  present = true;
  kind = managed;
}

-- One inbound, with the user's client and one of unknown origin.
abbrev node : Node
node = record {
  inbounds =
      (
        codes "xpanel-a1",
        record {
          tag = codes "xpanel-a1";
          listen_address = codes "0.0.0.0";
          port = 20000;
          method = codes "aes";
          server_key = codes "s";
        },
      )
      ∷ [];
  users = (codes "xpanel-a1", (codes "operator", operator) ∷ (codes "xpanel-u1", client) ∷ []) ∷ [];
  failures = λ _. [];
  calls = [];
  available = true;
  external_ports = [];
}

abbrev removal : RemoveUserCommand
removal = record {
  inbound_tag = codes "xpanel-a1";
  statistics_id = codes "xpanel-u1";
  expected_statistics_id = codes "xpanel-u1";
}

guarded : guarded_by (codes "xpanel-u1") (users_of (codes "xpanel-a1") node) ≡ true
unfolding users_of lookup text_eq rotation_safety_id
guarded = refl

remove_user-guard_example :
    guarded_by (codes "xpanel-u1") (users_of (codes "xpanel-a1") (remove_user removal node).0)
    ≡ true
remove_user-guard_example = remove_user-guard removal node ((refl, (refl, tt)), tt) refl guarded
