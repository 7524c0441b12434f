-- ===== src/Worker/Create.antt =====
-- internal/worker/synchronizer.go, `createDedicatedInbound`: the creation of an inbound with its one
-- client, and what a failed creation leads to.
use xpanel.Prelude.{Bool, true, false, not, ◌&&◌, Option, none, some, if◌then◌else◌}
use xpanel.Prelude.Text.{Text}
use xpanel.Ports.{
  ErrorKind, port_unavailable, inbound_already_exists, CallError, Reply, done, failed,
  CreateInboundCommand, Adapter,
}
use xpanel.Worker.World.{SyncWork, Options, M, ◌>>=◌, ◌>>◌, continue, leave, rpc, fence}
use xpanel.Worker.Ending.{
  describe, is_unavailable, confirm, fail, retry, retry_later, inbound_present, carries_client,
}

abbrev pub is_port_unavailable : ErrorKind → Bool
is_port_unavailable port_unavailable = true
is_port_unavailable _ = false

abbrev pub is_inbound_already_exists : ErrorKind → Bool
is_inbound_already_exists inbound_already_exists = true
is_inbound_already_exists _ = false

abbrev pub holds : Option Bool → Bool
holds (some true) = true
holds _ = false

abbrev pub create_command : SyncWork → Text → Text → CreateInboundCommand
create_command work server_key user_key = record {
  inbound_tag = work.inbound.inbound_tag;
  listen_address = work.inbound.listen_address;
  port = work.inbound.port;
  method = work.template.method;
  server_key = server_key;
  client_statistics_id = work.statistics_id;
  client_credential_version = work.credential_version;
  client_user_key = user_key;
}

module _ {S : Type 0} (a : Adapter S) (options : Options) (work : SyncWork) where
  -- A key that cannot be decrypted, or generated, fails the operation.
  unfoldable pub or_fail : Option Text → M S Text
  or_fail none = leave (fail options work)
  or_fail (some key) = continue key

  unfoldable pub confirm_present : M S (Unit {0})
  confirm_present = leave (confirm options work true work.credential_version)

  -- A timeout or another uncertain result: the inbound may have been created.
  unfoldable pub create_uncertain : CallError → M S (Unit {0})
  create_uncertain cause = do
    fence options work
    seen ← inbound_present a work.inbound.inbound_tag
    if holds seen then confirm_present else leave (retry options work cause)

  -- Remove a registered inbound that is not what was wanted; the result of the call is ignored.
  unfoldable pub compensate : M S (Unit {0})
  compensate = do _ ← rpc (a.remove_inbound work.inbound.inbound_tag); continue tt

  -- `ErrorPortUnavailable`: the tag may be registered without listening.
  unfoldable pub create_port_unavailable : M S (Unit {0})
  create_port_unavailable = do
    fence options work
    seen ← inbound_present a work.inbound.inbound_tag
    if holds seen then compensate else continue tt
    leave (retry_later options work)

  -- The tag is there: it counts only if it carries the wanted client.
  unfoldable pub adopt_or_remove : M S (Unit {0})
  adopt_or_remove = do
    healthy ← carries_client a work.inbound.inbound_tag work.statistics_id
    if holds healthy then confirm_present else continue tt
    compensate
    leave (retry_later options work)

  -- `ErrorInboundAlreadyExists`.
  unfoldable pub create_already_exists : CallError → M S (Unit {0})
  create_already_exists cause = do
    fence options work
    seen ← inbound_present a work.inbound.inbound_tag
    if holds seen then adopt_or_remove else leave (retry options work cause)

  unfoldable pub on_created : Reply (Unit {0}) → M S (Unit {0})
  on_created (done _) = confirm_present
  on_created (failed cause) =
      let (kind, retryable) = describe cause in
      if retryable && not (is_unavailable kind)
      then create_uncertain cause
      else if is_port_unavailable kind
      then create_port_unavailable
      else if is_inbound_already_exists kind
      then create_already_exists cause
      else leave (retry options work cause)

  unfoldable pub create_dedicated_inbound : M S (Unit {0})
  create_dedicated_inbound = do
    server_key ← or_fail (options.decrypt work.inbound.server_key)
    user_key ← or_fail (options.decrypt work.credential_key)
    fence options work
    reply ← rpc (a.create_inbound (create_command work server_key user_key))
    on_created reply
