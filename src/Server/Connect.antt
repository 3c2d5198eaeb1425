-- ===== src/Server/Connect.antt =====
-- The hooks of internal/broker/server.go that pollmux calls for a session: authenticateConnect, onConnect
-- and onDisconnect.
use http_broker.Base.{
  Bool, not, ◌&&◌, ◌||◌, Option, none, some, List, [], Bytes, bytes_eq, ltb, if◌then◌else◌, length,
}
use http_broker.Registry.Defs.{BrokerSession, Registry, max_endpoint_name_len}
use http_broker.Registry.Ops.{Error, ok, err, provider, consumer, add_consumer, forget}

pub data ConnectError : Type 0 where
  missing_meta unknown_role name_too_long : ConnectError

-- `authenticateConnect`, of the role and the endpoint of the meta, empty where absent; `none` is nil.
unfoldable pub authenticate_connect : Bytes → Bytes → Option ConnectError
authenticate_connect role endpoint =
    if bytes_eq role [] || bytes_eq endpoint []
    then some missing_meta
    else if not (bytes_eq role consumer) && not (bytes_eq role provider)
    then some unknown_role
    else if ltb max_endpoint_name_len (length endpoint)
    then some name_too_long
    else none

-- What `onConnect` starts, or the error that it returns.
pub data Connected : Type 0 where
  starts_provider : Connected
  starts_consumer : List BrokerSession → Connected
  not_connected : Error → Connected

module _ (resumable : BrokerSession → Bool) where
  unfoldable pub on_connect : Registry → BrokerSession → Registry × Connected
  on_connect r bs =
      let reply = add_consumer resumable r bs.endpoint bs in
      if bytes_eq bs.role provider then (r, starts_provider) else elim reply.result [
        | err e ↦ (reply.registry, not_connected e)
        | ok mismatched ↦ (reply.registry, starts_consumer mismatched)
      ]

-- `onDisconnect`.
unfoldable pub on_disconnect : Registry → BrokerSession → Registry
on_disconnect r bs = forget r bs.id bs.role bs.endpoint
