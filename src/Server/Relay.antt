-- ===== src/Server/Relay.antt =====
-- The relay's handling of a session, internal/broker/relay.go: HandleProvider and HandleConsumer up to
-- their wait for the end, and what they do at the end. Answers of pollmux are arguments.
use http_broker.Base.{ℕ, Bool, true, false, Option, none, some, List, []}
use http_broker.Registry.Defs.{BrokerSession, Registry}
use http_broker.Registry.Ops.{
  Error, ok, err, set_provider, remove_provider, register_consumer_yamux, unregister_consumer_yamux,
}

-- How far `HandleProvider` came: no yamux session, a refusal, or `registered` with the peers to warn of.
pub data ProviderRun : Type 0 where
  no_yamux : ProviderRun
  not_registered : Error → ProviderRun
  registered : List BrokerSession → ProviderRun

module _ (resumable : BrokerSession → Bool) where
  -- `HandleProvider` up to `<-yamuxSess.CloseChan()`; the last argument is what `ClientSession` answers.
  unfoldable pub handle_provider : Registry → BrokerSession → Option ℕ → Registry × ProviderRun
  handle_provider r session client = elim client [
    | none ↦ (r, no_yamux)
    | some ys ↦
        let reply = set_provider resumable r session.endpoint session ys in
        elim reply.result [
          | err e ↦ (reply.registry, not_registered e)
          | ok mismatched ↦ (reply.registry, registered mismatched)
        ]
  ]

-- Its deferred function: the registry, and the consumers' yamux sessions that are closed.
unfoldable pub leave_provider : Registry → BrokerSession → ProviderRun → Registry × List ℕ
leave_provider r session no_yamux = (r, [])
leave_provider r session (not_registered e) = (r, [])
leave_provider r session (registered mismatched) = remove_provider r session.endpoint session.id

-- `HandleConsumer` up to its loop, and whether the deferred function will run.
unfoldable pub handle_consumer : Registry → BrokerSession → Option ℕ → Registry × Bool
handle_consumer r session server = elim server [
  | none ↦ (r, false)
  | some ys ↦ (register_consumer_yamux r session.endpoint session.id ys, true)
]

-- Its deferred function.
unfoldable pub leave_consumer : Registry → BrokerSession → Bool → Registry
leave_consumer r session false = r
leave_consumer r session true = unregister_consumer_yamux r session.endpoint session.id
