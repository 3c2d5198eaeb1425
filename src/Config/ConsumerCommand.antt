-- ===== src/Config/ConsumerCommand.antt =====
-- cmd/consumer/main.go: from the file and the flags to the settings of the consumer.
use http_broker.Base.{Bool, Option, Bytes, codes}
use http_broker.Config.Settings.{ConsumerConfig, BrokerClientConfig, Socks5Config, TransportConfig}
use http_broker.Config.Load.{Files, Zap, loaded, load_failed, load_consumer_config, new_logger}
use http_broker.Config.Broker.{Started, refuses, unreadable, with_logger, if_given, if_missing}
use http_broker.Consumer.Settings as Consumer
use http_broker.Config.Clients.{if_changed, if_zero, default_poll_interval, default_retry_backoff}

pub record ConsumerFlags : Type 0 where
  pub config_file : Bytes
  pub broker_url : Bytes
  pub endpoint : Bytes
  pub socks5_listen : Bytes
  pub insecure_skip_verify : Option Bool

abbrev with_broker : (BrokerClientConfig → BrokerClientConfig) → ConsumerConfig → ConsumerConfig
with_broker change cfg = record cfg { broker = change cfg.broker }

abbrev with_socks5 : (Socks5Config → Socks5Config) → ConsumerConfig → ConsumerConfig
with_socks5 change cfg = record cfg { socks5 = change cfg.socks5 }

abbrev with_transport : (TransportConfig → TransportConfig) → ConsumerConfig → ConsumerConfig
with_transport change cfg = record cfg { transport = change cfg.transport }

unfoldable pub overrides : ConsumerFlags → ConsumerConfig → ConsumerConfig
overrides flags cfg =
    let cfg1 =
      if_given flags.broker_url (with_broker (λ b. record b { url = flags.broker_url })) cfg in
    let cfg2 =
      if_given flags.endpoint (with_broker (λ b. record b { endpoint = flags.endpoint })) cfg1 in
    let cfg3 =
      if_given flags.socks5_listen (with_socks5 (λ s. record s { listen = flags.socks5_listen }))
        cfg2 in
    if_changed flags.insecure_skip_verify
      (λ skip. with_broker (λ b. record b { insecure_skip_verify = skip })) cfg3

unfoldable pub defaults : ConsumerConfig → ConsumerConfig
defaults cfg =
    let cfg1 =
      if_missing cfg.broker.url
        (with_broker (λ b. record b { url = codes "http://localhost:8080" })) cfg in
    let cfg2 =
      if_missing cfg1.broker.endpoint (with_broker (λ b. record b { endpoint = codes "default" }))
        cfg1 in
    let cfg3 =
      if_missing cfg2.socks5.listen (with_socks5 (λ s. record s { listen = codes ":1080" })) cfg2 in
    let cfg4 =
      if_zero cfg3.transport.poll_interval
        (with_transport (λ t. record t { poll_interval = default_poll_interval })) cfg3 in
    if_zero cfg4.transport.retry_backoff
      (with_transport (λ t. record t { retry_backoff = default_retry_backoff })) cfg4

-- The argument of NewClient.
unfoldable pub config : ConsumerConfig → Consumer.Config
config cfg = record {
  broker_url = cfg.broker.url;
  endpoint = cfg.broker.endpoint;
  socks5_listen = cfg.socks5.listen;
  poll_interval = cfg.transport.poll_interval;
  retry_backoff = cfg.transport.retry_backoff;
  insecure_skip_verify = cfg.broker.insecure_skip_verify;
  auth_token = cfg.broker.auth_token;
  coalesce_window = cfg.transport.coalesce_window;
  poll_mode = cfg.transport.poll_mode;
  poll_grace = cfg.transport.poll_grace;
  upload_stream_preference = cfg.transport.upload_stream_preference;
  upload_probe_timeout = cfg.transport.upload_probe_timeout;
  prefer_websocket = cfg.transport.prefer_websocket;
  prefer_resume = cfg.transport.prefer_resume;
}

unfoldable pub start :
    {L : Type 0} → Files ConsumerConfig → Zap L → ConsumerFlags → Started Consumer.Config
start files zap flags = elim (load_consumer_config files flags.config_file) [
  | load_failed e ↦ refuses (unreadable e)
  | loaded file ↦
      let cfg = defaults (overrides flags file) in
      with_logger (new_logger zap cfg.logging.level) (config cfg)
]
