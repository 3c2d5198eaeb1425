-- ===== src/Config/ProviderCommand.antt =====
-- cmd/provider/main.go: from the file and the flags to the settings of the provider.
use http_broker.Base.{Bool, Option, Bytes, codes}
use http_broker.Config.Settings.{
  ProviderConfig, BrokerClientConfig, TransportConfig, ProviderOptions,
}
use http_broker.Config.Load.{Files, Zap, loaded, load_failed, load_provider_config, new_logger}
use http_broker.Config.Broker.{Started, refuses, unreadable, with_logger, if_given, if_missing}
use http_broker.Provider.Settings as Provider
use http_broker.Config.Clients.{
  if_changed, if_zero, default_poll_interval, default_retry_backoff, default_dial_timeout,
}

pub record ProviderFlags : Type 0 where
  pub config_file : Bytes
  pub broker_url : Bytes
  pub endpoint : Bytes
  pub scrub_headers : Option Bool
  pub insecure_skip_verify : Option Bool

abbrev with_broker : (BrokerClientConfig → BrokerClientConfig) → ProviderConfig → ProviderConfig
with_broker change cfg = record cfg { broker = change cfg.broker }

abbrev with_provider : (ProviderOptions → ProviderOptions) → ProviderConfig → ProviderConfig
with_provider change cfg = record cfg { provider = change cfg.provider }

abbrev with_transport : (TransportConfig → TransportConfig) → ProviderConfig → ProviderConfig
with_transport change cfg = record cfg { transport = change cfg.transport }

unfoldable pub overrides : ProviderFlags → ProviderConfig → ProviderConfig
overrides flags cfg =
    let cfg1 =
      if_given flags.broker_url (with_broker (λ b. record b { url = flags.broker_url })) cfg in
    let cfg2 =
      if_given flags.endpoint (with_broker (λ b. record b { endpoint = flags.endpoint })) cfg1 in
    let cfg3 =
      if_changed flags.scrub_headers
        (λ scrub. with_provider (λ p. record p { scrub_headers = scrub })) cfg2 in
    if_changed flags.insecure_skip_verify
      (λ skip. with_broker (λ b. record b { insecure_skip_verify = skip })) cfg3

unfoldable pub defaults : ProviderConfig → ProviderConfig
defaults cfg =
    let cfg1 =
      if_missing cfg.broker.url
        (with_broker (λ b. record b { url = codes "http://localhost:8080" })) cfg in
    let cfg2 =
      if_missing cfg1.broker.endpoint (with_broker (λ b. record b { endpoint = codes "default" }))
        cfg1 in
    let cfg3 =
      if_zero cfg2.provider.dial_timeout
        (with_provider (λ p. record p { dial_timeout = default_dial_timeout })) cfg2 in
    let cfg4 =
      if_zero cfg3.transport.poll_interval
        (with_transport (λ t. record t { poll_interval = default_poll_interval })) cfg3 in
    if_zero cfg4.transport.retry_backoff
      (with_transport (λ t. record t { retry_backoff = default_retry_backoff })) cfg4

-- The argument of NewClient.
unfoldable pub config : ProviderConfig → Provider.Config
config cfg = record {
  broker_url = cfg.broker.url;
  endpoint = cfg.broker.endpoint;
  poll_interval = cfg.transport.poll_interval;
  retry_backoff = cfg.transport.retry_backoff;
  dial_timeout = cfg.provider.dial_timeout;
  scrub_headers = cfg.provider.scrub_headers;
  insecure_skip_verify = cfg.broker.insecure_skip_verify;
  auth_token = cfg.broker.auth_token;
  coalesce_window = cfg.transport.coalesce_window;
  poll_mode = cfg.transport.poll_mode;
  poll_grace = cfg.transport.poll_grace;
  upload_stream_preference = cfg.transport.upload_stream_preference;
  upload_probe_timeout = cfg.transport.upload_probe_timeout;
  prefer_websocket = cfg.transport.prefer_websocket;
  prefer_resume = cfg.transport.prefer_resume;
}

unfoldable pub start :
    {L : Type 0} → Files ProviderConfig → Zap L → ProviderFlags → Started Provider.Config
start files zap flags = elim (load_provider_config files flags.config_file) [
  | load_failed e ↦ refuses (unreadable e)
  | loaded file ↦
      let cfg = defaults (overrides flags file) in
      with_logger (new_logger zap cfg.logging.level) (config cfg)
]
