-- ===== src/Config/Broker.antt =====
-- cmd/broker/main.go: from the file and the flags to the settings of the server, or an error.
use http_broker.Base.{
  Bool, true, ◌&&◌, ◌||◌, Option, none, some, Bytes, [], bytes_eq, codes, if◌then◌else◌,
}
use http_broker.Base.Int.{ℤ, pos, ltb_ℤ}
use http_broker.Config.Settings.{TlsConfig, ServerConfig, BrokerConfig}
use http_broker.Config.Load.{
  Files, Zap, Logger, logs_at, invalid_level, build_failed, LoadError, loaded, load_failed,
  load_broker_config, new_logger,
}
use http_broker.Server.Settings.{Config, server_config}
use http_broker.Server.Settings as Server

pub record BrokerFlags : Type 0 where
  pub config_file : Bytes
  pub listen_addr : Bytes
  pub tls_cert : Bytes
  pub tls_key : Bytes
  pub enable_status_endpoint : Bool

-- A change that a command makes where a text is given, or where it is not.
abbrev pub if_given : {A : Type 0} → Bytes → (A → A) → A → A
if_given text change a = if bytes_eq text [] then a else change a

abbrev pub if_missing : {A : Type 0} → Bytes → (A → A) → A → A
if_missing text change a = if bytes_eq text [] then change a else a

abbrev with_server : (ServerConfig → ServerConfig) → BrokerConfig → BrokerConfig
with_server change cfg = record cfg { server = change cfg.server }

abbrev with_tls : (TlsConfig → TlsConfig) → BrokerConfig → BrokerConfig
with_tls change cfg = record cfg { server = record cfg.server { tls = change cfg.server.tls } }

-- The overrides by flags and the default, in the order of `RunE`.
unfoldable pub broker_overrides : BrokerFlags → BrokerConfig → BrokerConfig
broker_overrides flags cfg =
    let cfg1 =
      if_given flags.listen_addr (with_server (λ s. record s { listen = flags.listen_addr })) cfg in
    let cfg2 =
      if_given flags.tls_cert
        (with_tls (λ t. record t { cert_file = flags.tls_cert; enabled = true })) cfg1 in
    let cfg3 =
      if_given flags.tls_key (with_tls (λ t. record t { key_file = flags.tls_key; enabled = true }))
        cfg2 in
    if flags.enable_status_endpoint
    then with_server (λ s. record s { status_endpoint_enabled = true }) cfg3
    else cfg3

unfoldable pub broker_defaults : BrokerConfig → BrokerConfig
broker_defaults cfg =
    if_missing cfg.server.listen (with_server (λ s. record s { listen = codes ":8080" })) cfg

pub data StartError : Type 0 where
  unreadable : LoadError → StartError
  half_configured_tls negative_grace grace_too_long : StartError
  no_logger : StartError

-- The three checks; MaxResumeGrace of pollmux is an argument.
unfoldable pub check_broker : ℤ → BrokerConfig → Option StartError
check_broker max_resume_grace cfg =
    let tls = cfg.server.tls in
    let grace = cfg.tunnel.resume_grace in
    if tls.enabled && (bytes_eq tls.cert_file [] || bytes_eq tls.key_file [])
    then some half_configured_tls
    else if ltb_ℤ grace (pos 0)
    then some negative_grace
    else if ltb_ℤ max_resume_grace grace
    then some grace_too_long
    else none

-- The value `brokerCfg`.
unfoldable pub broker_config : Bytes → BrokerConfig → Config
broker_config version cfg = record {
  listen_addr = cfg.server.listen;
  tls_cert_file = cfg.server.tls.cert_file;
  tls_key_file = cfg.server.tls.key_file;
  use_tls = cfg.server.tls.enabled;
  poll_timeout = cfg.tunnel.poll_timeout;
  session_timeout = cfg.tunnel.session_timeout;
  coalesce_window = cfg.tunnel.coalesce_window;
  poll_buffer_size = cfg.tunnel.poll_buffer_size;
  max_send_bytes = cfg.tunnel.max_send_bytes;
  high_water_warn = cfg.tunnel.high_water_warn;
  poll_mode = cfg.tunnel.poll_mode;
  enable_websocket = cfg.tunnel.enable_websocket;
  enable_resume = cfg.tunnel.enable_resume;
  resume_grace = cfg.tunnel.resume_grace;
  auth_enabled = cfg.auth.enabled;
  auth_token = cfg.auth.token;
  status_endpoint_enabled = cfg.server.status_endpoint_enabled;
  unauthorized_redirect_enabled = cfg.server.unauthorized_redirect.enabled;
  unauthorized_redirect_url = cfg.server.unauthorized_redirect.url;
  version = version;
}

-- `RunE` up to the start: the settings that the program starts with, the error that it returns, or a panic.
pub data Started (C : Type 0) : Type 0 where
  starts : C → Started C
  refuses : StartError → Started C
  panics : Started C

abbrev pub with_logger : {L C : Type 0} → Logger L → C → Started C
with_logger (logs_at l) c = starts c
with_logger invalid_level c = refuses no_logger
with_logger build_failed c = refuses no_logger

-- NewServer makes pollmux's handlers, which check their ServerConfig. Whether pollmux rejects it, with a
-- panic, is its answer: it is documented to for a poll mode that it does not know and for a session timeout
-- below twice the poll timeout. The constant PollModeStream of pollmux is an argument.
abbrev pub new_server : (Server.ServerConfig → Bool) → Bytes → Started Config → Started Config
new_server rejects stream (starts c) = if rejects (server_config stream c) then panics else starts c
new_server rejects stream (refuses e) = refuses e
new_server rejects stream panics = panics

module _ {L : Type 0} (files : Files BrokerConfig) (zap : Zap L)
    (rejects : Server.ServerConfig → Bool) (max_resume_grace : ℤ) (stream version : Bytes) where
  unfoldable pub start_broker : BrokerFlags → Started Config
  start_broker flags = elim (load_broker_config files flags.config_file) [
    | load_failed e ↦ refuses (unreadable e)
    | loaded file ↦
        let cfg = broker_defaults (broker_overrides flags file) in
        elim (check_broker max_resume_grace cfg) [
          | some e ↦ refuses e
          | none ↦
              new_server rejects stream
                (with_logger (new_logger zap cfg.logging.level) (broker_config version cfg))
        ]
  ]
