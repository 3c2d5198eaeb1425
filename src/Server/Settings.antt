-- ===== src/Server/Settings.antt =====
-- The settings of the broker's server: `Config` of internal/broker/server.go, and what NewServer makes of
-- it for pollmux and for the relay.
use http_broker.Base.{Bool, Bytes, [], bytes_eq, if◌then◌else◌}
use http_broker.Base.Int.{ℤ, pos, ltb_ℤ}

pub record Config : Type 0 where
  pub listen_addr : Bytes
  pub tls_cert_file : Bytes
  pub tls_key_file : Bytes
  pub use_tls : Bool
  pub poll_timeout : ℤ
  pub session_timeout : ℤ
  pub coalesce_window : ℤ
  pub poll_buffer_size : ℤ
  pub max_send_bytes : ℤ
  pub high_water_warn : ℤ
  pub poll_mode : Bytes
  pub enable_websocket : Bool
  pub enable_resume : Bool
  pub resume_grace : ℤ
  pub auth_enabled : Bool
  pub auth_token : Bytes
  pub status_endpoint_enabled : Bool
  pub unauthorized_redirect_enabled : Bool
  pub unauthorized_redirect_url : Bytes
  pub version : Bytes

-- `resolvePollMode`; the constant PollModeStream of pollmux is an argument.
unfoldable pub resolve_poll_mode : Bytes → Bytes → Bytes
resolve_poll_mode stream configured = if bytes_eq configured [] then stream else configured

-- The grace that NewServer hands to the relay; DefaultResumeGrace of pollmux is an argument.
unfoldable pub effective_grace : ℤ → ℤ → ℤ
effective_grace default configured = if ltb_ℤ (pos 0) configured then configured else default

-- The fields of pollmux's ServerConfig that NewServer sets.
pub record ServerConfig : Type 0 where
  pub poll_timeout : ℤ
  pub session_timeout : ℤ
  pub coalesce_window : ℤ
  pub poll_buffer_size : ℤ
  pub max_send_bytes : ℤ
  pub high_water_warn : ℤ
  pub poll_mode : Bytes
  pub enable_websocket : Bool
  pub enable_resume : Bool
  pub resume_grace : ℤ

-- `s.pcfg`.
unfoldable pub server_config : Bytes → Config → ServerConfig
server_config stream c = record {
  poll_timeout = c.poll_timeout;
  session_timeout = c.session_timeout;
  coalesce_window = c.coalesce_window;
  poll_buffer_size = c.poll_buffer_size;
  max_send_bytes = c.max_send_bytes;
  high_water_warn = c.high_water_warn;
  poll_mode = resolve_poll_mode stream c.poll_mode;
  enable_websocket = c.enable_websocket;
  enable_resume = c.enable_resume;
  resume_grace = c.resume_grace;
}
