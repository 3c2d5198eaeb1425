-- ===== src/Config/Settings.antt =====
-- The structures of internal/config/config.go. A duration is a number of nanoseconds; an absent key
-- leaves Go's zero value.
use http_broker.Base.{Bool, false, Bytes, []}
use http_broker.Base.Int.{ℤ, pos}

pub record TlsConfig : Type 0 where
  pub enabled : Bool
  pub cert_file : Bytes
  pub key_file : Bytes

pub record UnauthorizedRedirectConfig : Type 0 where
  pub enabled : Bool
  pub url : Bytes

pub record ServerConfig : Type 0 where
  pub listen : Bytes
  pub tls : TlsConfig
  pub status_endpoint_enabled : Bool
  pub unauthorized_redirect : UnauthorizedRedirectConfig

pub record TunnelConfig : Type 0 where
  pub poll_timeout : ℤ
  pub session_timeout : ℤ
  pub coalesce_window : ℤ
  pub poll_buffer_size : ℤ
  pub max_send_bytes : ℤ
  pub high_water_warn : ℤ
  pub poll_mode : Bytes
  pub enable_websocket : Bool
  pub enable_resume : Bool
  pub resume_grace : ℤ

pub record AuthConfig : Type 0 where
  pub enabled : Bool
  pub token : Bytes

pub record LoggingConfig : Type 0 where
  pub level : Bytes

pub record BrokerConfig : Type 0 where
  pub server : ServerConfig
  pub tunnel : TunnelConfig
  pub auth : AuthConfig
  pub logging : LoggingConfig

pub record BrokerClientConfig : Type 0 where
  pub url : Bytes
  pub endpoint : Bytes
  pub insecure_skip_verify : Bool
  pub auth_token : Bytes

pub record Socks5Config : Type 0 where
  pub listen : Bytes

pub record TransportConfig : Type 0 where
  pub poll_interval : ℤ
  pub retry_backoff : ℤ
  pub coalesce_window : ℤ
  pub poll_mode : Bytes
  pub poll_grace : ℤ
  pub upload_stream_preference : Bytes
  pub upload_probe_timeout : ℤ
  pub prefer_websocket : Bool
  pub prefer_resume : Bool

pub record ConsumerConfig : Type 0 where
  pub broker : BrokerClientConfig
  pub socks5 : Socks5Config
  pub transport : TransportConfig
  pub logging : LoggingConfig

pub record ProviderOptions : Type 0 where
  pub scrub_headers : Bool
  pub dial_timeout : ℤ

pub record ProviderConfig : Type 0 where
  pub broker : BrokerClientConfig
  pub provider : ProviderOptions
  pub transport : TransportConfig
  pub logging : LoggingConfig

-- The zero values that `&BrokerConfig{}`, `&ConsumerConfig{}` and `&ProviderConfig{}` start from.
abbrev pub zero_logging : LoggingConfig
zero_logging = record { level = [] }

abbrev pub zero_broker_config : BrokerConfig
zero_broker_config = record {
  server = record {
    listen = [];
    tls = record { enabled = false; cert_file = []; key_file = [] };
    status_endpoint_enabled = false;
    unauthorized_redirect = record { enabled = false; url = [] };
  };
  tunnel = record {
    poll_timeout = pos 0;
    session_timeout = pos 0;
    coalesce_window = pos 0;
    poll_buffer_size = pos 0;
    max_send_bytes = pos 0;
    high_water_warn = pos 0;
    poll_mode = [];
    enable_websocket = false;
    enable_resume = false;
    resume_grace = pos 0;
  };
  auth = record { enabled = false; token = [] };
  logging = zero_logging;
}

abbrev pub zero_client_config : BrokerClientConfig
zero_client_config = record {
  url = [];
  endpoint = [];
  insecure_skip_verify = false;
  auth_token = [];
}

abbrev pub zero_transport : TransportConfig
zero_transport = record {
  poll_interval = pos 0;
  retry_backoff = pos 0;
  coalesce_window = pos 0;
  poll_mode = [];
  poll_grace = pos 0;
  upload_stream_preference = [];
  upload_probe_timeout = pos 0;
  prefer_websocket = false;
  prefer_resume = false;
}

abbrev pub zero_consumer_config : ConsumerConfig
zero_consumer_config = record {
  broker = zero_client_config;
  socks5 = record { listen = [] };
  transport = zero_transport;
  logging = zero_logging;
}

abbrev pub zero_provider_config : ProviderConfig
zero_provider_config = record {
  broker = zero_client_config;
  provider = record { scrub_headers = false; dial_timeout = pos 0 };
  transport = zero_transport;
  logging = zero_logging;
}
