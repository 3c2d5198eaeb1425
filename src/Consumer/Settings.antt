-- ===== src/Consumer/Settings.antt =====
-- `Config` of internal/consumer/client.go and the Connector that Run makes of it.
use http_broker.Base.{Bool, Bytes, [], ◌∷◌, codes}
use http_broker.Base.Int.{ℤ}
use http_broker.Client.{Connector, ReconnectLoop, prefer_stream_mode}

pub record Config : Type 0 where
  pub broker_url : Bytes
  pub endpoint : Bytes
  pub socks5_listen : Bytes
  pub poll_interval : ℤ
  pub retry_backoff : ℤ
  pub insecure_skip_verify : Bool
  pub auth_token : Bytes
  pub coalesce_window : ℤ
  pub poll_mode : Bytes
  pub poll_grace : ℤ
  pub upload_stream_preference : Bytes
  pub upload_probe_timeout : ℤ
  pub prefer_websocket : Bool
  pub prefer_resume : Bool

-- The Connector of `Connect`.
unfoldable pub connector : Bytes → Config → Connector
connector batch c = record {
  base_url = c.broker_url;
  auth_token = c.auth_token;
  meta = (codes "role", codes "consumer") ∷ (codes "endpoint", c.endpoint) ∷ [];
  poll_interval = c.poll_interval;
  coalesce_window = c.coalesce_window;
  insecure_skip_verify = c.insecure_skip_verify;
  prefer_stream = prefer_stream_mode batch c.poll_mode;
  poll_grace = c.poll_grace;
  upload_stream_preference = c.upload_stream_preference;
  upload_probe_timeout = c.upload_probe_timeout;
  prefer_websocket = c.prefer_websocket;
  prefer_resume = c.prefer_resume;
}

-- The loop that Run runs.
unfoldable pub reconnect_loop : Bytes → Config → ReconnectLoop
reconnect_loop batch c = record { connect = connector batch c; initial_backoff = c.retry_backoff }
