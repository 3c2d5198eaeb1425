-- ===== src/Provider/Settings.antt =====
-- `Config` of internal/provider/client.go and the Connector that Run makes of it.
use http_broker.Base.{ℕ, Option, none, some, Bool, Bytes, [], ◌∷◌, codes}
use http_broker.Base.Int.{ℤ}
use http_broker.Client.{
  Connector, Outcome, outcome_transport_failed, ReconnectLoop, prefer_stream_mode,
}

pub record Config : Type 0 where
  pub broker_url : Bytes
  pub endpoint : Bytes
  pub poll_interval : ℤ
  pub retry_backoff : ℤ
  pub dial_timeout : ℤ
  pub scrub_headers : Bool
  pub insecure_skip_verify : Bool
  pub auth_token : Bytes
  pub coalesce_window : ℤ
  pub poll_mode : Bytes
  pub poll_grace : ℤ
  pub upload_stream_preference : Bytes
  pub upload_probe_timeout : ℤ
  pub prefer_websocket : Bool
  pub prefer_resume : Bool

-- The Connector of `Connect`.
unfoldable pub connector : Bytes → Config → Connector
connector batch c = record {
  base_url = c.broker_url;
  auth_token = c.auth_token;
  meta = (codes "role", codes "provider") ∷ (codes "endpoint", c.endpoint) ∷ [];
  poll_interval = c.poll_interval;
  coalesce_window = c.coalesce_window;
  insecure_skip_verify = c.insecure_skip_verify;
  prefer_stream = prefer_stream_mode batch c.poll_mode;
  poll_grace = c.poll_grace;
  upload_stream_preference = c.upload_stream_preference;
  upload_probe_timeout = c.upload_probe_timeout;
  prefer_websocket = c.prefer_websocket;
  prefer_resume = c.prefer_resume;
}

-- The loop that Run runs.
unfoldable pub reconnect_loop : Bytes → Config → ReconnectLoop
reconnect_loop batch c = record { connect = connector batch c; initial_backoff = c.retry_backoff }

-- `StreamHandler` of internal/provider/handler.go and `Client`.
pub record StreamHandler : Type 0 where
  pub dial_timeout : ℤ
  pub scrub_headers : Bool

pub record Client : Type 0 where
  pub config : Config
  pub handler : StreamHandler

-- `NewClient`, with `NewStreamHandler`.
unfoldable pub new_client : Config → Client
new_client c = record {
  config = c;
  handler = record { dial_timeout = c.dial_timeout; scrub_headers = c.scrub_headers };
}

-- Serve; the arguments are what `ServerSession` and AcceptLoop answer.
unfoldable pub serve : Option ℕ → Outcome → Outcome
serve none accepted = outcome_transport_failed
serve (some sess) accepted = accepted
