-- ===== src/Client.antt =====
-- What internal/consumer/client.go and internal/provider/client.go hand to pollmux to connect.
use http_broker.Base.{Bool, not, Bytes, List, bytes_eq, none, some, [], lookup}
use http_broker.Base.Int.{ℤ}

-- The fields of pollmux's Connector that the clients set.
pub record Connector : Type 0 where
  pub base_url : Bytes
  pub auth_token : Bytes
  pub meta : List (Bytes × Bytes)
  pub poll_interval : ℤ
  pub coalesce_window : ℤ
  pub insecure_skip_verify : Bool
  pub prefer_stream : Bool
  pub poll_grace : ℤ
  pub upload_stream_preference : Bytes
  pub upload_probe_timeout : ℤ
  pub prefer_websocket : Bool
  pub prefer_resume : Bool

-- pollmux's Outcome, which a Serve reports.
pub data Outcome : Type 0 where
  outcome_shutdown outcome_transport_failed outcome_peer_closed : Outcome

-- The fields of pollmux's ReconnectLoop that the clients set, but for Serve and the logger.
pub record ReconnectLoop : Type 0 where
  pub connect : Connector
  pub initial_backoff : ℤ

-- `preferStreamMode`, the same in both packages; PollModeBatch of pollmux is an argument.
unfoldable pub prefer_stream_mode : Bytes → Bytes → Bool
prefer_stream_mode batch poll_mode = not (bytes_eq poll_mode batch)

-- A key of a Go map of strings, empty where absent.
abbrev pub meta_value : Bytes → List (Bytes × Bytes) → Bytes
meta_value k meta = elim (lookup k meta) [ none ↦ [] | some v ↦ v ]
