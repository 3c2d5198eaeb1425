-- ===== src/Tunnel.antt =====
-- The target address that opens every tunnel stream: internal/consumer/dialer.go,
-- internal/broker/relay.go and internal/provider/handler.go.
pub mod Address
pub mod Bridge
pub mod Whole
mod Tests
