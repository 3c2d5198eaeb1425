-- ===== src/Consumer.antt =====
-- internal/consumer/client.go: the queue of accepted connections of the SOCKS5 listener.
pub mod Queue
pub mod Sessions
pub mod Order
pub mod Patience
pub mod Accounts
pub mod Ending
pub mod Settings
mod Tests
