-- ===== src/Config.antt =====
-- internal/config/config.go, and what the commands of cmd/ make of the file and the flags.
pub mod Settings
pub mod Load
pub mod Broker
pub mod Startup
pub mod Clients
pub mod ConsumerCommand
pub mod ProviderCommand
pub mod Joining
pub mod Admission
mod Tests
