-- ===== src/Server.antt =====
-- The broker: internal/broker/server.go, its hooks of the session store and the reaper of sessions whose
-- poll broke, and the handling of a session in internal/broker/relay.go.
pub mod Settings
pub mod Reaper
pub mod Relay
pub mod Connect
pub mod Broker
pub mod Names
pub mod Visits
pub mod Status
pub mod Page
pub mod Routes
pub mod Doors
pub mod Stopping
pub mod Strangers
pub mod Ends
pub mod FastReaper
pub mod Evicting
pub mod Blackout
pub mod Vacancy
pub mod Replacement
mod Tests
