-- ===== src/Registry.antt =====
-- internal/broker/endpoint.go: the endpoints of the broker, each with one provider and its consumers.
pub mod Defs
pub mod Ops
pub mod Soundness
pub mod View
pub mod Provider
pub mod Modify
pub mod System
pub mod Waiters
pub mod Stays
pub mod Register
pub mod Debts
pub mod Settling
pub mod Clearing
pub mod Spec
pub mod Matches
pub mod Flatten
pub mod Abstraction
pub mod Methods
pub mod Refines
pub mod Queries
mod Tests
