-- ===== src/Provider.antt =====
-- internal/provider/client.go and internal/provider/handler.go.
pub mod Settings
pub mod Copying
pub mod Delivery
pub mod Serving
mod Tests
