-- ===== src/Scrubber.antt =====
-- internal/provider/scrubber.go: the writer that strips proxy headers from plain HTTP requests.
pub mod Text
pub mod Headers
pub mod Body
pub mod Conn
pub mod Lines
pub mod Proxies
pub mod Detect
pub mod Contract
pub mod Stream
pub mod Pump
pub mod Cut
pub mod Chunks
pub mod Requests
pub mod Held
mod Tests
