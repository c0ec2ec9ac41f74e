-- ===== src/Control.antt =====
-- internal/control: the control API, JSON lines over a Unix socket.
pub mod Protocol
pub mod Lines
pub mod Handlers
pub mod Named
pub mod Session
pub mod Kept
pub mod Stream
mod Tests
