-- ===== src/State.antt =====
-- internal/state: the denied-event ring, the sandbox record and the registry.
mod Tests
pub mod Ring
pub mod Store
