-- ===== src/GitProxy.antt =====
-- internal/gitproxy: the policy engine behind a sandbox's git stub.
mod Tests
pub mod Policy
pub mod CapWriter
pub mod Exec
pub mod Handle
