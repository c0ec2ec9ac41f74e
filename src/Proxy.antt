-- ===== src/Proxy.antt =====
-- internal/proxy: the per-sandbox URL allowlist and the SNI parser.
mod Tests
pub mod Sni
pub mod Allowlist
pub mod Server
