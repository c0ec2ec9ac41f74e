-- ===== src/Sandbox.antt =====
-- internal/sandbox: the parts of the sandbox manager that decide without touching the host.
mod Tests
pub mod Restart
pub mod Attach
pub mod Urls
pub mod Mounts
pub mod Manager
pub mod Bwrap
pub mod Addresses
pub mod Sockets
