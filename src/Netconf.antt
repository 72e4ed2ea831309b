-- ===== src/Netconf.antt =====
-- backend/internal/infrastructure/netconf on Linux: the packet filter, the policy routes and the
-- addresses of a tunnel.
pub mod Kernel
pub mod Rules
pub mod TProxy
pub mod Forward
pub mod Nat
pub mod Routing
