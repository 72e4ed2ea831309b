-- ===== src/Tunnel.antt =====
-- backend/internal/service/tunnel.go and tunnel_runtime.go: the life of a tunnel.
pub mod Repo
pub mod World
pub mod Flags
pub mod Start
pub mod Stop
pub mod Nodes
pub mod Service
pub mod Put
pub mod Create
