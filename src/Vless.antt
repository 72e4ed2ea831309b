-- ===== src/Vless.antt =====
-- backend/internal/vless: share links, with their transports and securities. The children use one
-- another.
pub mod Query
pub mod Transport
pub mod Security
pub mod Build
pub mod Merge
