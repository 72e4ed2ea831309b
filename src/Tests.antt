-- ===== src/Tests.antt =====
-- The witnesses of the theorems with hypotheses, at concrete inputs.
mod Sessions
mod Jwt
mod Iptables
mod Lifecycle
mod Peers
mod Api
mod Refresh
mod Links
