-- ===== src/Subscription.antt =====
-- backend/internal/service/subscription.go over infrastructure/db/subscription_repo.go: the
-- subscriptions, their nodes, and what refers to these nodes. The children use one another.
pub mod State
pub mod Repo
pub mod Nodes
pub mod Outcome
pub mod Steps
pub mod Sound
pub mod Fresh
pub mod Kept
pub mod Decode
pub mod Service
pub mod Exchange
pub mod Bindings
pub mod Remap
pub mod ActiveLink
pub mod Refresh
pub mod Failure
pub mod Manual
pub mod Import
pub mod Twins
pub mod Junction
