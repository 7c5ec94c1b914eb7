-- ===== src/Engine.antt =====
-- internal/core/task/engine.go: the commands of the workspace and the reads.
pub mod Decided
pub mod Stopped
pub mod Reconciled
pub mod Colliding
pub mod Scope
pub mod Commit
pub mod Tasks
pub mod Reviews
pub mod Agents
pub mod Messages
pub mod Profiles
pub mod Runs
pub mod Reads
pub mod Consistency
pub mod Mutations
pub mod Invariants
pub mod Steps
pub mod Lifecycle
pub mod Reachable
pub mod System
pub mod Outcome
pub mod Dispatch
pub mod Starting
pub mod Delivery
pub mod Recovery
