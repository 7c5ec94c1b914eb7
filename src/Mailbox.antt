-- ===== src/Mailbox.antt =====
-- internal/adapters/mailbox/file.go: envelopes and acknowledgements as files, one directory for each
-- agent. What other processes drop into the tree is arbitrary.
pub mod Paths
pub mod Tree
pub mod Wire
pub mod Files
pub mod Inbox
pub mod Acks
pub mod Publish
pub mod Again
pub mod Archive
pub mod Listing
pub mod Scan
