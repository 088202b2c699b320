-- ===== src/Imap/Sync.antt =====
-- src/mailmind/imap/sync.py: bringing the cache into step with a mailbox.
pub mod Session
pub mod Container
pub mod Running
pub mod Accounts
pub mod Absorbing
pub mod Identity
pub mod Vanishing
pub mod Batching
pub mod Whole
pub mod Premises
pub mod Discovering
