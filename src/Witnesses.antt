-- ===== src/Witnesses.antt =====
-- Examples at one small mailbox: two folders, one message, a bundle that would move it.
pub mod Data
pub mod Review
pub mod Server
pub mod Queues
pub mod Logins
pub mod Reading
pub mod Bodies
pub mod Syncs
