-- ===== src/Imap.antt =====
-- src/mailmind/imap: what the service asks of a mail server, and what it does with the answers.
pub mod Backend
pub mod Perform
pub mod Apply
pub mod Record
pub mod Item
pub mod Sync
pub mod Probe
