-- ===== src/Suggest.antt =====
-- src/mailmind/suggest/model.py: making, deciding and expiring bundles, one module for each part.
pub mod Refusal
pub mod Names
pub mod Decide
pub mod Items
pub mod Target
pub mod Request
pub mod Propose
pub mod Grow
pub mod Discard
