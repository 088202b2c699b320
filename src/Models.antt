-- ===== src/Models.antt =====
-- The schema of src/mailmind/db/models.py: its enumerations and its rows.
mod Status
mod Rows
mod Agents
mod Mail
pub use Status.*
pub use Rows.*
pub use Agents.*
pub use Mail.*
