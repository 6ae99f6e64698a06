-- ===== src/Twins.antt =====
-- src/hil_controller/twins.py with twin_models.py, api/twins.py and db/twins.sql: the inventory of
-- physical units, what was observed of them, and the logical slots that they occupy.
pub mod Tables
pub mod Upserts
pub mod Ingest
pub mod Api
pub mod Keeps
pub mod Kept
pub mod Replayed
pub mod Unique
pub mod Claimed
pub mod Histories
pub mod Occupied
pub mod Swapped
pub mod Ports
pub mod Newest
pub mod Tests
