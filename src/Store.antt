-- ===== src/Store.antt =====
-- internal/store: tables of the SQLite database, by what the statements on them say.
pub mod Tables
pub mod Users
pub mod Keys
pub mod Access
pub mod History
pub mod Since
pub mod Ended
