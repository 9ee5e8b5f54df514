-- ===== src/Storage.antt =====
-- internal/storage/sqlite: the tables of the local database. A row holds the record itself where the
-- source keeps its JSON.
pub mod Merge
pub mod Tables
pub mod Events
pub mod Sessions
