-- ===== src/SsTable/Merge.antt =====
-- The merging of levels, src/storage_engine/sstable/level.rs.
pub mod Choice
pub mod ChoiceLaws
pub mod Sort
pub mod Rounds
pub mod Examples
