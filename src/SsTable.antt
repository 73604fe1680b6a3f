-- ===== src/SsTable.antt =====
-- src/storage_engine/sstable: the sorted tables on disk.
pub mod Entry
pub mod EntryLaws
pub mod Index
pub mod Segment
pub mod Ordered
pub mod Output
pub mod Writer
pub mod Filename
pub mod Level
pub mod LevelLaws
pub mod Flusher
pub mod Merge
pub mod Compaction
pub mod Examples
