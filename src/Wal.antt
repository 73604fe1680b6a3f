-- ===== src/Wal.antt =====
-- src/storage_engine/memtable/wal: the write-ahead log.
pub mod Entry
pub mod EntryLaws
pub mod Parse
pub mod ParseLaws
pub mod ParseTotal
pub mod Filename
pub mod FilenameLaws
pub mod NameLaws
pub mod Segment
pub mod Append
pub mod SegmentLaws
pub mod AppendLaws
pub mod DiskLaws
pub mod Examples
