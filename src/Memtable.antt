-- ===== src/Memtable.antt =====
-- src/storage_engine/memtable.rs: the table in memory, and the worker that writes it.
pub mod Table
pub mod Worker
pub mod WorkerLaws
pub mod Recover
pub mod Start
pub mod Listing
pub mod RecoverLaws
pub mod Chunks
pub mod LogStored
pub mod LogLaws
pub mod LogCases
pub mod LogAppend
pub mod Durable
pub mod StartLaws
pub mod StartDurable
pub mod Examples
pub mod LogExamples
