-- ===== src/Lib.antt =====
-- The core of rkvs, a key-value store server: its wire protocol and connections, its write-ahead
-- log, and the sorted tables it keeps on disk.
--
-- Parts. A client's bytes are read by src/tcp/connection.rs with the parser of
-- src/tcp/protocol.rs; each request becomes an operation on the storage engine
-- (src/storage_engine.rs). The engine's memtable (src/storage_engine/memtable.rs) writes every
-- change to the log (src/storage_engine/memtable/wal.rs, wal/segment.rs), and is flushed to
-- segments of sorted tables (src/storage_engine/sstable.rs, sstable/level/segment.rs).
--
-- Files.
--   Base        what a Rust call comes to (Results, Io), bytes of integers (Bytes), buffers with
--               the panics of slicing (Buffer), String (Strings, StringOrder, ByteOrder), hex (Hex).
--   Tcp         Uuid and Stream: what the crates uuid and tokio give. Protocol: the types,
--               Headers, Payload, Request and Response hold the functions of protocol.rs,
--               Encode is TcpRequest::to_bytes. Store: the trait Store. Connection:
--               TcpConnection, one turn of start for each element of a schedule. Manager:
--               ConnectionManager, on the messages that it receives. Server: Server::run of lib.rs, on
--               what happens in each of its rounds.
--   Wal         Entry: WalEntry. Parse: Segment::parse_validate_wal_entries. Filename: the names
--               of the segments. Segment: the active segment. Append: Wal.
--   SsTable     Entry: SsTableEntry. Index: SegmentIndex and SegmentFooter. Segment: the reads of a
--               segment; Segment/File: an open file, Segment/Open: from_file, Segment/ReadBuf:
--               read_at_most and SegmentReadBuf. Writer: SegmentWriter; Writer/Flush: the flush of a
--               table. Output: the file that is written. Filename: a segment's name. Level: the
--               lookups of level.rs, and SsTable::get.
--               Flusher: memtable_flusher.rs, on the levels and the files of the directory.
--               Merge/Choice: segments_to_merge; Merge/Sort and Merge/Rounds: the
--               two loops of merge_sort.
--               Compaction: the choice of the levels and the deletion of files of
--               sstable/compaction.rs.
--   Memtable    Table: the hash map. Worker: WriteWorker, run on the list of the jobs that are sent.
--               Recover: MemTable::recover, and the two reads of Segment that it makes. Start:
--               MemTable::start, on the directory of the log.
--   Engine      Worker of storage_engine.rs, over MemTable::put, delete and get: the thread of the
--               memtable runs, or has panicked, with the lock of the table poisoned or not. Jobs: its run on the jobs that are sent, and the trait
--               Store of StorageEngine.
-- The other files below these hold lemmas and tests.
--
-- Conventions. A String is its list of bytes; a buffer is a list of bytes; a Rust call returns
-- Outcome, whose panic is a value. Numbers are not bounded by their type: an `as` cast and
-- to_be_bytes or to_le_bytes wrap as in the source, and an addition or subtraction of u32 that
-- could overflow is checked, as in a debug build, or bounded by a hypothesis. What is not in the
-- repository is a parameter: the crate uuid (UuidCrate, with its documented laws UuidLaws), the
-- checksum of the crate crc, std::fs (FileSystem, a created file is empty; DiskLaws, a file holds
-- what is written to it; Directory, what is listed and opened at a start), and the trait Store in
-- the connection. The file that a segment is written to is Output, with a parameter that says which
-- writes fail; a BufWriter is taken as its writes. Whether a file can be opened and gives its
-- metadata is a parameter too (OpenFails). An open file (Segment/File) reads back what was written,
-- under one of two conditions that a theorem names: MayRead, where read_at may return fewer bytes
-- than asked for or an error, as its interface allows; or Holds, where every read succeeds and is
-- complete, since read_table_entry and read_table_entries are wrong behind a second short read. A
-- socket is the list of the bytes still to be read; a write that fails has written nothing.
--
-- Loops. Parse.parse_loop, Entry.vec_loop, Entry.deque_loop and Index.from_loop run on fuel, the
-- number of bytes and one more, and Segment.fill_loop on two more, ReadBuf.most_loop on the bytes
-- to read and one more; each round takes at least one byte, or is the last. Index.search_loop has
-- the number of entries, and each round narrows the range. Choice.choose_loop has the highest
-- segment number and two, and each round lowers the number. Rounds.run_several and merge_rounds
-- take their fuel from the caller, since the loops of merge_sort do not end for every input.
--
-- Not modelled: the background threads and channels, but for what a panic of the memtable's thread
-- leaves behind (one worker of the engine is run, where the program has six); sockets and tasks
-- (tokio); what PartitionedLevel::merge writes, from_dir, and the compaction over them.
pub mod Base
pub mod Tcp
pub mod Wal
pub mod SsTable
pub mod Memtable
pub mod Engine
