-- ===== src/Engine.antt =====
-- The `Worker` of src/storage_engine.rs: what a job of the storage engine does with the memtable
-- and the tables.
pub mod Jobs
pub mod JobsLaws
pub mod Laws
pub mod FlushLaws
pub mod Examples
use rkvs.Base.{ℕ, List, Option, none, some, Outcome, ok, err, panic, Text, IoError}
use rkvs.Base
use rkvs.Base.Io.{Io}
use rkvs.Wal.Segment.{FileSystem}
use rkvs.SsTable.Entry.{SsTableEntry}
use rkvs.SsTable.Level
use rkvs.SsTable.Level.{LevelContainer}
use rkvs.Memtable.Table.{MemTableValue, Table, lookup}
use rkvs.Memtable.Worker.{Worker, flush_if_full, put_key, delete_key}

-- opt.map(|entry| entry.value).flatten()
abbrev pub entry_value : Option SsTableEntry → Option Text
entry_value none = none
entry_value (some e) = e.value

-- opt.map(|mvalue| mvalue.value).flatten()
abbrev pub old_value : Option MemTableValue → Option Text
old_value none = none
old_value (some v) = v.value

abbrev pub from_tables : Outcome IoError (Option SsTableEntry) → Outcome IoError (Option Text)
from_tables found = Base.◌>>=◌ found λ e. ok (entry_value e)

-- Worker::get, on a lock of the table that is not poisoned
unfoldable pub get : Table → LevelContainer → Text → Outcome IoError (Option Text)
get table tables key = elim (lookup key table) [
  | some v ↦ ok v.value
  | none ↦ from_tables (Level.get tables key)
]

-- The thread of the memtable: it runs, it has panicked, or it has panicked in a flush, under the
-- write lock of the table, which is poisoned then.
pub data WriterThread : Type 0 where
  alive dead poisoned : WriterThread

module _ (fs : FileSystem) (segment_size : ℕ) (checksum : List ℕ → ℕ) {F : Type 0}
    (flush : Table → Io F IoError (Unit {0})) (max_size : ℕ) where
  -- MemTable: the thread, and what it works on
  pub record MemTable : Type 0 where
    pub worker : Worker fs segment_size checksum flush max_size
    pub thread : WriterThread

  -- what the thread does with a job that is not a flush
  abbrev pub Job : Type 0
  Job = Io (Worker fs segment_size checksum flush max_size) IoError (Option MemTableValue)

  -- the answer that is received: a thread that panics drops the channel
  abbrev pub received :
      WriterThread
      → Outcome IoError (Option MemTableValue) × Worker fs segment_size checksum flush max_size
      → Outcome IoError (Option Text) × MemTable
  received after_panic (ok old, w) = (ok (old_value old), record { worker = w; thread = alive })
  received after_panic (err e, w) = (err e, record { worker = w; thread = alive })
  received after_panic (panic, w) =
      (err IoError.not_connected, record { worker = w; thread = after_panic })

  -- the job behind the flush of a full memtable
  abbrev pub after_flushing :
      Job
      → Outcome IoError (Unit {0}) × Worker fs segment_size checksum flush max_size
      → Outcome IoError (Option Text) × MemTable
  after_flushing job (ok done, w) = received dead (job w)
  after_flushing job (err e, w) = received alive (err e, w)
  after_flushing job (panic, w) = received poisoned (panic, w)

  -- a job is sent to the thread, and its answer awaited; nothing is sent to a thread that is gone
  unfoldable pub send_job :
      Job
      → WriterThread
      → Worker fs segment_size checksum flush max_size
      → Outcome IoError (Option Text) × MemTable
  send_job job alive w =
      after_flushing job (flush_if_full fs segment_size checksum flush max_size w)
  send_job job dead w = (err IoError.not_connected, record { worker = w; thread = dead })
  send_job job poisoned w = (err IoError.not_connected, record { worker = w; thread = poisoned })

  -- Worker::put and Worker::delete, over MemTable::put and MemTable::delete
  unfoldable pub put : Text → Text → Io MemTable IoError (Option Text)
  unfolding send_job
  put key value m =
      send_job (put_key fs segment_size checksum flush max_size key value) m.thread m.worker

  unfoldable pub delete : Text → Io MemTable IoError (Option Text)
  unfolding send_job
  delete key m = send_job (delete_key fs segment_size checksum flush max_size key) m.thread m.worker

  -- the lock is taken and unwrapped
  abbrev pub locked : WriterThread → Outcome IoError (Option Text) → Outcome IoError (Option Text)
  locked alive r = r
  locked dead r = r
  locked poisoned r = panic

  -- Worker::get, over MemTable::get
  unfoldable pub get_locked : LevelContainer → Text → Io MemTable IoError (Option Text)
  unfolding get
  get_locked tables key m = (locked m.thread (get m.worker.table tables key), m)
