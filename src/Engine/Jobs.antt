-- ===== src/Engine/Jobs.antt =====
-- `Worker::run` of src/storage_engine.rs on the jobs that it receives, and the trait Store of
-- `StorageEngine`, whose calls each send one job and wait for its answer.
use rkvs.Base.{ℕ, List, [], ◌∷◌, Option, Outcome, ok, err, panic, Text, IoError}
use rkvs.Base.Io.{Io}
use rkvs.Wal.Segment.{FileSystem}
use rkvs.SsTable.Level.{LevelContainer}
use rkvs.Memtable.Table.{Table}
use rkvs.Tcp.Protocol.Response.{StorageEngineError}
use rkvs.Tcp.Store.{Store, EngineResult}
use rkvs.Engine
use rkvs.Engine.{MemTable}

pub data Command : Type 0 where
  delete : Text → Command
  get : Text → Command
  put : Text → Text → Command

-- What a call of the trait makes of the answer: a worker that panics drops the sender.
abbrev pub to_result : Outcome IoError (Option Text) → EngineResult
to_result (ok v) = EngineResult.value v
to_result (err e) = EngineResult.failure StorageEngineError.io_failure
to_result panic = EngineResult.failure StorageEngineError.shutdown

module _ (fs : FileSystem) (segment_size : ℕ) (checksum : List ℕ → ℕ) {F : Type 0}
    (flush : Table → Io F IoError (Unit {0})) (max_size : ℕ) (tables : LevelContainer) where
  -- the match in Worker::run
  unfoldable pub handle :
      Command → Io (MemTable fs segment_size checksum flush max_size) IoError (Option Text)
  handle (Command.delete key) m = Engine.delete fs segment_size checksum flush max_size key m
  handle (Command.get key) m =
      Engine.get_locked fs segment_size checksum flush max_size tables key m
  handle (Command.put key value) m = Engine.put fs segment_size checksum flush max_size key value m

  -- the answers, with what is left
  abbrev pub Answered : Type 0
  Answered = List (Outcome IoError (Option Text)) × MemTable fs segment_size checksum flush max_size

  -- the answer is sent, whatever it is; a panic of a get ends the thread of this worker
  abbrev pub send :
      Outcome IoError (Option Text) × MemTable fs segment_size checksum flush max_size
      → (MemTable fs segment_size checksum flush max_size → Answered)
      → Answered
  send (ok v, w) rest = (ok v ∷ (rest w).0, (rest w).1)
  send (err e, w) rest = (err e ∷ (rest w).0, (rest w).1)
  send (panic, w) rest = (panic ∷ [], w)

  -- Worker::run
  unfoldable pub run : List Command → MemTable fs segment_size checksum flush max_size → Answered
  unfolding handle
  run [] w = ([], w)
  run (c ∷ jobs) w = send (handle c w) (run jobs)

  -- the trait Store
  abbrev pub call :
      Command
      → MemTable fs segment_size checksum flush max_size
      → EngineResult × MemTable fs segment_size checksum flush max_size
  call c w = (to_result (handle c w).0, (handle c w).1)

  abbrev pub store : Store (MemTable fs segment_size checksum flush max_size)
  store = record {
    get = λ w key. call (Command.get key) w;
    put = λ w key value. call (Command.put key value) w;
    delete = λ w key. call (Command.delete key) w;
  }
