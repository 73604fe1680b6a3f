-- ===== src/Memtable/Worker.antt =====
-- `WriteWorker` of src/storage_engine/memtable.rs, which makes every change to the memtable: a
-- change is written to the log first.
use rkvs.Base.{
  ℕ, ◌+◌, List, [], ◌∷◌, ◌++◌, Option, none, some, length, leb, if◌then◌else◌, Outcome, ok, err,
  panic, Text, IoError,
}
use rkvs.Base.Io.{Io, ◌>>=◌, ◌>>◌, pure, get, modify}
use rkvs.Wal.Entry.{WalEntry, OpType}
use rkvs.Wal.Segment.{FileSystem, State}
use rkvs.Wal.Append
use rkvs.SsTable.Entry.{len}
use rkvs.Memtable.Table.{MemTableValue, Table, lookup, insert}

-- What is sent to the worker, without the channel for the answer.
pub data WriteJob : Type 0 where
  delete : Text → WriteJob
  put : Text → Text → WriteJob
  shutdown : WriteJob

-- `F` is the state behind the flusher, the trait MemTableFlush.
module _ (fs : FileSystem) (segment_size : ℕ) (checksum : List ℕ → ℕ) {F : Type 0}
    (flush : Table → Io F IoError (Unit {0})) (max_size : ℕ) where
  pub record Worker : Type 0 where
    pub table : Table
    pub wal : State fs
    pub flusher : F
    pub current_size : ℕ

  abbrev pub Answer : Type 0
  Answer = Outcome IoError (Option MemTableValue)

  -- a call of the log
  abbrev pub on_wal : Io (State fs) IoError (Unit {0}) → Io Worker IoError (Unit {0})
  on_wal call w = ((call w.wal).0, record w { wal = (call w.wal).1 })

  -- the table and its size after an insertion
  abbrev pub inserted : Text → MemTableValue → Worker → Worker
  inserted key mvalue w = record w {
    table = insert key mvalue w.table;
    current_size = w.current_size + len (length key) mvalue.value;
  }

  -- what put and delete do: the entry goes to the log, and then into the table
  unfoldable pub write : OpType → Text → Option Text → Io Worker IoError (Option MemTableValue)
  write op key value = do
    w ← get
    let sequence_number = Append.next_sequence_number fs segment_size w.wal
    let entry : WalEntry = record {
      operation_type = op;
      key = key;
      value = value;
      sequence_number = sequence_number;
    }
    on_wal (Append.append fs segment_size checksum entry)
    modify (inserted key (record { value = value; sequence_number = sequence_number }))
    pure (ok (lookup key w.table))

  -- WriteWorker::put and WriteWorker::delete
  unfoldable pub put_key : Text → Text → Io Worker IoError (Option MemTableValue)
  put_key key value = write OpType.put key (some value)

  unfoldable pub delete_key : Text → Io Worker IoError (Option MemTableValue)
  delete_key key = write OpType.delete key none

  abbrev pub emptied : Worker → F → Worker
  emptied w f = record w { table = []; flusher = f; current_size = 0 }

  -- what follows a flush: the table is cleared; where it fails, a `todo!` is reached
  abbrev pub after_flush :
      Worker → Outcome IoError (Unit {0}) × F → Outcome IoError (Unit {0}) × Worker
  after_flush w (ok done, f) = (ok tt, emptied w f)
  after_flush w (err e, f) = (panic, record w { flusher = f })
  after_flush w (panic, f) = (panic, record w { flusher = f })

  -- a full table is flushed first
  unfoldable pub flush_if_full : Io Worker IoError (Unit {0})
  flush_if_full w =
      if leb max_size w.current_size then after_flush w (flush w.table w.flusher) else (ok tt, w)

  -- the answer to a job, sent back whatever it is; a panic ends the thread
  abbrev pub answered :
      Outcome IoError (Option MemTableValue) × Worker → Outcome IoError (List Answer) × Worker
  answered (ok old, w) = (ok (ok old ∷ []), w)
  answered (err e, w) = (ok (err e ∷ []), w)
  answered (panic, w) = (panic, w)

  unfoldable pub handle_job : WriteJob → Io Worker IoError (List Answer)
  unfolding put_key delete_key
  handle_job (put key value) w = answered (put_key key value w)
  handle_job (delete key) w = answered (delete_key key w)
  handle_job shutdown w = (ok [], w)

  -- what follows the loop; the thread ends, whatever the flush comes to
  unfoldable pub flush_rest : Worker → Worker
  flush_rest w = elim w.table [
    | [] ↦ w
    | _ ∷ _ ↦ record w { flusher = (flush w.table w.flusher).1 }
  ]

  -- WriteWorker::run on the jobs that are sent, to the last of them: its answers
  unfoldable pub run : List WriteJob → Io Worker IoError (List Answer)
  unfolding flush_if_full handle_job flush_rest
  run [] w = (ok [], flush_rest w)
  run (shutdown ∷ jobs) w = (flush_if_full >> (λ w'. (ok [], flush_rest w'))) w
  run (put key value ∷ jobs) w =
      (do
        flush_if_full
        answer ← handle_job (put key value)
        more ← run jobs
        pure (ok (answer ++ more)))
        w
  run (delete key ∷ jobs) w =
      (do
        flush_if_full
        answer ← handle_job (delete key)
        more ← run jobs
        pure (ok (answer ++ more)))
        w
