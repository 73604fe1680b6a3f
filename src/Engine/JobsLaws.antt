-- ===== src/Engine/JobsLaws.antt =====
-- The engine is a map from keys to values over the tables, whatever the log and the tables on disk
-- do; it lives on where the thread of the memtable does not.
use rkvs.Base.{
  ℕ, ◌⊎◌, ◌+◌, ◌≡◌, List, [], ◌∷◌, Bool, true, false, if◌then◌else◌, Option, none, some, length,
  Outcome, ok, err, panic, Text, IoError, text_eq,
}
use rkvs.Base.Io.{Io}
use rkvs.Wal.Segment.{FileSystem}
use rkvs.Wal.Append
use rkvs.Wal.Append.{next_sequence_number}
use rkvs.SsTable.Entry.{SsTableEntry, len}
use rkvs.SsTable.Level
use rkvs.SsTable.Level.{LevelContainer}
use rkvs.Memtable.Table.{MemTableValue, Table, lookup}
use rkvs.Memtable.Worker.{Worker}
use rkvs.Engine
use rkvs.Engine.{MemTable, WriterThread, alive, dead, poisoned, send_job, old_value}
use rkvs.Engine.Jobs.{Command, run, send}

-- what the jobs add to the size of the memtable
abbrev pub cost : List Command → ℕ
cost [] = 0
cost (Command.delete key ∷ jobs) = len (length key) none + cost jobs
cost (Command.get key ∷ jobs) = cost jobs
cost (Command.put key value ∷ jobs) = len (length key) (some value) + cost jobs

-- What is in memory for a key: nothing, a tombstone, or a value.
abbrev pub Memory : Type 0
Memory = Text → Option (Option Text)

abbrev pub assign : Text → Option Text → Memory → Memory
assign key value mem other = if text_eq other key then some value else mem other

-- the value that a put or a delete replaces
abbrev pub replaced : Option (Option Text) → Option Text
replaced none = none
replaced (some v) = v

-- the value of what the tables on disk have
abbrev pub on_disk : Outcome IoError (Option SsTableEntry) → Outcome IoError (Option Text)
on_disk (ok none) = ok none
on_disk (ok (some e)) = ok e.value
on_disk (err e) = err e
on_disk panic = panic

-- what a get is to answer: what is in memory, before what is on disk
abbrev pub over :
    Option (Option Text) → Outcome IoError (Option Text) → Outcome IoError (Option Text)
over (some v) below = ok v
over none below = below

abbrev pub in_memory : Option MemTableValue → Option (Option Text)
in_memory none = none
in_memory (some v) = some v.value

abbrev pub TableHas : Memory → Table → Type 0
TableHas mem t = (key : Text) → in_memory (lookup key t) ≡ mem key

-- The answer to a put or a delete, with what the memory is then and whether the thread runs: the
-- replaced value; or an error, and the thread may be gone; where it is gone, that error it stays.
abbrev pub Written :
    Text
    → Option Text
    → Memory
    → Bool
    → (Memory → Bool → Type 0)
    → Outcome IoError (Option Text)
    → Type 0
Written key value mem true next (ok v) = (v ≡ replaced (mem key)) × next (assign key value mem) true
Written key value mem true next (err e) =
    next mem true ⊎ ((e ≡ IoError.not_connected) × next mem false)
Written key value mem true next panic = ⊥
Written key value mem false next (ok v) = ⊥
Written key value mem false next (err e) = (e ≡ IoError.not_connected) × next mem false
Written key value mem false next panic = ⊥

abbrev thread_of : Bool → WriterThread
thread_of true = alive
thread_of false = dead

module _ (fs : FileSystem) (size : ℕ) (checksum : List ℕ → ℕ) {F : Type 0}
    (flush : Table → Io F IoError (Unit {0})) (max_size : ℕ) (tables : LevelContainer) where
  abbrev W : Type 0
  W = Worker fs size checksum flush max_size

  abbrev M : Type 0
  M = MemTable fs size checksum flush max_size

  abbrev pub reads : Memory → Text → Outcome IoError (Option Text)
  reads mem key = over (mem key) (on_disk (Level.get tables key))

  -- The answer to a get; a panic of the tables is the last answer of this worker.
  abbrev pub Got :
      Memory
      → Text
      → List (Outcome IoError (Option Text))
      → Type 0
      → Outcome IoError (Option Text)
      → Type 0
  Got mem key more next (ok v) = (ok v ≡ reads mem key) × next
  Got mem key more next (err e) = (err e ≡ reads mem key) × next
  Got mem key more next panic = (panic ≡ reads mem key) × (more ≡ [])

  -- The answers are those of the memory over the tables, and behind the last of them the memtable
  -- has what the memory has.
  abbrev pub Agrees :
      Memory → Bool → List Command → List (Outcome IoError (Option Text)) → M → Type 0
  Agrees mem live [] [] m = TableHas mem m.worker.table × (m.thread ≡ thread_of live)
  Agrees mem live [] (r ∷ rs) m = ⊥
  Agrees mem live (c ∷ jobs) [] m = ⊥
  Agrees mem live (Command.get key ∷ jobs) (r ∷ rs) m = Got mem key rs (Agrees mem live jobs rs m) r
  Agrees mem live (Command.put key value ∷ jobs) (r ∷ rs) m =
      Written key (some value) mem live (λ mem' live'. Agrees mem' live' jobs rs m) r
  Agrees mem live (Command.delete key ∷ jobs) (r ∷ rs) m =
      Written key none mem live (λ mem' live'. Agrees mem' live' jobs rs m) r

  -- what a write comes to
  abbrev Writes :
      Memory → Text → Option Text → W → Outcome IoError (Option MemTableValue) × W → Type 0
  Writes mem key value w (ok old, w') =
      (old_value old ≡ replaced (mem key))
      × TableHas (assign key value mem) w'.table
      × (w'.current_size ≡ w.current_size + len (length key) value)
  Writes mem key value w (err e, w') = TableHas mem w'.table × (w'.current_size ≡ w.current_size)
  Writes mem key value w (panic, w') = TableHas mem w'.table × (w'.current_size ≡ w.current_size)

  module _ (mem : Memory) (key : Text) (value : Option Text) (w : W)
      (h : TableHas mem w.table) where
    abbrev mvalue : MemTableValue
    mvalue = record { value = value; sequence_number = next_sequence_number fs size w.wal }

  -- the answers to the jobs, from a memtable
  abbrev RunAgrees : Memory → Bool → List Command → M → Type 0
  RunAgrees mem live jobs m =
      Agrees mem live jobs (run fs size checksum flush max_size tables jobs m).0
        (run fs size checksum flush max_size tables jobs m).1

  abbrev SendAgrees :
      Memory → Bool → Command → List Command → Outcome IoError (Option Text) × M → Type 0
  SendAgrees mem live c jobs r =
      Agrees mem live (c ∷ jobs)
        (send fs size checksum flush max_size tables r
          (run fs size checksum flush max_size tables jobs)).0
        (send fs size checksum flush max_size tables r
          (run fs size checksum flush max_size tables jobs)).1

  -- an answer to a write, before the others
  abbrev SendWritten :
      Text → Option Text → Memory → Bool → List Command → Outcome IoError (Option Text) × M → Type 0
  SendWritten key value mem live jobs (r, m) =
      Written key value mem live (λ mem' live'. RunAgrees mem' live' jobs m) r
