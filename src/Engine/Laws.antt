-- ===== src/Engine/Laws.antt =====
-- A get after a put or a delete.
use rkvs.Base.{
  ℕ, ◌+◌, ◌*◌, ◌^◌, ◌<◌, ◌≤◌, ◌≡◌, refl, List, false, Option, none, some, length, Outcome, ok, err,
  panic, Text, IoError, text_eq, lt→not-leb,
}
use rkvs.Base.Io.{Io, Safe, Safe_map}
use rkvs.Wal.Entry.{OpType}
use rkvs.Wal.EntryLaws.{layout}
use rkvs.Wal.Segment.{FileSystem}
use rkvs.Wal.SegmentLaws.{FileSystemLaws}
use rkvs.Wal.Append.{next_sequence_number}
use rkvs.SsTable.Level.{LevelContainer}
use rkvs.Memtable.Table.{MemTableValue, Table}
use rkvs.Memtable.Worker.{Worker, flush_if_full, put_key, delete_key}
use rkvs.Memtable.WorkerLaws.{IsFresh, Wrote, entry_of, put_key-Wrote, delete_key-Wrote}
use rkvs.Engine
use rkvs.Engine.{MemTable, WriterThread, alive, dead, poisoned, received}

module _ (fs : FileSystem) (laws : FileSystemLaws fs) (size : ℕ) (size_pos : 0 < size)
    (size_u32 : size < 2 ^ 32) (k : ℕ) (divides : k * size ≡ 2 ^ 32) (checksum : List ℕ → ℕ)
    {F : Type 0} (flush : Table → Io F IoError (Unit {0})) (max_size : ℕ) where
  abbrev Memtable_ : Type 0
  Memtable_ = Worker fs size checksum flush max_size

  abbrev Fresh : Memtable_ → Type 0
  Fresh = IsFresh fs laws size size_pos size_u32 k divides checksum flush max_size

  -- What a get returns after a write: the value under the key, and under every other key what it
  -- returned before.
  pub record Reads (tables : LevelContainer) (key : Text) (value : Option Text) (w w' : Memtable_)
      : Type 0 where
    pub key_reads : Engine.get w'.table tables key ≡ ok value
    pub others :
        (other : Text)
        → text_eq other key ≡ false
        → Engine.get w'.table tables other ≡ Engine.get w.table tables other

  Wrote-Reads :
      (tables : LevelContainer) (key : Text) (value : Option Text) (w : Memtable_)
      (old : Option MemTableValue) (w' : Memtable_)
      → Wrote fs laws size size_pos size_u32 k divides checksum flush max_size key value w old w'
      → Reads tables key value w w'
  unfolding Engine.get
  Wrote-Reads tables key value w old w' h = record {
    key_reads = rw (h.new_value, Engine.get) refl;
    others = λ other differs. rw (h.others other differs, Engine.get) refl;
  }

  -- A memtable whose thread runs.
  abbrev pub running : Memtable_ → MemTable fs size checksum flush max_size
  running w = record { worker = w; thread = alive }

  -- The thread still runs, and the property of the worker where a value is answered.
  abbrev pub Serves :
      (Memtable_ → Type 0)
      → Outcome IoError (Option Text) × MemTable fs size checksum flush max_size
      → Type 0
  Serves Q (ok v, m) = (m.thread ≡ alive) × Q m.worker
  Serves Q (err e, m) = m.thread ≡ alive
  Serves Q (panic, m) = ⊥

  received-Serves :
      (Q : Memtable_ → Type 0) (t : WriterThread)
      (r : Outcome IoError (Option MemTableValue) × Memtable_)
      → Safe (λ _ w'. Q w') r
      → Serves Q (received fs size checksum flush max_size t r)
  received-Serves Q t (ok v, w) h = (refl, h)
  received-Serves Q t (err e, w) h = refl
  received-Serves Q t (panic, w) h = absurd h

  not_full :
      (w : Memtable_)
      → w.current_size < max_size
      → flush_if_full fs size checksum flush max_size w ≡ (ok tt, w)
  unfolding flush_if_full
  not_full w h = rw (lt→not-leb max_size w.current_size h) refl

  -- After a put of a memtable that is not full, that answers with a value, a get of the key reads
  -- the value, whatever the tables on disk hold, and a get of another key reads what it did before.
  -- Neither the put nor the thread of the memtable panics where the memtable stands well, the key
  -- is not empty, and the entry fits a segment of the log and ends below 2 ^ 64.
  pub put-get :
      (tables : LevelContainer) (key value : Text) (w : Memtable_)
      → Fresh w
      → w.current_size < max_size
      → 0 < length key
      → length (
          layout checksum (
            entry_of fs laws size size_pos size_u32 k divides checksum flush max_size OpType.put key
              (some value)
              w))
        ≤ size
      → next_sequence_number fs size w.wal
          + length (
              layout checksum (
                entry_of fs laws size size_pos size_u32 k divides checksum flush max_size OpType.put
                  key
                  (some value)
                  w))
        < 2 ^ 64
      → Serves
          (λ w'. Reads tables key (some value) w w' × Fresh w')
          (Engine.put fs size checksum flush max_size key value (running w))
  unfolding Engine.put
  put-get tables key value w fresh room hk fits bounded = rw (not_full w room) (
      received-Serves (λ w'. Reads tables key (some value) w w' × Fresh w') dead
        (put_key fs size checksum flush max_size key value w)
        (Safe_map
          (λ old w'.
            Wrote fs laws size size_pos size_u32 k divides checksum flush max_size key (some value)
              w old w')
          (λ _ w'. Reads tables key (some value) w w' × Fresh w') _
          (λ old w' h. (Wrote-Reads tables key (some value) w old w' h, h.fresh))
          (put_key-Wrote fs laws size size_pos size_u32 k divides checksum flush max_size key value
            w fresh hk fits bounded)))

  -- After a delete of a memtable that is not full, that answers with a value, a get of the key
  -- reads nothing, even where the tables on disk hold the key, and a get of another key reads what
  -- it did before. Neither the delete nor the thread of the memtable panics where the memtable
  -- stands well, the key is not empty, and the entry fits a segment of the log and ends below 2 ^
  -- 64.
  pub delete-get :
      (tables : LevelContainer) (key : Text) (w : Memtable_)
      → Fresh w
      → w.current_size < max_size
      → 0 < length key
      → length (
          layout checksum (
            entry_of fs laws size size_pos size_u32 k divides checksum flush max_size OpType.delete
              key none w))
        ≤ size
      → next_sequence_number fs size w.wal
          + length (
              layout checksum (
                entry_of fs laws size size_pos size_u32 k divides checksum flush max_size
                  OpType.delete key none w))
        < 2 ^ 64
      → Serves
          (λ w'. Reads tables key none w w' × Fresh w')
          (Engine.delete fs size checksum flush max_size key (running w))
  unfolding Engine.delete
  delete-get tables key w fresh room hk fits bounded = rw (not_full w room) (
      received-Serves (λ w'. Reads tables key none w w' × Fresh w') dead
        (delete_key fs size checksum flush max_size key w)
        (Safe_map
          (λ old w'.
            Wrote fs laws size size_pos size_u32 k divides checksum flush max_size key none w old
              w')
          (λ _ w'. Reads tables key none w w' × Fresh w') _
          (λ old w' h. (Wrote-Reads tables key none w old w' h, h.fresh))
          (delete_key-Wrote fs laws size size_pos size_u32 k divides checksum flush max_size key w
            fresh hk fits bounded)))
