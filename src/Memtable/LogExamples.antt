-- ===== src/Memtable/LogExamples.antt =====
-- The log at concrete values: a worker whose files hold the entry of a put.
use mathlib.Core.List.{Permᴰ}
use rkvs.Base.{
  ℕ, ◌+◌, ◌<◌, ◌≡◌, ◌≢◌, refl, arith, List, [], ◌∷◌, ◌++◌, true, false, Bool-cases, inl, inr,
  if◌then◌else◌, Option, none, some, length, take, sym, append-nil, ok, is_utf8, IsUtf8, Text,
  text_eq, text_eq_refl, text_eq→eq, IoError,
}
use rkvs.Wal.Entry.{WalEntry, OpType}
use rkvs.Wal.EntryLaws.{IsLoggable}
use rkvs.Wal.ParseLaws.{log_of}
use rkvs.Wal.NameLaws.{IsNamed}
use rkvs.Base
use rkvs.Wal.Segment.{FileSystem, State}
use rkvs.Wal.DiskLaws.{DiskLaws}
use rkvs.Memtable.Table
use rkvs.Memtable.Worker.{Worker}
use rkvs.Memtable.Recover.{insert_entries, recover}
use rkvs.Memtable.LogCases.{IsLogged}
use rkvs.Memtable.Chunks.{paths_of}
use rkvs.Memtable.Durable.{IsDurable, opened, chunks, recover-IsDurable}
use rkvs.Memtable.Start.{Directory, start}
use rkvs.Memtable.StartLaws.{Answers}
use rkvs.Memtable.StartDurable.{start-IsDurable}
use rkvs.Memtable.Examples.{no_sum, no_sum-fits, count, key, value}

-- what the files hold, by their paths
abbrev Files : Type 0
Files = Text → List ℕ

abbrev hold : Text → List ℕ → Files → Files
hold path bytes files other = if text_eq other path then bytes else files other

abbrev drawer : FileSystem
drawer = record {
  Disk = Files;
  create = λ path files. (none, hold path [] files);
  write_all = λ path bytes files. (none, hold path (files path ++ bytes) files);
  file_len = λ path files. length (files path);
}

hold_other :
    (path other : Text) (bytes : List ℕ) (files : Files)
    → other ≢ path
    → hold path bytes files other ≡ files other
hold_other path other bytes files h = elim (Bool-cases (text_eq other path)) [
  | inl same ↦ absurd (h (text_eq→eq other path same))
  | inr differs ↦ rw differs refl
]

hold_same : (path : Text) (bytes : List ℕ) (files : Files) → hold path bytes files path ≡ bytes
hold_same path bytes files = rw (text_eq_refl path) refl

abbrev drawer_disk : DiskLaws drawer
drawer_disk = record {
  read = λ path files. files path;
  file_len_lem = λ path files. refl;
  create_lem = λ path files h. hold_same path [] files;
  create_others = λ path other files h differs. hold_other path other [] files differs;
  write_lem = λ path bytes files h. hold_same path (files path ++ bytes) files;
  write_others =
      λ path bytes other files h differs. hold_other path other (files path ++ bytes) files differs;
}

-- the first segment
abbrev first : Text
first =
    b'0' ∷ b'0' ∷ b'0' ∷ b'0' ∷ b'0' ∷ b'0' ∷ b'0' ∷ b'0' ∷ b'0' ∷ b'0' ∷ b'0' ∷ b'0' ∷ b'0' ∷ b'0'
    ∷ b'0' ∷ b'0' ∷ b'0' ∷ b'0' ∷ b'0' ∷ b'0' ∷ b'0' ∷ b'0' ∷ b'0' ∷ b'0' ∷ b'.' ∷ b'w' ∷ b'a'
    ∷ b'l' ∷ []

first-IsNamed : IsNamed 32 0 first
unfolding Base.fixed
first-IsNamed = record {
  log = 0;
  segment_no = 0;
  path_eq = refl;
  log_small = omega arith;
  no_small = omega arith;
  inside = omega arith;
  start = refl;
}

ascii : (b : ℕ) → b < 0x80 → IsUtf8 (b ∷ [])
unfolding is_utf8
ascii b h = ground arith

abbrev written : WalEntry
written = record { operation_type = OpType.put; key = key; value = some value; sequence_number = 0 }

written-IsLoggable : IsLoggable written
written-IsLoggable = record {
  key = ascii b'k' (omega arith);
  key_ne = omega arith;
  op = tt;
  value = ascii b'v' (omega arith);
  sequence_number = omega arith;
  size = omega arith;
}

abbrev deleted : WalEntry
deleted = record { operation_type = OpType.delete; key = key; value = none; sequence_number = 27 }

-- the log of one entry, 27 bytes in a segment of 32: the entry of a delete begins a new segment
abbrev log : State drawer
log = record {
  disk = λ path. log_of no_sum (written ∷ []);
  active_segment = record { file_path = first; file_size = 27; max_size = 32; base_lsn = 0 };
}

log_bytes : log_of no_sum (written ∷ []) ≡ log_of no_sum (written ∷ []) ++ []
log_bytes = sym (append-nil (log_of no_sum (written ∷ [])))

log_len : log.active_segment.file_size ≡ length (log_of no_sum (written ∷ []) ++ [])
unfolding Base.le_bytes
log_len = refl

abbrev log-IsLogged : IsLogged drawer drawer_disk no_sum 32 (omega arith) (written ∷ []) log
log-IsLogged = record {
  done = [];
  carried = none;
  whole = written ∷ [];
  number = 0;
  at_end = record {
    stored = record { follows = refl; before = tt; ascends = tt; on_disk = tt; filled = tt };
    loggable = (written-IsLoggable, tt);
    starts = refl;
    max_eq = refl;
    named = first-IsNamed;
    here = log_bytes;
    size_eq = log_len;
    fits = omega arith;
  };
  entries = refl;
}

-- the worker after the put
abbrev worker : Worker drawer 32 no_sum count 100
worker = record {
  table = (key, record { value = some value; sequence_number = 0 }) ∷ [];
  wal = log;
  flusher = 0;
  current_size = 19;
}

worker_table : insert_entries (written ∷ []) ([], 0) ≡ (worker.table, worker.current_size)
unfolding insert_entries Table.insert
worker_table = refl

abbrev worker-IsDurable : IsDurable drawer drawer_disk no_sum 32 (omega arith) count 100 worker
worker-IsDurable = record { entries = written ∷ []; logged = log-IsLogged; table_eq = worker_table }

recover-IsDurable_example :
    recover no_sum
      (opened drawer drawer_disk no_sum 32
        (omega arith)
        worker.wal.disk
        (paths_of (chunks drawer drawer_disk no_sum 32 (omega arith) worker-IsDurable.logged)))
      0
      none
      ([], 0)
    ≡ some (worker.table, ok worker.current_size)
recover-IsDurable_example =
    recover-IsDurable drawer drawer_disk no_sum 32 (omega arith) count 100 no_sum-fits worker
      worker-IsDurable

-- the directory, in which there is the first segment
abbrev cabinet : Directory drawer
cabinet = record {
  create_dir_all = λ files. (none, files);
  read_dir = λ files.
      ok (ok (record { name = first; is_file = ok true; len = ok (length (files first)) }) ∷ []);
  open_to_read = λ path files. none;
  open_to_write = λ path files. none;
  metadata_len = λ path files. ok (length (files path));
  read_to_end = λ path files. (none, files path);
  set_len = λ path n files. (none, hold path (take n (files path)) files);
  remove_file = λ path files. (none, hold path [] files);
}

cabinet-Answers : Answers drawer drawer_disk cabinet worker.wal.disk (first ∷ [])
cabinet-Answers = record {
  exists = refl;
  names = first ∷ [];
  lists = refl;
  same_names = Permᴰ.cons refl Permᴰ.nil;
  readable = (record { to_read = refl; to_write = refl; len = refl; bytes = refl }, tt);
}

start-IsDurable_example :
    start drawer cabinet 32 no_sum count 100 7 0 worker.wal.disk
    ≡ (ok (some (record worker { flusher = 7 })), worker.wal.disk)
start-IsDurable_example =
    start-IsDurable drawer drawer_disk cabinet no_sum 32 (omega arith) (omega arith) count 100
      worker worker-IsDurable (omega arith) 7 no_sum-fits cabinet-Answers
