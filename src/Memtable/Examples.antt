-- ===== src/Memtable/Examples.antt =====
-- The worker and the recovery at concrete values.
use rkvs.Base.{
  ℕ, ◌+◌, ◌<◌, ◌≡◌, refl, arith, lengths, List, [], ◌∷◌, ◌++◌, none, some, length, ok, is_utf8,
  IsUtf8, Text, IoError,
}
use rkvs.Base.Io.{Io}
use rkvs.Wal.Entry.{WalEntry, OpType}
use rkvs.Wal.EntryLaws.{IsLoggable}
use rkvs.Wal.Segment.{FileSystem}
use rkvs.Wal.SegmentLaws.{FileSystemLaws}
use rkvs.Memtable.Table.{Table, lookup}
use rkvs.Memtable.Worker.{Worker}
use rkvs.Memtable.WorkerLaws.{IsFresh}
use rkvs.Memtable.Recover.{recover}
use rkvs.Memtable.RecoverLaws.{Chunk, IsLog, files, replay, recover-replay}

-- a disk that keeps the bytes of the file that was created last
abbrev pub tape : FileSystem
tape = record {
  Disk = List ℕ;
  create = λ file d. (none, []);
  write_all = λ file bytes d. (none, d ++ bytes);
  file_len = λ file d. length d;
}

pub tape_laws : FileSystemLaws tape
tape_laws = record { created = λ file d. refl }

abbrev pub no_sum : List ℕ → ℕ
no_sum bytes = 0

pub no_sum-fits : (bytes : List ℕ) → no_sum bytes < 4294967296
no_sum-fits bytes = omega arith

-- a flusher that counts its calls
abbrev pub count : Table → Io ℕ IoError (Unit {0})
count t n = (ok tt, n + 1)

abbrev pub key : Text
key = b'k' ∷ []

abbrev pub value : Text
value = b'v' ∷ []

-- the worker on an empty log with segments of 64 bytes
abbrev pub begun : Worker tape 64 no_sum count 100
begun = record {
  table = [];
  wal = record {
    disk = [];
    active_segment = record { file_path = []; file_size = 0; max_size = 64; base_lsn = 0 };
  };
  flusher = 0;
  current_size = 0;
}

pub begun-IsFresh :
    IsFresh tape tape_laws 64 (omega arith) (omega arith) 67108864 refl no_sum count 100 begun
unfolding lookup
begun-IsFresh = record {
  placed = record { number = 0; starts = refl; max_size = refl; fits = omega arith };
  below = λ k v h. cc;
}

-- "k" is put in the first segment, and deleted by an entry that the second one ends
abbrev put_entry : WalEntry
put_entry = record {
  operation_type = OpType.put;
  key = key;
  value = some value;
  sequence_number = 0;
}

abbrev delete_entry : WalEntry
delete_entry = record {
  operation_type = OpType.delete;
  key = key;
  value = none;
  sequence_number = 27;
}

abbrev log : List Chunk
log =
    record { file_path = []; whole = put_entry ∷ []; cut = some delete_entry; padding = 0 ∷ 0 ∷ [] }
    ∷ (record { file_path = b'2' ∷ []; whole = []; cut = none; padding = [] } ∷ [])

ascii : (b : ℕ) → b < 0x80 → IsUtf8 (b ∷ [])
unfolding is_utf8
ascii b h = ground arith

put_entry-IsLoggable : IsLoggable put_entry
put_entry-IsLoggable = record {
  key = ascii b'k' (omega arith);
  key_ne = omega arith;
  op = tt;
  value = ascii b'v' (omega arith);
  sequence_number = omega arith;
  size = omega arith;
}

delete_entry-IsLoggable : IsLoggable delete_entry
delete_entry-IsLoggable = record {
  key = ascii b'k' (omega arith);
  key_ne = omega arith;
  op = tt;
  value = tt;
  sequence_number = omega arith;
  size = omega arith;
}

log-IsLog : IsLog none log
log-IsLog = (
  (put_entry-IsLoggable, tt),
  (delete_entry-IsLoggable, omega lengths),
  ((delete_entry-IsLoggable, tt), omega arith, tt),
)

recover-replay_example :
    recover no_sum (files no_sum none log) 0 none ([], 0)
    ≡ some ((replay none log ([], 0)).0, ok (replay none log ([], 0)).1)
recover-replay_example = recover-replay no_sum no_sum-fits log ([], 0) log-IsLog
