-- ===== src/Wal/Examples.antt =====
-- Entries, segments and names of the log at concrete values.
use rkvs.Base.{
  ℕ, ◌+◌, ◌<◌, ◌≤◌, ◌≡◌, ◌≢◌, arith, List, [], ◌∷◌, ◌++◌, none, some, length, ok, is_utf8, IsUtf8,
  Text, lengths,
}
use rkvs.Wal.Entry.{WalEntry, OpType, to_bytes, from_bytes}
use rkvs.Wal.EntryLaws.{IsLoggable, body, layout, to_bytes-layout, from_bytes-body}
use rkvs.Wal.Parse.{parse_validate_wal_entries}
use rkvs.Wal.ParseLaws.{log_of, header, parse-log_of, parse-split}
use rkvs.Wal.ParseTotal.{parse_validate_wal_entries-ne-none}
use rkvs.Wal.Filename.{determine_segment_filename, base_lsn}
use rkvs.Wal.FilenameLaws.{base_lsn-determine_segment_filename}
use rkvs.Wal.Segment.{FileSystem, State}

-- put "k" with the value "v", then delete "k"
abbrev put_entry : WalEntry
put_entry = record {
  operation_type = OpType.put;
  key = b'k' ∷ [];
  value = some (b'v' ∷ []);
  sequence_number = 0;
}

abbrev delete_entry : WalEntry
delete_entry = record {
  operation_type = OpType.delete;
  key = b'k' ∷ [];
  value = none;
  sequence_number = 27;
}

ascii : (b : ℕ) → b < 0x80 → IsUtf8 (b ∷ [])
unfolding is_utf8
ascii b h = ground arith

put_entry-IsLoggable : IsLoggable put_entry
put_entry-IsLoggable = record {
  key = ascii b'k' (omega arith);
  key_ne = omega arith;
  op = tt;
  value = ascii b'v' (omega arith);
  sequence_number = omega arith;
  size = omega arith;
}

delete_entry-IsLoggable : IsLoggable delete_entry
delete_entry-IsLoggable = record {
  key = ascii b'k' (omega arith);
  key_ne = omega arith;
  op = tt;
  value = tt;
  sequence_number = omega arith;
  size = omega arith;
}

-- a checksum that adds nothing, and one that counts
abbrev no_sum : List ℕ → ℕ
no_sum bytes = 0

no_sum-fits : (bytes : List ℕ) → no_sum bytes < 4294967296
no_sum-fits bytes = omega arith

abbrev path : Text
path = b'p' ∷ []

to_bytes-layout_example : to_bytes no_sum {E = Unit} put_entry ≡ ok (layout no_sum put_entry)
to_bytes-layout_example = to_bytes-layout no_sum put_entry (omega arith) tt

from_bytes-body_example : from_bytes (body put_entry) ≡ ok put_entry
from_bytes-body_example = from_bytes-body put_entry put_entry-IsLoggable

parse-log_of_example :
    parse_validate_wal_entries no_sum path
      (log_of no_sum (put_entry ∷ delete_entry ∷ []) ++ 0 ∷ 0 ∷ [])
    ≡ some (put_entry ∷ delete_entry ∷ [], ok none)
parse-log_of_example =
    parse-log_of no_sum no_sum-fits path (put_entry ∷ delete_entry ∷ []) (0 ∷ 0 ∷ [])
      (put_entry-IsLoggable, (delete_entry-IsLoggable, tt)) (omega arith)

parse-split_example :
    parse_validate_wal_entries no_sum path
      (log_of no_sum (put_entry ∷ []) ++ (header no_sum delete_entry ++ 0 ∷ 0 ∷ []))
    ≡ some (
      put_entry ∷ [],
      ok (
          some (record {
            segment_file_path = path;
            offset = length (log_of no_sum (put_entry ∷ []));
            bytes = header no_sum delete_entry;
          })),
    )
parse-split_example =
    parse-split no_sum no_sum-fits path (put_entry ∷ []) delete_entry (0 ∷ 0 ∷ [])
      (put_entry-IsLoggable, tt) delete_entry-IsLoggable (omega lengths)

parse_validate_wal_entries-ne-none_example :
    parse_validate_wal_entries no_sum path (1 ∷ 2 ∷ 3 ∷ []) ≢ none
parse_validate_wal_entries-ne-none_example =
    parse_validate_wal_entries-ne-none no_sum path (1 ∷ 2 ∷ 3 ∷ [])

base_lsn-determine_segment_filename_example :
    (name : Text) × (base : ℕ) × (determine_segment_filename {E = Unit} 0 1000 64 ≡ ok name)
    × (base_lsn {E = Unit} name 64 ≡ ok base)
    × (base ≤ 1000)
    × (1000 < base + 64)
base_lsn-determine_segment_filename_example =
    base_lsn-determine_segment_filename 1000 64 (omega arith) (omega arith)

-- a disk that keeps the bytes of the file that was created last
abbrev tape : FileSystem
tape = record {
  Disk = List ℕ;
  create = λ file d. (none, []);
  write_all = λ file bytes d. (none, d ++ bytes);
  file_len = λ file d. length d;
}

-- the first segment, of 64 bytes
abbrev begun : State tape
begun = record {
  disk = [];
  active_segment = record { file_path = path; file_size = 0; max_size = 64; base_lsn = 0 };
}
