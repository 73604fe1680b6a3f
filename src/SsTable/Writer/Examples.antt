-- ===== src/SsTable/Writer/Examples.antt =====
-- A flush and its file, an index and a segment at concrete values.
use rkvs.Base.{
  ℕ, ◌++◌, false, ◌-◌, ◌<◌, ◌^◌, ◌≡◌, refl, arith, lengths, List, [], ◌∷◌, All, none, some, length,
  take, drop, ok, Text, is_utf8, IsUtf8, text_eq, text_lt,
}
use rkvs.Base.Io.{Ends, ◌>>◌}
use rkvs.SsTable.Writer.{SegmentWriter, write_index_and_footer}
use rkvs.SsTable.Writer.EntryLaws.{write_entries, IsWhole, write_entries-IsWhole}
use rkvs.SsTable.Entry.{SsTableEntry}
use rkvs.SsTable.EntryLaws.{IsStorable, block}
use rkvs.SsTable.Index
use rkvs.SsTable.Index.{SegmentIndexEntry}
use rkvs.SsTable.Index.Laws.{add_all, add_all-indices}
use rkvs.SsTable.Segment
use rkvs.SsTable.Segment.{Segment}
use rkvs.SsTable.Segment.File.{File, Holds}
use rkvs.SsTable.Ordered.{lookup_entry, Ascends}
use rkvs.SsTable.Segment.GetLaws.{get-lookup_entry}
use rkvs.SsTable.Segment.Stores.{Stores}
use rkvs.SsTable.Output.{OpenFails, WriteFails}
use rkvs.SsTable.Writer.Flush.{keys, insert_key, sort}
use rkvs.SsTable.Writer.FlushLaws.{Failed}
use rkvs.SsTable.Writer.SortLaws.{entries, DistinctKeys}
use rkvs.Memtable.Table.{Table, lookup}

-- a file whose reads are complete
abbrev pub complete : List ℕ → File
complete bytes = record {
  size = length bytes;
  read_at = λ offset n. ok (take n (drop offset bytes));
  read_last = λ n. ok (drop (length bytes - n) bytes);
  read_exact = λ offset n. ok (take n (drop offset bytes));
}

pub complete-Holds : (bytes : List ℕ) → Holds (complete bytes) bytes
complete-Holds bytes = record {
  size_lem = refl;
  read_at_lem = λ offset n. refl;
  read_last_lem = λ n h. refl;
  read_exact_lem = λ offset n h. refl;
}

abbrev pub no_failure : WriteFails
no_failure written bytes = none

-- "b" was deleted after "a" was written
abbrev pub table : Table
table =
    (b'b' ∷ [], record { value = none; sequence_number = 6 })
    ∷ ((b'a' ∷ [], record { value = some (b'x' ∷ []); sequence_number = 5 }) ∷ [])

-- every file can be opened
abbrev pub can_open : OpenFails
can_open = record { to_write = λ name. none; to_read = λ name. none; metadata = λ name. none }

abbrev pub written : SsTableEntry
written = record { key = b'a' ∷ []; value = some (b'x' ∷ []); sequence_number = 5 }

abbrev pub deleted : SsTableEntry
deleted = record { key = b'b' ∷ []; value = none; sequence_number = 6 }

ascii : (b : ℕ) → b < 0x80 → IsUtf8 (b ∷ [])
unfolding is_utf8
ascii b h = ground arith

pub both-IsStorable : All IsStorable (written ∷ (deleted ∷ []))
both-IsStorable = (
  record {
    key = ascii b'a' (omega arith);
    value = ascii b'x' (omega arith);
    sequence_number = omega arith;
    size = omega arith;
  },
  (
    record {
      key = ascii b'b' (omega arith);
      value = tt;
      sequence_number = omega arith;
      size = omega arith;
    },
    tt,
  ),
)

pub both_size : length (block (written ∷ (deleted ∷ []))) < 2 ^ 64
both_size = omega lengths

pub in_order : entries table (sort (keys table)) ≡ written ∷ (deleted ∷ [])
unfolding sort insert_key lookup text_eq text_lt
in_order = refl

pub distinct : DistinctKeys (keys table)
unfolding text_eq
distinct = ((refl, tt), (tt, tt))

abbrev marked : SegmentIndexEntry
marked = record { key = b'a' ∷ []; offset = 0 }

-- 0000000000000007.sst
abbrev filename : Text
filename =
    b'0' ∷ b'0' ∷ b'0' ∷ b'0' ∷ b'0' ∷ b'0' ∷ b'0' ∷ b'0' ∷ b'0' ∷ b'0' ∷ b'0' ∷ b'0' ∷ b'0' ∷ b'0'
    ∷ b'0' ∷ b'7' ∷ b'.' ∷ b's' ∷ b's' ∷ b't' ∷ []

pub two_entries-Ascends : Ascends (written ∷ (deleted ∷ []))
unfolding text_lt
two_entries-Ascends = ((refl, tt), (tt, tt))

abbrev pub segment : Segment
segment = record {
  file = (complete (block (written ∷ (deleted ∷ [])) ++ 0 ∷ [])).read_at;
  filepath = filename;
  index = add_all Index.new (marked ∷ []);
  size = 100;
  number = 7;
  level_number = 0;
  data_block_end = length (block (written ∷ (deleted ∷ [])));
  first_key = b'a' ∷ [];
  last_key = b'b' ∷ [];
  highest_sequence_no = 6;
}

abbrev pub segment_stores : Stores segment (written ∷ (deleted ∷ []))
segment_stores = record {
  open_file = complete (block (written ∷ (deleted ∷ [])) ++ 0 ∷ []);
  contents = block (written ∷ (deleted ∷ [])) ++ 0 ∷ [];
  rest = 0 ∷ [];
  first = [];
  parts = record { head = written; tail = deleted ∷ [] } ∷ [];
  file_eq = refl;
  block_eq = refl;
  end_eq = refl;
  parts_eq = refl;
  index_eq = add_all-indices (marked ∷ []) Index.new;
  storable = both-IsStorable;
  ascends = two_entries-Ascends;
}

pub segment-Holds : Holds segment_stores.open_file segment_stores.contents
segment-Holds = complete-Holds (block (written ∷ (deleted ∷ [])) ++ 0 ∷ [])

get-lookup_entry_example :
    Segment.get segment (b'b' ∷ []) ≡ ok (lookup_entry (b'b' ∷ []) (written ∷ (deleted ∷ [])))
get-lookup_entry_example =
    get-lookup_entry segment (written ∷ (deleted ∷ [])) (b'b' ∷ []) segment_stores segment-Holds

-- a writer to a new file
abbrev writer : SegmentWriter
writer = record {
  output = record { old = []; written = [] };
  filepath = filename;
  curr_size = 0;
  index_sparsity_factor = 2;
  index = Index.new;
  target_size = 1000;
  entries_written = 0;
  finished = false;
}

write_entries-IsWhole_example :
    Ends
      (Failed no_failure)
      (λ _ w'. IsWhole no_failure 2 (written ∷ (deleted ∷ [])) w')
      ((write_entries no_failure (written ∷ (deleted ∷ [])) >> write_index_and_footer no_failure)
        writer)
write_entries-IsWhole_example =
    write_entries-IsWhole no_failure (written ∷ (deleted ∷ [])) writer refl refl refl refl refl
      (omega arith) both-IsStorable both_size
