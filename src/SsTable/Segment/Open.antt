-- ===== src/SsTable/Segment/Open.antt =====
-- `Segment::from_file` of src/storage_engine/sstable/level/segment.rs.
use rkvs.Base.{
  ℕ, ◌+◌, ◌-◌, List, [], ◌∷◌, length, ltb, leb, if◌then◌else◌, Outcome, ok, err, ◌>>=◌, ◌>>◌,
  assert, map_err, slice, Text, text_eq, IoError,
}
use rkvs.SsTable.Entry.{SsTableEntry}
use rkvs.SsTable.Index
use rkvs.SsTable.Index.{SegmentIndexEntry, segment_footer_len, magic_bytes, footer_from_bytes}
use rkvs.SsTable.Filename.{level_and_segment_number_from_filename}
use rkvs.SsTable.Segment.{Segment, read_table_entry, read_table_entries}
use rkvs.SsTable.Output.{OpenFails, failed}
use rkvs.SsTable.Segment.File.{File}

pub data SegmentOpenError : Type 0 where
  io_error : IoError → SegmentOpenError
  corrupt : SegmentOpenError

-- a `?` on an io::Result
abbrev pub try : {A : Type 0} → Outcome IoError A → Outcome SegmentOpenError A
try r = map_err io_error r

-- self.indices.last(), or 0
unfoldable pub last_offset : List SegmentIndexEntry → ℕ
last_offset [] = 0
last_offset (e ∷ []) = e.offset
last_offset (e ∷ (f ∷ es)) = last_offset (f ∷ es)

-- the loop over the entries that were read
unfoldable pub highest_number : ℕ → List SsTableEntry → ℕ
highest_number res [] = res
highest_number res (e ∷ es) =
    highest_number (if ltb res e.sequence_number then e.sequence_number else res) es

-- the key of the last entry, or `first`
unfoldable pub last_key : Text → List SsTableEntry → Text
last_key first [] = first
last_key first (e ∷ es) = last_key e.key es

-- whether the file ends with the magic bytes; text_eq compares byte strings
unfoldable pub check_magic : List ℕ → Outcome SegmentOpenError (Unit {0})
check_magic footer_buf = do
  assert (leb (length magic_bytes) (length footer_buf))
  magic ← slice footer_buf (length footer_buf - length magic_bytes) (length footer_buf)
  if text_eq magic magic_bytes then ok tt else err corrupt

-- what is read from the open file
unfoldable pub read_segment : Text → ℕ → ℕ → File → Outcome SegmentOpenError Segment
unfolding check_magic
read_segment filename level_no segment_no file = do
  footer_buf ← try (file.read_last segment_footer_len)
  check_magic footer_buf
  footer_bytes ← slice footer_buf 0 (segment_footer_len - length magic_bytes)
  footer ← footer_from_bytes footer_bytes
  assert (leb (segment_footer_len + footer.index_offset) file.size)
  index_buf ←
      try
        (file.read_exact footer.index_offset (file.size - segment_footer_len - footer.index_offset))
  index ← Index.from_bytes index_buf
  first ← try (read_table_entry file.read_at 0)
  entries ← try (read_table_entries file.read_at (last_offset index.indices) footer.index_offset)
  ok (record {
    file = file.read_at;
    filepath = filename;
    index = index;
    size = file.size;
    number = segment_no;
    level_number = level_no;
    data_block_end = footer.index_offset;
    first_key = first.key;
    last_key = last_key first.key entries;
    highest_sequence_no = highest_number 0 entries;
  })

-- Segment::from_file: the file is opened under its name, and its metadata read, first
unfoldable pub from_file : OpenFails → Text → File → Outcome SegmentOpenError Segment
unfolding read_segment
from_file opens filename file = do
  (level_no, segment_no) ← level_and_segment_number_from_filename filename
  try (failed (opens.to_read filename))
  try (failed (opens.metadata filename))
  read_segment filename level_no segment_no file
